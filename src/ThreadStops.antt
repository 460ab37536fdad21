-- ===== src/ThreadStops.antt =====
-- OLD/kill_threads_v4.py: `main`, where a signal stops two jobs. The signal comes behind so many of
-- the statements of the `try` block, or while the main thread waits behind all of them; a job that
-- is started runs until its flag is set, so `join` returns for it.
pub mod Moments
use public_trash.Base.{
  ℕ, zero, suc, Bool, true, false, if◌then◌else◌, List, [], ◌∷◌, Option, none, some, Exception,
  Result, ok, raise, unbound_local_error, runtime_error,
}

pub record Job : Type 0 where
  pub is_started : Bool
  pub is_shutdown : Bool

-- The variables `j1` and `j2`, `none` where nothing is assigned yet.
pub record Jobs : Type 0 where
  pub j1 : Option Job
  pub j2 : Option Job

abbrev pub no_jobs : Jobs
no_jobs = record { j1 = none; j2 = none }

abbrev pub new_job : Job
new_job = record { is_started = false; is_shutdown = false }

abbrev pub start : Option Job → Option Job
start none = none
start (some j) = some (record j { is_started = true })

-- The statements of the `try` block in front of the endless loop.
abbrev pub statements : List (Jobs → Jobs)
statements =
    (λ s. record s { j1 = some new_job })
    ∷ (λ s. record s { j2 = some new_job })
    ∷ (λ s. record s { j1 = start s.j1 })
    ∷ (λ s. record s { j2 = start s.j2 })
    ∷ []

unfoldable pub run_some : List (Jobs → Jobs) → ℕ → Jobs → Jobs
run_some [] n s = s
run_some (statement ∷ todo) zero s = s
run_some (statement ∷ todo) (suc n) s = run_some todo n (statement s)

-- A statement of the handler: it may raise, and changes the jobs.
abbrev pub Handling : Type 0
Handling = Jobs → Result (Unit {0}) × Jobs

abbrev pub next : Handling → Result (Unit {0}) × Jobs → Result (Unit {0}) × Jobs
next f (ok _, s) = f s
next f (raise problem, s) = (raise problem, s)

infixl 5 ◌>>◌
abbrev pub ◌>>◌ : Handling → Handling → Handling
(f >> g) s = next g (f s)

abbrev pub set_flag : (Job → Jobs) → Option Job → Jobs → Result (Unit {0}) × Jobs
set_flag put none s = (raise unbound_local_error, s)
set_flag put (some j) s = (ok tt, put (record j { is_shutdown = true }))

abbrev pub set_1 : Handling
set_1 s = set_flag (λ j. record s { j1 = some j }) s.j1 s

abbrev pub set_2 : Handling
set_2 s = set_flag (λ j. record s { j2 = some j }) s.j2 s

-- `join` raises `RuntimeError` on a thread that was not started.
abbrev pub join_job : Option Job → Jobs → Result (Unit {0}) × Jobs
join_job none s = (raise unbound_local_error, s)
join_job (some j) s = if j.is_started then (ok tt, s) else (raise runtime_error, s)

abbrev pub join_1 : Handling
join_1 s = join_job s.j1 s

abbrev pub join_2 : Handling
join_2 s = join_job s.j2 s

-- `except ServiceExit`.
unfoldable pub stop_jobs : Handling
stop_jobs = set_1 >> set_2 >> join_1 >> join_2

unfoldable pub main : ℕ → Result (Unit {0}) × Jobs
unfolding run_some stop_jobs
main done = stop_jobs (run_some statements done no_jobs)
