-- ===== src/ThreadStops/Moments.antt =====
-- Whenever the signal comes, what is left running, and when the program ends without an exception.
use public_trash.Base.{
  ℕ, zero, suc, ◌≤◌, ◌≡◌, refl, ◌↔◌, true, false, Option, none, some, Exception, ok, raise,
  unbound_local_error, runtime_error, arith,
}
use public_trash.ThreadStops.{Job, run_some, stop_jobs, main}

-- The job runs on: it was started, and its flag is not set.
abbrev pub RunsOn : Option Job → Type 0
RunsOn none = ⊥
RunsOn (some j) = (j.is_started ≡ true) × (j.is_shutdown ≡ false)

unset : (j : Job) → j.is_shutdown ≡ true → ¬ RunsOn (some j)
unset j h (started, runs) = ground (arith, h, runs)

raised : (problem : Exception) → ¬ (raise problem ≡ ok (tt {0}))
raised problem h = ground (arith, h)

-- Whenever the signal comes, neither job runs on; and the program ends without an exception
-- exactly when both jobs were started.
pub main-RunsOn :
    (done : ℕ)
    → (¬ RunsOn (main done).1.j1)
      × (¬ RunsOn (main done).1.j2)
      × (((main done).0 ≡ ok tt) ↔ (4 ≤ done))
unfolding main run_some stop_jobs
main-RunsOn zero =
    (λ h. h, λ h. h, (λ h. absurd (raised unbound_local_error h), λ k. absurd (omega (arith, k))))
main-RunsOn (suc zero) = (
  unset _ refl,
  λ h. h,
  (λ h. absurd (raised unbound_local_error h), λ k. absurd (omega (arith, k))),
)
main-RunsOn (suc (suc zero)) = (
  unset _ refl,
  unset _ refl,
  (λ h. absurd (raised runtime_error h), λ k. absurd (omega (arith, k))),
)
main-RunsOn (suc (suc (suc zero))) = (
  unset _ refl,
  unset _ refl,
  (λ h. absurd (raised runtime_error h), λ k. absurd (omega (arith, k))),
)
main-RunsOn (suc (suc (suc (suc done)))) =
    (unset _ refl, unset _ refl, (λ h. omega arith, λ k. refl))
