-- ===== src/Relay/Client/Backoff.antt =====
-- The waits between refused attempts, and the attempt after which none is made any more.
use public_trash.Base.{
  ℕ, zero, suc, ◌+◌, ◌-◌, ◌*◌, ◌^◌, min, ◌≤◌, ◌≡◌, refl, true, false, ◌==◌, ltb-false, lt→ltb, List,
  [], ◌∷◌, ◌++◌, length, replicate, none, overflow_error, socket_error, ok, raise, arith, All,
}
use public_trash.Relay.Client.{
  ClientConnection, Turn, Step, waits, tries, closes, errs, delay, attempt, wait, failed, turn, run,
}
use public_trash.Relay.Connection.{Connection}

-- A connection without a socket, with this number of attempts.
abbrev pub idle : Connection → ℕ → ClientConnection
idle k n = record { connection = record k { sock = none }; connection_attempts = n }

abbrev refusal : ℕ → Turn
refusal s = record { interrupted = false; new_sock = s; connects = false; stopped = false }

abbrev pub refusals : List ℕ → List Turn
refusals [] = []
refusals (s ∷ ss) = refusal s ∷ refusals ss

-- The wait before an attempt, in tenths of a second, and what a refused attempt does.
abbrev pub backoff : ℕ → List Step
backoff zero = []
backoff (suc n) = waits (min (10 * 2 ^ n) 300) ∷ []

abbrev pub refusal_steps : ℕ → List ℕ → List Step
refusal_steps attempts [] = []
refusal_steps attempts (s ∷ ss) =
    (backoff attempts ++ tries s ∷ errs socket_error ∷ closes s ∷ [])
    ++ refusal_steps (attempts + 1) ss

delay-ok : (n : ℕ) → n ≤ 1023 → delay (suc n) ≡ ok (min (10 * 2 ^ n) 300)
unfolding delay
delay-ok n le = let pred : suc n - 1 ≡ n = omega arith in rw (pred, ltb-false 1023 n le) refl

delay-overflow : (n : ℕ) → 1024 ≤ n → delay (suc n) ≡ raise overflow_error
unfolding delay
delay-overflow n le =
    let pred : suc n - 1 ≡ n = omega arith in rw (pred, lt→ltb 1023 n (omega arith)) refl

refused_turn :
    (s : ℕ) (k : Connection) (n : ℕ)
    → n ≤ 1024
    → turn (refusal s) (idle k n)
      ≡ (backoff n ++ tries s ∷ errs socket_error ∷ closes s ∷ [], idle k (n + 1), true)
unfolding turn attempt wait failed
refused_turn s k zero le = refl
refused_turn s k (suc n) le =
    let positive : (suc n == 0) ≡ false = ground arith in
    rw (positive, delay-ok n (omega arith)) refl

refused_run :
    (socks : List ℕ) (k : Connection) (n : ℕ)
    → n + length socks ≤ 1025
    → run (refusals socks) (idle k n) ≡ (refusal_steps n socks, idle k (n + length socks))
unfolding run
refused_run [] k n le = ground arith
refused_run (s ∷ ss) k n le =
    rw (refused_turn s k n (omega arith), refused_run ss k (n + 1) (omega arith)) (ground arith)

-- Refused attempts of a client without a socket, up to 1025 of them: each on its new socket,
-- which is closed and forgotten, the first at once and the next after 1, 2, 4, 8, 16 seconds and
-- then every 30.
run-refusals :
    (socks : List ℕ) (k : Connection)
    → length socks ≤ 1025
    → run (refusals socks) (idle k 0) ≡ (refusal_steps 0 socks, idle k (length socks))
run-refusals socks k le = ground (arith, refused_run socks k 0 (omega arith))

-- From 1025 attempts on, where no flag is set, every turn of a client without a socket raises
-- `OverflowError` before it connects and leaves the state as it was, even where the server would
-- accept.
pub run-overflow :
    (turns : List Turn) (k : Connection) (n : ℕ)
    → 1025 ≤ n
    → All (λ t. t.stopped ≡ false) turns
    → run turns (idle k n) ≡ (replicate (length turns) (errs overflow_error), idle k n)
unfolding run turn wait failed
run-overflow [] k n le alive = refl
run-overflow (t ∷ ts) k zero le alive = absurd (omega arith)
run-overflow (t ∷ ts) k (suc n) le (on, alive) =
    let positive : (suc n == 0) ≡ false = ground arith in
    rw (positive, delay-overflow n (omega arith), on, run-overflow ts k (suc n) le alive) refl
