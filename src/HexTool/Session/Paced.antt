-- ===== src/HexTool/Session/Paced.antt =====
-- The messages are sent in turn, and not too often.
use public_trash.Base.{
  ℕ, zero, suc, ◌+◌, ◌*◌, ◌%◌, ◌≤◌, ◌≡◌, refl, sym, ap, subst, ◌∙◌, Bool, true, false, Bool-cases,
  inl, inr, leb, leb→le, if◌then◌else◌, List, [], ◌∷◌, length, get_elem?, Option, none, some, ok,
  arith,
}
use public_trash.Base.Words.{Bytes}
use public_trash.Base.Texts.{codes, join_with, starts_with}
use public_trash.HexTool.{hex_to_bytes}
use public_trash.HexTool.Session.{
  Readable, not_readable, recv_error, received, Round, Log, send, read, run, messages, session,
  main,
}

-- The `k`-th message of the log is that of this place, and was not sent before this time.
abbrev IsPaced : List Bytes → ℕ → ℕ → ℕ → List (ℕ × Bytes) → Type 0
IsPaced ms period j next sent =
    (k t : ℕ) (m : Bytes)
    → get_elem? sent k ≡ some (t, m)
    → (get_elem? ms ((j + k) % 3) ≡ some m) × (next + k * period ≤ t)

nothing_sent : (ms : List Bytes) (period j next : ℕ) → IsPaced ms period j next []
nothing_sent ms period j next k t m h = absurd (ground (arith, h))

read-IsPaced :
    (ms : List Bytes) (period j next : ℕ) (readable : Readable) (rest : Log)
    → IsPaced ms period j next rest.sent
    → IsPaced ms period j next (read readable rest).sent
read-IsPaced ms period j next not_readable rest h = h
read-IsPaced ms period j next recv_error rest h = nothing_sent ms period j next
read-IsPaced ms period j next (received []) rest h = nothing_sent ms period j next
read-IsPaced ms period j next (received (b ∷ bs)) rest h = h

cons-IsPaced :
    (ms : List Bytes) (period j next now : ℕ) (message : Bytes) (sent : List (ℕ × Bytes))
    → next ≤ now
    → some message ≡ get_elem? ms (j % 3)
    → IsPaced ms period (suc j) (now + period) sent
    → IsPaced ms period j next ((now, message) ∷ sent)
cons-IsPaced ms period j next now message sent due e h zero t m got =
    let at : now ≡ t = ap (λ o. elim o [ none ↦ now | some p ↦ p.0 ]) got in
    let same : message ≡ m = ap (λ o. elim o [ none ↦ message | some p ↦ p.1 ]) got in
    let here : (j + 0) % 3 ≡ j % 3 = omega arith in
    (ap (λ i. get_elem? ms i) here ∙ sym e ∙ ap some same, omega (arith, due, at))
cons-IsPaced ms period j next now message sent due e h (suc k) t m got =
    let (found, late) = h k t m got in
    let here : (j + suc k) % 3 ≡ (suc j + k) % 3 = omega arith in
    (ap (λ i. get_elem? ms i) here ∙ found, omega (arith, due, late))

send-IsPaced :
    (ms : List Bytes) (period j next now : ℕ) (send_raises : Bool) (message : Option Bytes)
    (again : Log)
    → next ≤ now
    → message ≡ get_elem? ms (j % 3)
    → IsPaced ms period (suc j) (now + period) again.sent
    → IsPaced ms period j next (send send_raises now message again).sent
send-IsPaced ms period j next now send_raises none again due e h = nothing_sent ms period j next
send-IsPaced ms period j next now true (some message) again due e h = nothing_sent ms period j next
send-IsPaced ms period j next now false (some message) again due e h =
    cons-IsPaced ms period j next now message again.sent due e h

turn-IsPaced :
    (ms : List Bytes) (period j next : ℕ) (r : Round) (later idle : Log)
    → IsPaced ms period (suc j) (r.now + period) later.sent
    → IsPaced ms period j next idle.sent
    → IsPaced ms period j next
        (if leb next r.now
          then send r.send_raises r.now (get_elem? ms (j % 3)) later
          else idle).sent
turn-IsPaced ms period j next r later idle h k = elim (Bool-cases (leb next r.now)) [
  | inl due ↦ rw due (
      send-IsPaced ms period j next r.now r.send_raises (get_elem? ms (j % 3)) later
        (leb→le next r.now due) refl h)
  | inr early ↦ rw early k
]

run-IsPaced :
    (ms : List Bytes) (period j next : ℕ) (rounds : List Round)
    → length ms ≡ 3
    → IsPaced ms period j next (run ms period (j % 3) next rounds).sent
unfolding run
run-IsPaced ms period j next [] three = nothing_sent ms period j next
run-IsPaced ms period j next (r ∷ rounds) three =
    let index : suc j % 3 ≡ (j % 3 + 1) % length ms = rw three (omega arith) in
    let later = run ms period ((j % 3 + 1) % length ms) (r.now + period) rounds in
    let idle = run ms period (j % 3) next rounds in
    read-IsPaced ms period j next r.readable _ (
      turn-IsPaced ms period j next r later idle
        (subst
          (λ i.
            IsPaced ms period (suc j) (r.now + period)
              (run ms period i (r.now + period) rounds).sent)
          index (run-IsPaced ms period (suc j) (r.now + period) rounds three))
        (run-IsPaced ms period j next rounds three))

abbrev pub three_messages : List Bytes
three_messages = codes "HELLO" ∷ codes "GOODDAY" ∷ codes "BYEBYE" ∷ []

pub messages_lem : messages ≡ ok three_messages
unfolding messages hex_to_bytes join_with starts_with
messages_lem = refl

session-IsPaced :
    (period start : ℕ) (rounds : List Round)
    → IsPaced three_messages period 0
        (start + period)
        (session period start rounds (ok three_messages)).sent
unfolding session
session-IsPaced period start rounds =
    run-IsPaced three_messages period 0 (start + period) rounds refl

-- Whatever the rounds bring, the messages HELLO, GOODDAY and BYEBYE are sent in turn, the `k`-th
-- one, counted from 0, not before `k + 1` periods have passed since the start.
pub main-paced :
    (period start : ℕ) (rounds : List Round) (k t : ℕ) (m : Bytes)
    → get_elem? (main period start (some rounds)).sent k ≡ some (t, m)
    → (get_elem? three_messages (k % 3) ≡ some m) × (start + suc k * period ≤ t)
unfolding main
main-paced period start rounds k t m got =
    let turn : (0 + k) % 3 ≡ k % 3 = omega arith in
    let made = ap (λ ms. get_elem? (session period start rounds ms).sent k) messages_lem in
    let (found, late) = session-IsPaced period start rounds k t m (sym made ∙ got) in
    (ap (λ i. get_elem? three_messages i) (sym turn) ∙ found, omega (arith, late))
