-- ===== src/Command/Server/Run/Reads.antt =====
-- The reading loop of the server has fuel enough, whatever arrives.
use public_trash.Base.{
  ℕ, zero, suc, ◌+◌, ◌-◌, ◌≤◌, ◌≡◌, refl, subst, Bool, true, false, Bool-cases, inl, inr, ltb,
  ltb→lt, [], ◌∷◌, ◌++◌, length, take, drop, length-append, length-take, length-drop, Exception,
  stuck, Result, ok, raise, arith,
}
use public_trash.Base.Words.{Bytes}
use public_trash.Command.Socket.{
  Incoming, arrives, times_out, resets, fails, and_then, put_back, recv, received, recv_loop,
  recv_all,
}
use public_trash.Command.Server.Run.{bytes_left}

abbrev pub is_stuck : Exception → Bool
is_stuck stuck = true
is_stuck _ = false

-- No loop inside ran out of fuel.
abbrev pub IsFuelled {ℓ} : {A : Type ℓ} → Result A → Type 0
IsFuelled (ok a) = Unit
IsFuelled (raise e) = is_stuck e ≡ false

bytes_left-put_back :
    (bs : Bytes) (rest : Incoming) → bytes_left (put_back bs rest) ≡ length bs + bytes_left rest
unfolding bytes_left
bytes_left-put_back [] rest = omega arith
bytes_left-put_back (b ∷ bs) rest = refl

-- At least `n` bytes are read, of as many as there are; or something else is raised.
abbrev pub IsRead : ℕ → ℕ → Result Bytes × Incoming → Type 0
IsRead n start (ok got, rest) = (n ≤ length got) × (bytes_left rest + length got ≤ start)
IsRead n start (raise e, rest) = (is_stuck e ≡ false) × (bytes_left rest ≤ start)

-- A segment of which `suc k` bytes are read.
read_segment :
    (k b : ℕ) (bs block : Bytes) (rest : Incoming)
    → bytes_left (put_back (drop k bs) rest) + length (block ++ b ∷ take k bs)
      ≡ suc (length bs) + bytes_left rest + length block
read_segment k b bs block rest = omega (
  arith,
  bytes_left-put_back (drop k bs) rest,
  length-append block (b ∷ take k bs),
  length-take k bs,
  length-drop k bs,
)

round-IsRead :
    (fuel n k : ℕ) (block : Bytes)
    → ((got : Bytes) (rest : Incoming)
        → n ≤ length got + fuel
        → IsRead n (bytes_left rest + length got) (recv_loop fuel n got rest))
    → n ≤ length block + suc fuel
    → (incoming : Incoming)
    → IsRead n
        (bytes_left incoming + length block)
        (and_then (recv (suc k) incoming) (received (λ got rest. recv_loop fuel n got rest) block))
unfolding recv bytes_left
round-IsRead fuel n k block again enough [] = (refl, omega arith)
round-IsRead fuel n k block again enough (arrives b bs ∷ rest) =
    subst
      (λ start.
        IsRead n start (recv_loop fuel n (block ++ b ∷ take k bs) (put_back (drop k bs) rest)))
      (read_segment k b bs block rest)
      (again (block ++ b ∷ take k bs) (put_back (drop k bs) rest)
        (omega (arith, enough, length-append block (b ∷ take k bs))))
round-IsRead fuel n k block again enough (times_out ∷ rest) = (refl, omega arith)
round-IsRead fuel n k block again enough (resets ∷ rest) = (refl, omega arith)
round-IsRead fuel n k block again enough (fails ∷ rest) = (refl, omega arith)

recv_loop-IsRead :
    (fuel n : ℕ) (block : Bytes) (incoming : Incoming)
    → n ≤ length block + fuel
    → IsRead n (bytes_left incoming + length block) (recv_loop fuel n block incoming)
unfolding recv_loop
recv_loop-IsRead zero n block incoming enough =
    let full : ltb (length block) n ≡ false = ground (arith, enough) in
    rw full (omega (arith, enough), omega arith)
recv_loop-IsRead (suc fuel) n block incoming enough = elim (Bool-cases (ltb (length block) n)) [
  | inr full ↦ rw full (ground (arith, full), omega arith)
  | inl short ↦
      let some_more : n - length block ≡ suc (n - length block - 1) =
        omega (arith, ltb→lt (length block) n short) in
      rw (short, some_more)
        (round-IsRead fuel n (n - length block - 1) block (recv_loop-IsRead fuel n) enough incoming)
]

pub recv_all-IsRead :
    (n : ℕ) (incoming : Incoming) → IsRead n (bytes_left incoming) (recv_all n incoming)
unfolding recv_all
recv_all-IsRead n incoming =
    subst (λ start. IsRead n start (recv_loop n n [] incoming)) (omega arith)
      (recv_loop-IsRead n n [] incoming (omega arith))
