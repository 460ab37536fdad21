-- ===== src/Command/Socket/Laws.antt =====
-- `recv_all` reads exactly the next bytes of the connection, however they are segmented.
use public_trash.Base.{
  ℕ, zero, suc, ◌+◌, ◌-◌, ◌≤◌, ◌<◌, ◌≡◌, refl, sym, ap, ◌∙◌, Bool-cases, inl, inr, ltb, tests,
  ltb-false, ltb→lt, [], ◌∷◌, ◌++◌, length, take, drop, length-append, length-take, take-append,
  drop-append, take-append-drop, append_assoc, append-nil, connection_error, Result, ok, raise,
  arith,
}
use public_trash.Base.Words.{Bytes}
use public_trash.Command.Socket.{arrives, Incoming, put_back, recv_loop, recv_all}

-- The bytes of the segments before the first that is none.
abbrev pub bytes_of : Incoming → Bytes
bytes_of [] = []
bytes_of (arrives b bs ∷ rest) = b ∷ bs ++ bytes_of rest
bytes_of (_ ∷ rest) = []

-- There is no timeout and no error: the peer sends and closes.
pub data IsPlain : Incoming → Type 0 where
  closed : IsPlain []
  segment : {rest : Incoming} (b : ℕ) (bs : Bytes) → IsPlain rest → IsPlain (arrives b bs ∷ rest)

bytes_of-put_back :
    (bs : Bytes) (rest : Incoming) → bytes_of (put_back bs rest) ≡ bs ++ bytes_of rest
bytes_of-put_back [] rest = refl
bytes_of-put_back (b ∷ bs) rest = refl

put_back-IsPlain : (bs : Bytes) {rest : Incoming} → IsPlain rest → IsPlain (put_back bs rest)
put_back-IsPlain [] p = p
put_back-IsPlain (b ∷ bs) p = segment b bs p

-- What a read of `n` bytes does on a plain connection.
pub data Reads (n : ℕ) (block : Bytes) (incoming : Incoming) (out : Result Bytes × Incoming)
    : Type 0 where
  full :
      (got : Bytes) (rest : Incoming)
      → out ≡ (ok (block ++ got), rest)
      → length (block ++ got) ≡ n
      → bytes_of incoming ≡ got ++ bytes_of rest
      → IsPlain rest
      → Reads n block incoming out
  short :
      (rest : Incoming)
      → out ≡ (raise connection_error, rest)
      → length block + length (bytes_of incoming) < n
      → Reads n block incoming out

-- A first piece `x` of the front segment, then a read of what is left.
Reads-cons :
    (n : ℕ) (block x y : Bytes) (b : ℕ) (bs : Bytes) (rest : Incoming)
    (out : Result Bytes × Incoming)
    → x ++ y ≡ b ∷ bs
    → Reads n (block ++ x) (put_back y rest) out
    → Reads n block (arrives b bs ∷ rest) out
Reads-cons n block x y b bs rest out whole (full got left run size same p) =
    full (x ++ got) left (rw (← append_assoc block x got) run)
      (rw (← append_assoc block x got) size)
      (ap (λ s. s ++ bytes_of rest) (sym whole)
        ∙ append_assoc x y (bytes_of rest)
        ∙ ap (◌++◌ x) (sym (bytes_of-put_back y rest) ∙ same)
        ∙ sym (append_assoc x got (bytes_of left)))
      p
Reads-cons n block x y b bs rest out whole (short left run size) = short left run (
    omega (
      arith,
      size,
      length-append block x,
      ap length (bytes_of-put_back y rest),
      length-append y (bytes_of rest),
      ap length whole,
      length-append x y,
      length-append bs (bytes_of rest),
    ))

-- The loop ends at once with enough bytes.
read_enough :
    (fuel n : ℕ) (block : Bytes) (incoming : Incoming)
    → length block ≡ n
    → recv_loop fuel n block incoming ≡ (ok block, incoming)
unfolding recv_loop
read_enough zero n block incoming h = rw (ltb-false (length block) n (omega arith))
read_enough (suc fuel) n block incoming h = rw (ltb-false (length block) n (omega arith))

full_now :
    (fuel n : ℕ) (block : Bytes) {incoming : Incoming}
    → IsPlain incoming
    → length block ≡ n
    → Reads n block incoming (recv_loop fuel n block incoming)
full_now fuel n block {incoming} p h =
    full [] incoming (read_enough fuel n block incoming h ∙ rw (append-nil block))
      (rw (append-nil block) h) refl p

recv_loop-Reads :
    (fuel n : ℕ) (block : Bytes) {incoming : Incoming}
    → IsPlain incoming
    → length block ≤ n
    → n ≤ length block + fuel
    → Reads n block incoming (recv_loop fuel n block incoming)
unfolding recv_loop
recv_loop-Reads zero n block p le fuelled = full_now zero n block p (omega arith)
recv_loop-Reads (suc fuel) n block closed le fuelled = elim (Bool-cases (ltb (length block) n)) [
  | inr all ↦ full_now (suc fuel) n block closed (ground arith)
  | inl more ↦ short [] (rw more refl) (ground arith)
]
recv_loop-Reads (suc fuel) n block (segment {rest} b bs q) le fuelled =
    elim (Bool-cases (ltb (length block) n)) [
      | inr all ↦ full_now (suc fuel) n block (segment b bs q) (ground arith)
      | inl more ↦
          let k = n - length block - 1 in
          let one : n - length block ≡ suc k = omega (tests, ltb→lt (length block) n more) in
          rw (more, one)
            (Reads-cons n block (b ∷ take k bs) (drop k bs) b bs rest _
              (ap (◌∷◌ b) (take-append-drop k bs))
              (recv_loop-Reads fuel n (block ++ b ∷ take k bs) (put_back-IsPlain (drop k bs) q)
                (omega (arith, length-append block (b ∷ take k bs), length-take k bs))
                (omega (arith, length-append block (b ∷ take k bs), one))))
    ]

-- On a connection with no timeout and no error `recv_all(n)` returns the next `n` bytes, however
-- they are segmented, and leaves the others, or raises `ConnectionError` if there are fewer.
pub recv_all-Reads :
    (n : ℕ) {incoming : Incoming} → IsPlain incoming → Reads n [] incoming (recv_all n incoming)
unfolding recv_all
recv_all-Reads n p = recv_loop-Reads n n [] p (omega arith) (omega arith)

exact_of_Reads :
    (n : ℕ) (x tail : Bytes) (incoming : Incoming) (out : Result Bytes × Incoming)
    → bytes_of incoming ≡ x ++ tail
    → length x ≡ n
    → Reads n [] incoming out
    → (rest : Incoming) × (out ≡ (ok x, rest)) × IsPlain rest × (bytes_of rest ≡ tail)
exact_of_Reads n x tail incoming out eq size (full got rest run total same p) =
    let both : got ++ bytes_of rest ≡ x ++ tail = sym same ∙ eq in
    let lengths : length got ≡ length x = total ∙ sym size in
    let first : got ≡ x =
      sym (take-append got (bytes_of rest) (length got) refl)
      ∙ ap (take (length got)) both
      ∙ take-append x tail (length got) lengths in
    (
      rest,
      run ∙ ap (λ g. (ok g, rest)) first,
      p,
      sym (drop-append got (bytes_of rest) (length got) refl)
          ∙ ap (drop (length got)) both
          ∙ drop-append x tail (length got) lengths,
    )
exact_of_Reads n x tail incoming out eq size (short rest run few) =
    absurd (omega (arith, few, ap length eq, length-append x tail, size))

-- A read of exactly the bytes `x` in front.
pub recv_all_exact :
    (n : ℕ) (x tail : Bytes) {incoming : Incoming}
    → IsPlain incoming
    → bytes_of incoming ≡ x ++ tail
    → length x ≡ n
    → (rest : Incoming) × (recv_all n incoming ≡ (ok x, rest))
      × IsPlain rest
      × (bytes_of rest ≡ tail)
recv_all_exact n x tail {incoming} p eq size =
    exact_of_Reads n x tail incoming (recv_all n incoming) eq size (recv_all-Reads n p)
