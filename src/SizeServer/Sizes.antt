-- ===== src/SizeServer/Sizes.antt =====
-- The sizes and the bytes of the blocks that the server sends.
use public_trash.Base.{
  ℕ, zero, suc, ◌+◌, ◌*◌, ◌%◌, ◌^◌, ◌≤◌, ◌<◌, ◌≡◌, refl, ap, ◌∙◌, List, ◌++◌, replicate, length,
  get_elem?, some, arith,
}
use public_trash.Base.Words.{Bytes}
use public_trash.SizeServer.{cycle, generate_data, next_size, Round, sent, sender_from, sender}

length-cycle : (first count : ℕ) → length (cycle first count) ≡ count
length-cycle first zero = refl
length-cycle first (suc count) = ap suc (length-cycle (first + 1) count)

cycle-get :
    (first count j : ℕ) → j < count → get_elem? (cycle first count) j ≡ some ((first + j) % 256)
cycle-get first zero j h = absurd (omega arith)
cycle-get first (suc count) zero h = ap (λ n. some (n % 256)) (omega arith)
cycle-get first (suc count) (suc j) h =
    cycle-get (first + 1) count j (omega arith) ∙ ap (λ n. some (n % 256)) (omega arith)

-- The size of a round by its number.
abbrev pub size_of : ℕ → ℕ
size_of k = 10 * 2 ^ (k % 10)

-- One round, by the place of its number in the cycle of ten.
next_at :
    (r : ℕ) → r < 10 → (next_size (10 * 2 ^ r) ≡ 10 * 2 ^ ((r + 1) % 10)) × (10 * 2 ^ r ≤ 5120)
unfolding next_size
next_at zero h = (refl, omega arith)
next_at (suc zero) h = (refl, omega arith)
next_at (suc (suc zero)) h = (refl, omega arith)
next_at (suc (suc (suc zero))) h = (refl, omega arith)
next_at (suc (suc (suc (suc zero)))) h = (refl, omega arith)
next_at (suc (suc (suc (suc (suc zero))))) h = (refl, omega arith)
next_at (suc (suc (suc (suc (suc (suc zero)))))) h = (refl, omega arith)
next_at (suc (suc (suc (suc (suc (suc (suc zero))))))) h = (refl, omega arith)
next_at (suc (suc (suc (suc (suc (suc (suc (suc zero)))))))) h = (refl, omega arith)
next_at (suc (suc (suc (suc (suc (suc (suc (suc (suc zero))))))))) h = (refl, omega arith)
next_at (suc (suc (suc (suc (suc (suc (suc (suc (suc (suc r)))))))))) h = absurd (omega arith)

pub next_size-size_of : (k : ℕ) → next_size (size_of k) ≡ size_of (k + 1)
next_size-size_of k = (next_at (k % 10) (omega arith)).0 ∙ ap (λ r. 10 * 2 ^ r) (omega arith)

sender_from-block :
    (k m : ℕ) (rest : List Round)
    → get_elem? (sender_from (size_of m) (replicate (suc k) sent ++ rest)).0 k
      ≡ some (generate_data (size_of (m + k)))
unfolding sender_from
sender_from-block zero m rest = ap (λ n. some (generate_data (size_of n))) (omega arith)
sender_from-block (suc k) m rest =
    ap (λ size. get_elem? (sender_from size (replicate (suc k) sent ++ rest)).0 k)
      (next_size-size_of m)
    ∙ sender_from-block k (m + 1) rest
    ∙ ap (λ n. some (generate_data (size_of n))) (omega arith)

-- When all sends up to round `k` succeed, the block of that round, counted from 0, has 10 times 2
-- to the power `k % 10` bytes, 5120 at most, and its byte `j` is `(j + 1) % 256`.
pub sender-block :
    (k j : ℕ) (rest : List Round)
    → j < size_of k
    → (block : Bytes) × (get_elem? (sender (replicate (suc k) sent ++ rest)).0 k ≡ some block)
      × (length block ≡ size_of k)
      × (length block ≤ 5120)
      × (get_elem? block j ≡ some ((j + 1) % 256))
unfolding sender generate_data
sender-block k j rest h =
    let size : length (cycle 1 (size_of k)) ≡ size_of k = length-cycle 1 (size_of k) in
    (
      cycle 1 (size_of k),
      sender_from-block k 0 rest ∙ ap (λ n. some (generate_data (size_of n))) (omega arith),
      size,
      omega (arith, size, (next_at (k % 10) (omega arith)).1),
      cycle-get 1 (size_of k) j h ∙ ap (λ n. some (n % 256)) (omega arith),
    )
