-- ===== src/Base/Bits.antt =====
-- `&` with a run of ones and `|` of disjoint fields, as arithmetic, at every width.
use Prim.Native.Nat.{digits, bit_and-bitwise, bit_or-bitwise}
use Prim.Native.Nat.{ℕ, zero, suc, ◌+◌, ◌-◌, ◌*◌, ◌/◌, ◌%◌, ◌^◌, ◌≤◌, ◌<◌, min, max}
use Prim.Native.Nat.{bit_and, bit_or}
use mathlib.Core.Path.{◌≡◌, refl, ap, ◌∙◌, sym}
use mathlib.Core.Bool.{◌&&◌}
use native.Mathlib.Omega.{arith}
use public_trash.Base.Tests.{ltb, leb, if◌then◌else◌}
use native.Mathlib.Nat.{pow-suc, one-le-pow, div-div-eq-div-mul}

-- The digit recursion gives the same for any fuel that covers the first number.
fuel_irrelevant :
    (z : ℕ → ℕ) (f : ℕ → ℕ → ℕ) (a b fuel more : ℕ)
    → a ≤ more
    → a ≤ fuel
    → digits z f fuel a b ≡ digits z f more a b
fuel_irrelevant z f (suc a) b (suc fuel) (suc more) long enough =
    rw (fuel_irrelevant z f (suc a / 2) (b / 2) fuel more (omega arith) (omega arith))
fuel_irrelevant z f (suc a) b zero more long enough = absurd (omega arith)
fuel_irrelevant z f (suc a) b (suc fuel) zero long enough = absurd (omega arith)
fuel_irrelevant z f zero b (suc fuel) (suc more) long enough = refl
fuel_irrelevant z f zero b (suc fuel) zero long enough = refl
fuel_irrelevant z f zero b zero (suc more) long enough = refl
fuel_irrelevant z f zero b zero zero long enough = refl

pub bit_and_low : (a b : ℕ) → bit_and a b ≡ bit_and (a / 2) (b / 2) * 2 + min (a % 2) (b % 2)
bit_and_low zero b = omega (arith, bit_and-bitwise 0 b, bit_and-bitwise 0 (b / 2))
bit_and_low (suc a) b =
    let half : ℕ = suc a / 2 in
    omega (
      arith,
      bit_and-bitwise (suc a) b,
      bit_and-bitwise half (b / 2),
      fuel_irrelevant (λ _. 0) min half (b / 2) a half (omega arith) (omega arith),
    )

pub bit_or_low : (a b : ℕ) → bit_or a b ≡ bit_or (a / 2) (b / 2) * 2 + max (a % 2) (b % 2)
bit_or_low zero b = omega (arith, bit_or-bitwise 0 b, bit_or-bitwise 0 (b / 2))
bit_or_low (suc a) b =
    let half : ℕ = suc a / 2 in
    omega (
      arith,
      bit_or-bitwise (suc a) b,
      bit_or-bitwise half (b / 2),
      fuel_irrelevant (λ y. y) max half (b / 2) a half (omega arith) (omega arith),
    )

-- Induction on a bound of the number, since the digit laws go to its half.
and-zero_below : (n a : ℕ) → a ≤ n → bit_and a 0 ≡ 0
and-zero_below n zero h = refl
and-zero_below zero (suc a) h = absurd (omega arith)
and-zero_below (suc n) (suc a) h =
    omega (arith, bit_and_low (suc a) 0, and-zero_below n (suc a / 2) (omega arith))

pub bit_and-zero : (a : ℕ) → bit_and a 0 ≡ 0
bit_and-zero a = and-zero_below a a (omega arith)

or-zero_below : (n a : ℕ) → a ≤ n → bit_or a 0 ≡ a
or-zero_below n zero h = refl
or-zero_below zero (suc a) h = absurd (omega arith)
or-zero_below (suc n) (suc a) h =
    omega (arith, bit_or_low (suc a) 0, or-zero_below n (suc a / 2) (omega arith))

pub bit_or-zero : (a : ℕ) → bit_or a 0 ≡ a
bit_or-zero a = or-zero_below a a (omega arith)

double_pow : (q k : ℕ) → q * 2 ^ suc k ≡ q * 2 ^ k * 2
double_pow q k = omega (arith, ap (λ (t : ℕ). q * t) (pow-suc 2 k))

-- A number cut into the part above bit `k` and the part below it.
and_ones_parts : (k q r : ℕ) → r < 2 ^ k → bit_and (q * 2 ^ k + r) (2 ^ k - 1) ≡ r
and_ones_parts zero q r h = rw bit_and-zero (omega arith)
and_ones_parts (suc k) q r h =
    let mask : (2 ^ suc k - 1) / 2 ≡ 2 ^ k - 1 = omega (arith, pow-suc 2 k, one-le-pow k 2) in
    let odd : (2 ^ suc k - 1) % 2 ≡ 1 = omega (arith, pow-suc 2 k, one-le-pow k 2) in
    let half : (q * 2 ^ suc k + r) / 2 ≡ q * 2 ^ k + r / 2 = omega (arith, double_pow q k) in
    let bit : (q * 2 ^ suc k + r) % 2 ≡ r % 2 = omega (arith, double_pow q k) in
    let small : r / 2 < 2 ^ k = omega (arith, pow-suc 2 k) in
    bit_and_low (q * 2 ^ suc k + r) (2 ^ suc k - 1)
    ∙ rw (mask, odd, half, bit, and_ones_parts k q (r / 2) small) (omega arith)

-- `x & (2 ** k - 1)` keeps the low `k` bits.
pub bit_and-ones : (k a : ℕ) → bit_and a (2 ^ k - 1) ≡ a % 2 ^ k
bit_and-ones k a =
    let small : a % 2 ^ k < 2 ^ k = omega (arith, one-le-pow k 2) in
    let parts : a / 2 ^ k * 2 ^ k + a % 2 ^ k ≡ a = omega (arith, one-le-pow k 2) in
    ap (λ x. bit_and x (2 ^ k - 1)) (sym parts) ∙ and_ones_parts k (a / 2 ^ k) (a % 2 ^ k) small

div-pow-suc : (s a : ℕ) → a / 2 ^ suc s ≡ a / 2 / 2 ^ s
div-pow-suc s a =
    let doubled : 2 ^ suc s ≡ 2 * 2 ^ s = omega (arith, pow-suc 2 s) in
    ap (λ (d : ℕ). a / d) doubled ∙ sym (div-div-eq-div-mul a 2 (2 ^ s))

-- `x & ((2 ** k - 1) << s)` keeps `k` bits from bit `s` on, in place.
pub bit_and-field : (s k a : ℕ) → bit_and a ((2 ^ k - 1) * 2 ^ s) ≡ a / 2 ^ s % 2 ^ k * 2 ^ s
bit_and-field zero k a =
    let mask : (2 ^ k - 1) * 1 ≡ 2 ^ k - 1 = omega arith in
    let whole : a ≡ a / 1 = omega arith in
    let once : a / 1 % 2 ^ k ≡ a / 1 % 2 ^ k * 1 = omega arith in
    rw mask (bit_and-ones k a ∙ ap (λ x. x % 2 ^ k) whole ∙ once)
bit_and-field (suc s) k a =
    let low : (2 ^ k - 1) * 2 ^ suc s % 2 ≡ 0 = omega (arith, double_pow (2 ^ k - 1) s) in
    let half : (2 ^ k - 1) * 2 ^ suc s / 2 ≡ (2 ^ k - 1) * 2 ^ s =
      omega (arith, double_pow (2 ^ k - 1) s) in
    bit_and_low a ((2 ^ k - 1) * 2 ^ suc s)
    ∙ rw (low, half, bit_and-field s k (a / 2), div-pow-suc s a)
        (omega (arith, double_pow (a / 2 / 2 ^ s % 2 ^ k) s))

-- `(q << k) | r` is a sum where `r` fits `k` bits.
pub bit_or-fields : (k q r : ℕ) → r < 2 ^ k → bit_or (q * 2 ^ k) r ≡ q * 2 ^ k + r
bit_or-fields zero q r h =
    let none_left : r ≡ 0 = omega arith in rw none_left (bit_or-zero (q * 1) ∙ omega arith)
bit_or-fields (suc k) q r h =
    let half : q * 2 ^ suc k / 2 ≡ q * 2 ^ k = omega (arith, double_pow q k) in
    let low : q * 2 ^ suc k % 2 ≡ 0 = omega (arith, double_pow q k) in
    let small : r / 2 < 2 ^ k = omega (arith, pow-suc 2 k) in
    bit_or_low (q * 2 ^ suc k) r
    ∙ rw (half, low, bit_or-fields k q (r / 2) small) (omega (arith, double_pow q k))

-- Bit `k` of a number.
abbrev pub bit_of : ℕ → ℕ → ℕ
bit_of n k = n / 2 ^ k % 2

-- `((1 << w) - 1) << s` has the bits from `s` up to `s + w`, and no other.
zero_bits : (k : ℕ) → bit_of 0 k ≡ 0
zero_bits zero = refl
zero_bits (suc k) = rw (div-pow-suc k 0) (zero_bits k)

ones_bits : (w k : ℕ) → bit_of (2 ^ w - 1) k ≡ (if ltb k w then 1 else 0)
ones_bits zero k = zero_bits k ∙ ground arith
ones_bits (suc w) zero =
    let low : bit_of (2 ^ suc w - 1) 0 ≡ 1 = omega (arith, pow-suc 2 w, one-le-pow w 2) in
    ground (arith, low)
ones_bits (suc w) (suc k) =
    let half : (2 ^ suc w - 1) / 2 ≡ 2 ^ w - 1 = omega (arith, pow-suc 2 w) in
    rw (div-pow-suc k (2 ^ suc w - 1), half) (ones_bits w k ∙ ground arith)

pub bit_of-mask :
    (w s k : ℕ) → bit_of ((2 ^ w - 1) * 2 ^ s) k ≡ (if leb s k && ltb k (s + w) then 1 else 0)
bit_of-mask w zero k =
    let plain : (2 ^ w - 1) * 2 ^ 0 ≡ 2 ^ w - 1 = omega arith in
    ap (λ (n : ℕ). bit_of n k) plain ∙ ones_bits w k ∙ ground arith
bit_of-mask w (suc s) zero =
    let low : (2 ^ w - 1) * 2 ^ suc s % 2 ≡ 0 = omega (arith, double_pow (2 ^ w - 1) s) in
    ground (arith, low)
bit_of-mask w (suc s) (suc k) =
    let half : (2 ^ w - 1) * 2 ^ suc s / 2 ≡ (2 ^ w - 1) * 2 ^ s =
      omega (arith, double_pow (2 ^ w - 1) s) in
    rw (div-pow-suc k ((2 ^ w - 1) * 2 ^ suc s), half) (bit_of-mask w s k ∙ ground arith)
