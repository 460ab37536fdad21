-- ===== src/Base/Decimal.antt =====
-- The decimal numeral of a number, as `f"{n}"` writes it, and its value.
use public_trash.Base.{
  ℕ, zero, suc, ◌+◌, ◌-◌, ◌*◌, ◌/◌, ◌%◌, ◌≤◌, ◌<◌, ◌≡◌, refl, sym, ap, ◌∙◌, Bool-cases, inl, inr,
  if◌then◌else◌, ltb, List, [], ◌∷◌, ◌++◌, length, length-append, All, All-append, arith,
}

-- On fuel, since it recurs on a tenth; a number has fewer digits than its value plus one.
unfoldable pub digits_of : ℕ → ℕ → List ℕ
digits_of zero n = []
digits_of (suc fuel) n =
    let more = digits_of fuel (n / 10) ++ ((b'0' + n % 10) ∷ []) in
    if ltb n 10 then (b'0' + n) ∷ [] else more

unfoldable pub decimal : ℕ → List ℕ
unfolding digits_of
decimal n = digits_of (suc n) n

value_from : ℕ → List ℕ → ℕ
value_from acc [] = acc
value_from acc (c ∷ cs) = value_from (acc * 10 + (c - b'0')) cs

value_from-concat :
    (acc : ℕ) (cs : List ℕ) (c : ℕ)
    → value_from acc (cs ++ c ∷ []) ≡ value_from acc cs * 10 + (c - b'0')
unfolding value_from
value_from-concat acc [] c = refl
value_from-concat acc (d ∷ cs) c = value_from-concat (acc * 10 + (d - b'0')) cs c

value-digits_of : (fuel n : ℕ) → n < fuel → value_from 0 (digits_of fuel n) ≡ n
unfolding value_from digits_of
value-digits_of zero n h = absurd (omega arith)
value-digits_of (suc fuel) n h = elim (Bool-cases (ltb n 10)) [
  | inl one ↦ rw one (omega arith)
  | inr more ↦ rw more (
      value_from-concat 0 (digits_of fuel (n / 10)) (b'0' + n % 10)
      ∙ rw (value-digits_of fuel (n / 10) (ground arith)) (omega arith))
]

value-decimal : (n : ℕ) → value_from 0 (decimal n) ≡ n
unfolding decimal
value-decimal n = value-digits_of (suc n) n (omega arith)

-- Different numbers have different numerals.
pub decimal-injective : (m n : ℕ) → decimal m ≡ decimal n → m ≡ n
decimal-injective m n h = sym (value-decimal m) ∙ ap (value_from 0) h ∙ value-decimal n

abbrev pub IsDigit : ℕ → Type 0
IsDigit c = (b'0' ≤ c) × (c ≤ b'9')

digits_of-IsDigit : (fuel n : ℕ) → All IsDigit (digits_of fuel n)
unfolding digits_of
digits_of-IsDigit zero n = tt
digits_of-IsDigit (suc fuel) n = elim (Bool-cases (ltb n 10)) [
  | inl one ↦ rw one (ground arith)
  | inr more ↦ rw more (
      All-append IsDigit (digits_of fuel (n / 10)) ((b'0' + n % 10) ∷ [])
        (digits_of-IsDigit fuel (n / 10)) (omega arith))
]

pub decimal-IsDigit : (n : ℕ) → All IsDigit (decimal n)
unfolding decimal
decimal-IsDigit n = digits_of-IsDigit (suc n) n

-- A numeral has at least one digit.
digits_of-length : (fuel n : ℕ) → 0 < length (digits_of (suc fuel) n)
unfolding digits_of
digits_of-length fuel n =
    ground (arith, length-append (digits_of fuel (n / 10)) ((b'0' + n % 10) ∷ []))

pub decimal-length : (n : ℕ) → 0 < length (decimal n)
unfolding decimal
decimal-length n = digits_of-length n n

-- A numeral has fewer digits than its value plus two.
digits_of-length_le : (fuel n : ℕ) → length (digits_of fuel n) ≤ fuel
unfolding digits_of
digits_of-length_le zero n = omega arith
digits_of-length_le (suc fuel) n = elim (Bool-cases (ltb n 10)) [
  | inl one ↦ rw one (omega arith)
  | inr more ↦ rw more (
      omega (
        arith,
        length-append (digits_of fuel (n / 10)) ((b'0' + n % 10) ∷ []),
        digits_of-length_le fuel (n / 10),
      ))
]

pub decimal-length_le : (n : ℕ) → length (decimal n) ≤ n + 1
unfolding decimal
decimal-length_le n = omega (arith, digits_of-length_le (suc n) n)
