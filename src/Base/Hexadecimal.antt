-- ===== src/Base/Hexadecimal.antt =====
-- Hexadecimal numerals, as format specifications write them.
use Prim.Native.Nat.{ℕ, zero, suc, ◌+◌, ◌-◌, ◌/◌, ◌%◌}
use mathlib.Core.List.{List, [], ◌∷◌, ◌++◌}
use public_trash.Base.Tests.{ltb, if◌then◌else◌}
use public_trash.Base.Texts.{Text}

-- `f"{n:X}"`, on fuel, since it recurs on a sixteenth; a number has at most as many digits as its
-- value plus one.
abbrev pub upper_digit : ℕ → ℕ
upper_digit v = if ltb v 10 then b'0' + v else b'A' + (v - 10)

unfoldable pub hex_from : (ℕ → ℕ) → ℕ → ℕ → Text
hex_from digit zero n = []
hex_from digit (suc fuel) n =
    let more = hex_from digit fuel (n / 16) ++ (digit (n % 16) ∷ []) in
    if ltb n 16 then digit n ∷ [] else more

unfoldable pub upper_hex : ℕ → Text
unfolding hex_from
upper_hex n = hex_from upper_digit (suc n) n

-- `f"{n:x}"`.
abbrev pub lower_digit : ℕ → ℕ
lower_digit v = if ltb v 10 then b'0' + v else b'a' + (v - 10)

unfoldable pub lower_hex : ℕ → Text
unfolding hex_from
lower_hex n = hex_from lower_digit (suc n) n

-- `data.hex()`.
unfoldable pub bytes_hex : List ℕ → Text
bytes_hex [] = []
bytes_hex (b ∷ bs) = lower_digit (b / 16) ∷ lower_digit (b % 16) ∷ bytes_hex bs

-- With this many digits, and zeros in front.
unfoldable pub hex_digits : ℕ → ℕ → Text
hex_digits zero n = []
hex_digits (suc width) n = hex_digits width (n / 16) ++ (upper_digit (n % 16) ∷ [])
