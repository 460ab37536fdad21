-- ===== src/Base/Words.antt =====
-- `struct.pack` and `struct.unpack` of the format character `I`, in both byte orders: a 32-bit
-- unsigned integer as four bytes, most significant first for `>` and `!`, last for `<`.
use Prim.Native.Nat.{ℕ, ◌+◌, ◌*◌, ◌/◌, ◌%◌, ◌^◌, ◌<◌}
use mathlib.Core.Path.{◌≡◌, refl, ap}
use mathlib.Core.List.{List, [], ◌∷◌, ◌++◌}
use native.Mathlib.Omega.{arith}
use public_trash.Base.Tests.{ltb, if◌then◌else◌, lt→ltb}
use public_trash.Base.Lists.{length, length-append, All}
use public_trash.Base.Results.{struct_error, Result, ok, raise, ◌>>=◌}

abbrev pub Bytes : Type 0
Bytes = List ℕ

abbrev pub IsByte : ℕ → Type 0
IsByte b = b < 256

abbrev pub IsU32 : ℕ → Type 0
IsU32 w = w < 2 ^ 32

pub data Endian : Type 0 where
  big little : Endian

abbrev pub byte_of : ℕ → ℕ → ℕ
byte_of w k = w / 256 ^ k % 256

abbrev pub word_bytes : Endian → ℕ → Bytes
word_bytes big w = byte_of w 3 ∷ byte_of w 2 ∷ byte_of w 1 ∷ byte_of w 0 ∷ []
word_bytes little w = byte_of w 0 ∷ byte_of w 1 ∷ byte_of w 2 ∷ byte_of w 3 ∷ []

-- `struct.pack(endian + "I", w)` raises on a number that does not fit.
unfoldable pub pack_word : Endian → ℕ → Result Bytes
pack_word e w = if ltb w (2 ^ 32) then ok (word_bytes e w) else raise struct_error

-- `struct.pack(endian + "I" * len(ws), *ws)`.
unfoldable pub pack_words : Endian → List ℕ → Result Bytes
pack_words e [] = ok []
pack_words e (w ∷ ws) = do b ← pack_word e w; bs ← pack_words e ws; ok (b ++ bs)

-- `struct.unpack(endian + "I", bs)`, which wants exactly four bytes.
unfoldable pub unpack_word : Endian → Bytes → Result ℕ
unpack_word big (a ∷ b ∷ c ∷ d ∷ []) = ok (((a * 256 + b) * 256 + c) * 256 + d)
unpack_word little (a ∷ b ∷ c ∷ d ∷ []) = ok (((d * 256 + c) * 256 + b) * 256 + a)
unpack_word _ _ = raise struct_error

-- All words of a list, one after the other.
abbrev pub words_bytes : Endian → List ℕ → Bytes
words_bytes e [] = []
words_bytes e (w ∷ ws) = word_bytes e w ++ words_bytes e ws

pub length-word_bytes : (e : Endian) (w : ℕ) → length (word_bytes e w) ≡ 4
length-word_bytes big w = refl
length-word_bytes little w = refl

pub length-words_bytes : (e : Endian) (ws : List ℕ) → length (words_bytes e ws) ≡ 4 * length ws
length-words_bytes e [] = refl
length-words_bytes e (w ∷ ws) = omega (
  arith,
  length-append (word_bytes e w) (words_bytes e ws),
  length-word_bytes e w,
  length-words_bytes e ws,
)

pub pack_word-ok : (e : Endian) (w : ℕ) → IsU32 w → pack_word e w ≡ ok (word_bytes e w)
unfolding pack_word
pack_word-ok e w h = rw (lt→ltb w (2 ^ 32) h)

pub pack_words-ok :
    (e : Endian) (ws : List ℕ) → All IsU32 ws → pack_words e ws ≡ ok (words_bytes e ws)
unfolding pack_words
pack_words-ok e [] h = refl
pack_words-ok e (w ∷ ws) h = rw (pack_word-ok e w h.0, pack_words-ok e ws h.1)

pub unpack_word-word_bytes : (e : Endian) (w : ℕ) → IsU32 w → unpack_word e (word_bytes e w) ≡ ok w
unfolding unpack_word
unpack_word-word_bytes big w h = ap ok (omega arith)
unpack_word-word_bytes little w h = ap ok (omega arith)

-- Four bytes are a word, whatever they hold.
pub unpack_word_total :
    (e : Endian) (bs : Bytes) → length bs ≡ 4 → (w : ℕ) × (unpack_word e bs ≡ ok w)
unfolding unpack_word
unpack_word_total big (a ∷ b ∷ c ∷ d ∷ []) h = (_, refl)
unpack_word_total little (a ∷ b ∷ c ∷ d ∷ []) h = (_, refl)
unpack_word_total _ _ h = absurd (omega arith)
