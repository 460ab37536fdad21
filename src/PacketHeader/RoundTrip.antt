-- ===== src/PacketHeader/RoundTrip.antt =====
-- Packing and unpacking are inverse to each other; what the text of a header shows.
use public_trash.Base.{
  ℕ, zero, suc, ◌+◌, ◌*◌, ◌/◌, ◌%◌, ◌^◌, ◌<◌, ◌≡◌, refl, ap, ◌∙◌, List, [], ◌∷◌, replicate, bit_and,
  bit_or, Result, ok, raise, value_error, arith,
}
use public_trash.Base.Bits.{bit_and-ones, bit_and-field, bit_or-fields}
use public_trash.Base.Words.{IsU32, big, little, word_bytes, pack_word-ok, unpack_word, byte_of}
use public_trash.PacketHeader.{
  PacketHeader, msg_type_mask, msg_source_mask, counter_mask, length_mask, join_fields, pack,
  unpack, new_header, lstrip_0x, from_hex, repr,
}

-- Every field fits its bits.
abbrev pub Fits : PacketHeader → Type 0
Fits p = (p.msg_type < 16) × (p.msg_source < 16) × (p.counter < 256) × (p.length < 65536)

abbrev pub word_of : PacketHeader → ℕ
word_of p = p.length * 65536 + p.counter * 256 + p.msg_source * 16 + p.msg_type

-- The bytes of a word in the other order.
abbrev pub swap : ℕ → ℕ
swap w = ((byte_of w 0 * 256 + byte_of w 1) * 256 + byte_of w 2) * 256 + byte_of w 3

swap-swap : (w : ℕ) → IsU32 w → swap (swap w) ≡ w
swap-swap w h = omega arith

swap-IsU32 : (w : ℕ) → IsU32 (swap w)
swap-IsU32 w = omega arith

join_fields-sum : (p : PacketHeader) → Fits p → join_fields p ≡ word_of p
join_fields-sum p f =
    let a : bit_or (p.length * 2 ^ 16) (p.counter * 2 ^ 8) ≡ (p.length * 256 + p.counter) * 2 ^ 8 =
      bit_or-fields 16 p.length (p.counter * 2 ^ 8) (omega (arith, f)) ∙ omega arith in
    let b : bit_or ((p.length * 256 + p.counter) * 2 ^ 8) (p.msg_source * 2 ^ 4)
        ≡ (p.length * 4096 + p.counter * 16 + p.msg_source) * 2 ^ 4 =
      bit_or-fields 8 (p.length * 256 + p.counter) (p.msg_source * 2 ^ 4) (omega (arith, f))
      ∙ omega arith in
    rw (a, b)
      (bit_or-fields 4 (p.length * 4096 + p.counter * 16 + p.msg_source) p.msg_type
          (omega (arith, f))
        ∙ omega arith)

word_of-IsU32 : (p : PacketHeader) → Fits p → IsU32 (word_of p)
word_of-IsU32 p f = omega (arith, f)

swap_little : (w : ℕ) → unpack_word little (word_bytes big w) ≡ ok (swap w)
unfolding unpack_word
swap_little w = refl

swap_big : (w : ℕ) → unpack_word big (word_bytes little w) ≡ ok (swap w)
unfolding unpack_word
swap_big w = refl

pack-ok : (p : PacketHeader) → Fits p → pack p ≡ ok (record p { packed = swap (word_of p) })
unfolding pack
pack-ok p f =
    rw
      (
        join_fields-sum p f,
        pack_word-ok big (word_of p) (word_of-IsU32 p f),
        swap_little (word_of p),
      )
      refl

-- The fields of a word, by arithmetic.
abbrev pub fields_of : ℕ → ℕ → PacketHeader
fields_of w packed = record {
  msg_type = w % 16;
  msg_source = w / 16 % 16;
  counter = w / 256 % 256;
  length = w / 65536 % 65536;
  packed = packed;
}

-- The masks cut out these fields.
masked_fields :
    (w packed : ℕ)
    → IsU32 w
    → Path PacketHeader
        record {
          msg_type = bit_and w msg_type_mask;
          msg_source = bit_and w msg_source_mask / 2 ^ 4;
          counter = bit_and w counter_mask / 2 ^ 8;
          length = bit_and w length_mask / 2 ^ 16;
          packed = packed;
        }
        (fields_of w packed)
masked_fields w packed h =
    rw (bit_and-ones 4 w, bit_and-field 4 4 w, bit_and-field 8 8 w, bit_and-field 16 16 w)
      (ground arith)

unpack-ok : (p : PacketHeader) → IsU32 p.packed → unpack p ≡ ok (fields_of (swap p.packed) p.packed)
unfolding unpack
unpack-ok p h =
    rw (pack_word-ok little p.packed h, swap_big p.packed)
      (ap ok (masked_fields (swap p.packed) p.packed (swap-IsU32 p.packed)))

zero_header : new_header 0 0 0 0 ≡ ok (fields_of 0 0)
unfolding new_header
zero_header = pack-ok (fields_of 0 0) ((omega arith, omega arith, omega arith, omega arith))

from_hex-ok :
    (int_16 : List ℕ → Result ℕ) (hex_string : List ℕ) (packed : ℕ)
    → int_16 (lstrip_0x hex_string) ≡ ok packed
    → IsU32 packed
    → from_hex int_16 hex_string ≡ ok (fields_of (swap packed) packed)
unfolding from_hex
from_hex-ok int_16 hex_string packed h fit =
    rw (h, zero_header) (unpack-ok (fields_of 0 packed) fit)

-- Where each field fits its bits, the header is made, and `from_hex` gives that header back from
-- every text that `int(_, 16)` reads, behind `lstrip`, as its packed word.
pub from_hex-new_header :
    (int_16 : List ℕ → Result ℕ) (p : PacketHeader)
    → Fits p
    → (h : PacketHeader) × (new_header p.msg_type p.msg_source p.counter p.length ≡ ok h)
      × ((hex_string : List ℕ)
          → int_16 (lstrip_0x hex_string) ≡ ok h.packed
          → from_hex int_16 hex_string ≡ ok h)
unfolding new_header
from_hex-new_header int_16 p f =
    let w = word_of p in
    let fit = word_of-IsU32 p f in
    let back : fields_of (swap (swap w)) (swap w) ≡ record p { packed = swap w } =
      rw (swap-swap w fit) (ground (arith, f)) in
    (
      record p { packed = swap w },
      pack-ok (record p { packed = 0 }) f,
      λ hex_string h. from_hex-ok int_16 hex_string (swap w) h (swap-IsU32 w) ∙ ap ok back,
    )

-- From a text that is read as a number of 32 bits `from_hex` makes a header, and a header with
-- its fields is packed to the same number.
new_header-from_hex :
    (int_16 : List ℕ → Result ℕ) (hex_string : List ℕ) (packed : ℕ)
    → int_16 (lstrip_0x hex_string) ≡ ok packed
    → IsU32 packed
    → (q : PacketHeader) × (from_hex int_16 hex_string ≡ ok q)
      × (new_header q.msg_type q.msg_source q.counter q.length ≡ ok q)
      × (q.packed ≡ packed)
unfolding new_header
new_header-from_hex int_16 hex_string packed h fit =
    let w = swap packed in
    let q = fields_of w packed in
    let f : Fits q = (omega arith, omega arith, omega arith, omega arith) in
    let same : word_of q ≡ w = omega (arith, swap-IsU32 packed) in
    (
      q,
      from_hex-ok int_16 hex_string packed h fit,
      pack-ok (record q { packed = 0 }) f
          ∙ ap (λ x. ok (record q { packed = x })) (ap swap same ∙ swap-swap packed fit),
      refl,
    )

zeros_stripped : (n : ℕ) → lstrip_0x (replicate n b'0') ≡ []
unfolding lstrip_0x
zeros_stripped zero = refl
zeros_stripped (suc n) = zeros_stripped n

-- Where `int(_, 16)` raises `ValueError` on the empty text, so does `from_hex` on `0x` with any
-- number of zeros.
from_hex-zeros :
    (int_16 : List ℕ → Result ℕ) (n : ℕ)
    → int_16 [] ≡ raise value_error
    → from_hex int_16 (b'0' ∷ b'x' ∷ replicate n b'0') ≡ raise value_error
unfolding from_hex lstrip_0x
from_hex-zeros int_16 n h = rw (zeros_stripped n, h) refl

-- Of a header whose fields fit and whose word is packed by `_pack`, `__repr__` shows as message
-- type and source the two halves of the high byte of the length, as counter its low byte, and as
-- length the other three fields.
repr-fields :
    (p : PacketHeader)
    → Fits p
    → p.packed ≡ swap (word_of p)
    → ((repr p).msg_type.1 ≡ p.length / 256 % 16)
      × ((repr p).msg_source.1 ≡ p.length / 256 / 16)
      × ((repr p).counter.1 ≡ p.length % 256)
      × ((repr p).length.1 ≡ (p.msg_source * 16 + p.msg_type) * 256 + p.counter)
unfolding repr
repr-fields p f h =
    rw
      (
        h,
        bit_and-ones 4 (swap (word_of p)),
        bit_and-field 4 4 (swap (word_of p)),
        bit_and-field 8 8 (swap (word_of p)),
        bit_and-field 16 16 (swap (word_of p)),
      )
      (omega (arith, f), omega (arith, f), omega (arith, f), omega (arith, f))
