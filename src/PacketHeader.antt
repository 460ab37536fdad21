-- ===== src/PacketHeader.antt =====
-- OLD/packet_header.py: the class `PacketHeader`, which no range is checked for. `int(_, 16)` is a
-- parameter of `from_hex`; it gives a number that is not negative.
pub mod RoundTrip
use public_trash.Base.{
  ℕ, ◌+◌, ◌*◌, ◌/◌, ◌%◌, ◌^◌, Bool, true, false, ◌||◌, ◌==◌, if◌then◌else◌, List, [], ◌∷◌, bit_and,
  bit_or, Result, ok, raise, ◌>>=◌,
}
use public_trash.Base.Words.{big, little, pack_word, unpack_word}

pub record PacketHeader : Type 0 where
  pub msg_type : ℕ
  pub msg_source : ℕ
  pub counter : ℕ
  pub length : ℕ
  pub packed : ℕ

abbrev pub msg_type_mask : ℕ
msg_type_mask = 0x0000000F

abbrev pub msg_source_mask : ℕ
msg_source_mask = 0x000000F0

abbrev pub counter_mask : ℕ
counter_mask = 0x0000FF00

abbrev pub length_mask : ℕ
length_mask = 0xFFFF0000

abbrev pub join_fields : PacketHeader → ℕ
join_fields p =
    bit_or (bit_or (bit_or (p.length * 2 ^ 16) (p.counter * 2 ^ 8)) (p.msg_source * 2 ^ 4))
      p.msg_type

-- `_pack`: `struct.pack` raises when a field makes the number too large.
unfoldable pub pack : PacketHeader → Result PacketHeader
pack p = do
  bytes ← pack_word big (join_fields p)
  word ← unpack_word little bytes
  ok (record p { packed = word })

-- `_unpack`, which leaves `packed` as it is.
unfoldable pub unpack : PacketHeader → Result PacketHeader
unpack p = do
  bytes ← pack_word little p.packed
  unpacked ← unpack_word big bytes
  ok (record {
    msg_type = bit_and unpacked msg_type_mask;
    msg_source = bit_and unpacked msg_source_mask / 2 ^ 4;
    counter = bit_and unpacked counter_mask / 2 ^ 8;
    length = bit_and unpacked length_mask / 2 ^ 16;
    packed = p.packed;
  })

-- `__init__`: the fields, then `_pack`.
unfoldable pub new_header : ℕ → ℕ → ℕ → ℕ → Result PacketHeader
unfolding pack
new_header msg_type msg_source counter length = pack (record {
  msg_type = msg_type;
  msg_source = msg_source;
  counter = counter;
  length = length;
  packed = 0;
})

-- `str.lstrip("0x")` drops every leading character that is `0` or `x`.
unfoldable pub lstrip_0x : List ℕ → List ℕ
lstrip_0x [] = []
lstrip_0x (c ∷ cs) = if (c == b'0') || (c == b'x') then lstrip_0x cs else c ∷ cs

-- `from_hex`, with `int(_, 16)`.
unfoldable pub from_hex : (List ℕ → Result ℕ) → List ℕ → Result PacketHeader
unfolding lstrip_0x new_header unpack
from_hex int_16 hex_string = do
  packed_value ← int_16 (lstrip_0x hex_string)
  packet ← new_header 0 0 0 0
  unpack (record packet { packed = packed_value })

-- `mask_info`: the masked value and the value shown for the field.
abbrev pub mask_info : PacketHeader → ℕ → ℕ → ℕ × ℕ
mask_info p mask shift = (bit_and p.packed mask, bit_and p.packed mask / 2 ^ shift)

-- The numbers that `__repr__` shows.
pub record Shown : Type 0 where
  pub whole : ℕ
  pub msg_type : ℕ × ℕ
  pub msg_source : ℕ × ℕ
  pub counter : ℕ × ℕ
  pub length : ℕ × ℕ

unfoldable pub repr : PacketHeader → Shown
repr p = record {
  whole = p.packed;
  msg_type = mask_info p msg_type_mask 0;
  msg_source = mask_info p msg_source_mask 4;
  counter = mask_info p counter_mask 8;
  length = mask_info p length_mask 16;
}
