-- ===== src/Examples/Headers.antt =====
-- Packet headers and shared memory at concrete inputs.
use public_trash.Base.{
  ℕ, ◌+◌, ◌-◌, ◌*◌, ◌≡◌, refl, true, false, if◌then◌else◌, ltb, List, [], ◌∷◌, replicate, Result,
  ok, raise, value_error, arith,
}
use public_trash.PacketHeader.{PacketHeader, new_header, lstrip_0x, from_hex}
use public_trash.PacketHeader.RoundTrip.{from_hex-new_header}
use public_trash.SharedMemory.{Windows, Held, finish, get_section_size, open_shared_memory}
use public_trash.SharedMemory.Session.{Args, waiting, write_front, main}

-- The value of upper-case hex digits; other texts are refused.
abbrev hex_digit : ℕ → ℕ
hex_digit c = if ltb c b'A' then c - b'0' else (c + 10 - b'A')

abbrev value_from : ℕ → List ℕ → ℕ
value_from n [] = n
value_from n (c ∷ cs) = value_from (n * 16 + hex_digit c) cs

abbrev read_hex : List ℕ → Result ℕ
read_hex [] = raise value_error
read_hex (c ∷ cs) = ok (value_from 0 (c ∷ cs))

-- The header that the script prints.
abbrev header : PacketHeader
header = record { msg_type = 0; msg_source = 6; counter = 181; length = 52; packed = 0x60B53400 }

from_hex-new_header_example :
    (h : PacketHeader) × (new_header 0 6 181 52 ≡ ok h)
    × ((hex_string : List ℕ)
        → read_hex (lstrip_0x hex_string) ≡ ok h.packed
        → from_hex read_hex hex_string ≡ ok h)
from_hex-new_header_example = from_hex-new_header read_hex header (omega arith)

-- "0x4EB510".
abbrev some_hex : List ℕ
some_hex = b'0' ∷ b'x' ∷ b'4' ∷ b'E' ∷ b'B' ∷ b'5' ∷ b'1' ∷ b'0' ∷ []

read_some_hex : read_hex (lstrip_0x some_hex) ≡ ok 0x4EB510
unfolding lstrip_0x
read_some_hex = refl

-- A memory of eight bytes that can be opened, where a handle is open already, and a write.
abbrev friendly : Windows
friendly = record {
  open_file_mapping = λ access. 8;
  nt_query_section = λ handle. (0, 8);
  map_view = λ made handle_access handle access size. 16 + made;
  virtual_query = λ view. (0, 0);
  mmap = λ size read_only. true;
}

abbrev one_held : Held
one_held = record { handles = 3 ∷ []; views = []; made = 0 }

abbrev writing : Args
writing = record { read_only = false; write_data = true; message = 72 ∷ 105 ∷ [] }

written_memory :
    (main friendly writing waiting (replicate 8 0) one_held).memory ≡ 72 ∷ 105 ∷ replicate 6 0
unfolding main open_shared_memory write_front finish get_section_size
written_memory = refl
