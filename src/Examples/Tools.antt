-- ===== src/Examples/Tools.antt =====
-- The hex connection tool and the box of the certificate report at concrete inputs.
use public_trash.Base.{
  ℕ, ◌≤◌, ◌*◌, ◌+◌, ◌≡◌, refl, ap, Bool, false, ◌&&◌, leb, List, [], ◌∷◌, get_elem?, some, ok,
  raise, value_error, arith,
}
use public_trash.Base.Texts.{codes, split, join_with}
use public_trash.HexTool.{hex_to_bytes, format_bytes_in_32bit_blocks}
use public_trash.HexTool.RoundTrip.{hex_to_bytes-format_bytes_in_32bit_blocks, hex_to_bytes_joined}
use public_trash.HexTool.Session.{Round, received, not_readable, session, main}
use public_trash.HexTool.Session.Paced.{three_messages, messages_lem, main-paced}
use public_trash.StringExpansion.{but_last, isdigit, process_string}
use public_trash.StringExpansion.Expands.{process_string-expands}
use public_trash.Certificates.Box.Wraps.{Fitting}
use public_trash.Certificates.Box.Widths.{IsEven, OneLine, draw_box-IsEven}

hex_to_bytes-format_bytes_in_32bit_blocks_example :
    hex_to_bytes (format_bytes_in_32bit_blocks (0xDE ∷ 0xAD ∷ 0xBE ∷ 0xEF ∷ 0x05 ∷ []))
    ≡ ok (0xDE ∷ 0xAD ∷ 0xBE ∷ 0xEF ∷ 0x05 ∷ [])
hex_to_bytes-format_bytes_in_32bit_blocks_example =
    hex_to_bytes-format_bytes_in_32bit_blocks (0xDE ∷ 0xAD ∷ 0xBE ∷ 0xEF ∷ 0x05 ∷ []) (omega arith)

-- "0xABCD0xDEFA", the text of the tool's description.
hex_to_bytes_joined_example : hex_to_bytes (codes "0xABCD0xDEFA") ≡ raise value_error
hex_to_bytes_joined_example =
    hex_to_bytes_joined 2 (codes "ABCD") b'D' (codes "EFA") (ground arith) refl refl

-- Four words in rows of ten characters.
draw_box-IsEven_example : IsEven 10 (codes "one two three four" ∷ codes "five" ∷ [])
draw_box-IsEven_example =
    draw_box-IsEven 10 (codes "one two three four") (codes "five" ∷ [])
      (unfold Fitting split in omega arith) (unfold OneLine in omega arith)

-- Three rounds: nothing at first, then a message that is due, and one late with bytes to read.
abbrev three_rounds : List Round
three_rounds =
    record { readable = not_readable; now = 12; send_raises = false }
    ∷ record { readable = not_readable; now = 15; send_raises = false }
    ∷ record { readable = received (1 ∷ 2 ∷ []); now = 23; send_raises = false }
    ∷ []

second_sent : get_elem? (main 5 10 (some three_rounds)).sent 1 ≡ some (23, codes "GOODDAY")
unfolding main session
second_sent = ap (λ ms. get_elem? (session 5 10 three_rounds ms).sent 1) messages_lem

main-paced_example : (get_elem? three_messages 1 ≡ some (codes "GOODDAY")) × (10 + 2 * 5 ≤ 23)
main-paced_example = main-paced 5 10 three_rounds 1 23 (codes "GOODDAY") second_sent

abbrev is_ascii_digit : ℕ → Bool
is_ascii_digit c = leb 48 c && leb c 57

process_string-expands_example :
    process_string is_ascii_digit (codes "dog_101_3_4")
    ≡ codes "dog_101" ∷ codes "dog_103" ∷ codes "dog_104" ∷ []
unfolding isdigit join_with but_last
process_string-expands_example =
    process_string-expands is_ascii_digit (codes "dog" ∷ []) (codes "101") (codes "3")
      (codes "4" ∷ []) refl refl (refl, (refl, (refl, tt))) (ground arith)
