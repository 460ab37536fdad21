-- ===== src/Examples/Command.antt =====
-- The command programs at concrete inputs: packets with a message of two letters, cut in two.
use public_trash.Base.{
  List, ℕ, ◌≡◌, ◌≢◌, refl, stuck, Bool, true, false, [], ◌∷◌, ◌++◌, join, ok, ap, append-nil, arith,
}
use public_trash.Base.Words.{Bytes}
use public_trash.Command.Client.{send_and_receive}
use public_trash.Command.Client.Run.{Position, commands_on, main}
use public_trash.Command.Client.Run.Accepted.{Accepts, script}
use public_trash.Command.Together.{serve-commands_on}
use public_trash.Command.Client.Acks.{send_and_receive-stale}
use public_trash.Base.Decimal.{decimal, digits_of}
use public_trash.Command.Packet.{Text, ack_message}
use public_trash.Command.Packet.RoundTrip.{packet_bytes, Fits}
use public_trash.Command.Server.{serve}
use public_trash.Command.Server.Replies.{Command, IsCommand, commands_bytes, replies}
use public_trash.Command.Server.Run.{
  accepted, interrupted, waiting, failed_with, main as server_main,
}
use public_trash.Command.Server.Run.Ends.{main-ends}
use public_trash.Command.Server.Run.Counted.{Visit, arrivals, main-replies}
use public_trash.Command.Socket.{Incoming, arrives, resets, fails}
use public_trash.Command.Socket.Laws.{IsPlain, closed, segment, bytes_of}

abbrev go_text : Text
go_text = b'g' ∷ b'o' ∷ []

-- A connection that brings these bytes behind a first one in two segments.
abbrev in_two : Bytes → Incoming
in_two [] = []
in_two (b ∷ []) = arrives b [] ∷ []
in_two (b ∷ c ∷ bs) = arrives b [] ∷ arrives c bs ∷ []

bytes_of-in_two : (bs : Bytes) → bytes_of (in_two bs) ≡ bs
bytes_of-in_two [] = refl
bytes_of-in_two (b ∷ []) = refl
bytes_of-in_two (b ∷ c ∷ bs) = ap (λ x. b ∷ c ∷ x) (append-nil bs)

in_two-IsPlain : (bs : Bytes) → IsPlain (in_two bs)
in_two-IsPlain [] = closed
in_two-IsPlain (b ∷ []) = segment b [] closed
in_two-IsPlain (b ∷ c ∷ bs) = segment b [] (segment c bs closed)

abbrev one_packet : Incoming
one_packet = in_two (packet_bytes 3 go_text)

go-Fits : Fits 3 go_text
go-Fits = record { index_fits = omega arith; length_fits = omega arith; ascii = refl }

never : ℕ → Bool
never n = false

never_fails : (n : ℕ) → never n ≡ false
unfolding never
never_fails n = refl

-- The acknowledgements of 3 and 4, with the number 0.
ack-Fits : Fits 0 (ack_message 3)
unfolding decimal digits_of
ack-Fits = record { index_fits = omega arith; length_fits = omega arith; ascii = refl }

stale-Fits : Fits 0 (ack_message 4)
unfolding decimal digits_of
stale-Fits = record { index_fits = omega arith; length_fits = omega arith; ascii = refl }

abbrev stale_then_right : Bytes
stale_then_right = packet_bytes 0 (ack_message 4) ++ (packet_bytes 0 (ack_message 3) ++ [])

send_and_receive-stale_example :
    (rest : Incoming) × IsPlain rest
    × (bytes_of rest ≡ [])
    × (send_and_receive never go_text 3 (in_two stale_then_right)
        ≡ ok (packet_bytes 3 go_text, record { accepted = true; sends = 2; left = rest }))
send_and_receive-stale_example =
    send_and_receive-stale go_text 3 4 0 0 never [] (in_two stale_then_right) go-Fits never_fails
      (λ same. omega (arith, same)) stale-Fits ack-Fits (in_two-IsPlain stale_then_right)
      (bytes_of-in_two stale_then_right)

abbrev two_acks : Bytes
two_acks = packet_bytes 8 (ack_message 1) ++ (packet_bytes 9 (ack_message 2) ++ [])

abbrev at_start : Position
at_start = record { msg_index = 1; phrase_index = 0 }

-- Two commands of the client, and the answers of the server, whose counter stands at 8.
abbrev to_server : Incoming
to_server = in_two (commands_bytes (script at_start 2))

abbrev to_client : Incoming
to_client = in_two (join (serve 3 never to_server [] 8).acks)

serve-commands_on_example : Accepts at_start 2 (commands_on 2 (λ _. never) at_start to_client)
serve-commands_on_example =
    serve-commands_on 2 3 8 at_start (λ _. never) never to_server to_client (omega arith)
      (omega arith) (omega arith) (omega arith) (λ _. never_fails 0) never_fails
      (in_two-IsPlain (commands_bytes (script at_start 2)))
      (bytes_of-in_two (commands_bytes (script at_start 2)))
      (in_two-IsPlain (join (serve 3 never to_server [] 8).acks))
      (bytes_of-in_two (join (serve 3 never to_server [] 8).acks))

-- Two connections, with one command and with two.
abbrev go_command : Command
go_command = (3, go_text)

go-IsCommand : IsCommand go_command
go-IsCommand = (go-Fits, ack-Fits.length_fits)

abbrev two_visits : List Visit
two_visits =
    (go_command ∷ [], in_two (commands_bytes (go_command ∷ [])))
    ∷ (go_command ∷ go_command ∷ [], in_two (commands_bytes (go_command ∷ go_command ∷ [])))
    ∷ []

main-replies_example :
    (join (server_main never (arrivals two_visits)).acks
      ≡ replies 1 (go_command ∷ go_command ∷ go_command ∷ []))
    × ((server_main never (arrivals two_visits)).ack_counter ≡ 4)
    × ((server_main never (arrivals two_visits)).closing ≡ waiting)
main-replies_example =
    main-replies two_visits never
      (
        (
          (go-IsCommand, tt),
          in_two-IsPlain (commands_bytes (go_command ∷ [])),
          bytes_of-in_two (commands_bytes (go_command ∷ [])),
        ),
        (
          (
            (go-IsCommand, (go-IsCommand, tt)),
            in_two-IsPlain (commands_bytes (go_command ∷ go_command ∷ [])),
            bytes_of-in_two (commands_bytes (go_command ∷ go_command ∷ [])),
          ),
          tt,
        ),
      )
      (omega arith) never_fails

-- A command, a connection that is reset inside a packet, and one with an error that is not caught.
main-ends_example :
    (server_main never (
      accepted one_packet
      ∷ accepted (arrives 1 (2 ∷ []) ∷ resets ∷ [])
      ∷ accepted (arrives 1 [] ∷ fails ∷ [])
      ∷ interrupted
      ∷ [])).closing
    ≢ failed_with stuck
main-ends_example = main-ends never (
    accepted one_packet
    ∷ accepted (arrives 1 (2 ∷ []) ∷ resets ∷ [])
    ∷ accepted (arrives 1 [] ∷ fails ∷ [])
    ∷ interrupted
    ∷ [])
