-- ===== src/Command/Together.antt =====
-- OLD/command_interface.py and OLD/test_command_interface.py together: what the server sends is what
-- arrives at the client, and the other way round.
use public_trash.Base.{
  ℕ, zero, suc, ◌+◌, ◌^◌, ◌≤◌, ◌<◌, ◌≡◌, refl, sym, ap, subst, ◌∙◌, Bool, false, List, [], ◌∷◌,
  ◌++◌, length, join, All, arith,
}
use public_trash.Base.Decimal.{decimal-length_le}
use public_trash.Command.Packet.{ack_message}
use public_trash.Command.Packet.RoundTrip.{packet_bytes, Fits, ack_ascii}
use public_trash.Command.Socket.{Incoming}
use public_trash.Command.Socket.Laws.{IsPlain, bytes_of}
use public_trash.Command.Server.{serve}
use public_trash.Command.Server.Replies.{commands_bytes, replies, IsCommand, serve-replies}
use public_trash.Command.Client.Run.{phrases, Position, advance, commands_on}
use public_trash.Command.Client.Run.Numbered.{length-phrases}
use public_trash.Command.Client.Run.Accepted.{
  or_empty, script, acks_for, AcksFit, Accepts, get_elem?-fits, phrases_fit, next_in_range,
  commands_on-acks,
}

-- The numbers of `n` acknowledgements.
count : ℕ → ℕ → List ℕ
count a zero = []
count a (suc n) = a ∷ count (a + 1) n

length-count : (a n : ℕ) → length (count a n) ≡ n
unfolding count
length-count a zero = refl
length-count a (suc n) = ap suc (length-count (a + 1) n)

length-script : (p : Position) (n : ℕ) → length (script p n) ≡ n
length-script p zero = refl
length-script p (suc n) = ap suc (length-script (advance p) n)

join-replies :
    (a : ℕ) (p : Position) (n : ℕ)
    → join (replies a (script p n)) ≡ acks_for p.msg_index (count a n) []
unfolding count
join-replies a p zero = refl
join-replies a p (suc n) =
    ap (λ bs. packet_bytes a (ack_message p.msg_index) ++ bs) (join-replies (a + 1) (advance p) n)

count-AcksFit : (a i n : ℕ) → a + n ≤ 2 ^ 32 → i + n + 32 ≤ 2 ^ 32 → AcksFit i (count a n)
unfolding count
count-AcksFit a i zero h k = tt
count-AcksFit a i (suc n) h k = (
  record {
    index_fits = omega (arith, h);
    length_fits = omega (arith, k, decimal-length_le i);
    ascii = ack_ascii i;
  },
  count-AcksFit (a + 1) (i + 1) n (omega (arith, h)) (omega (arith, k)),
)

script-IsCommand :
    (p : Position) (n : ℕ)
    → p.phrase_index < 23
    → p.msg_index + n + 32 ≤ 2 ^ 32
    → All IsCommand (script p n)
script-IsCommand p zero at k = tt
script-IsCommand p (suc n) at k =
    let (phrase, found, ascii, short) =
      get_elem?-fits phrases p.phrase_index (omega (arith, at, length-phrases)) phrases_fit in
    let fits : Fits p.msg_index phrase = record {
      index_fits = omega (arith, k);
      length_fits = omega (arith, short);
      ascii = ascii;
    } in
    (
      (
        subst (Fits p.msg_index) (sym (ap or_empty found)) fits,
        omega (arith, k, decimal-length_le p.msg_index),
      ),
      script-IsCommand (advance p) n (next_in_range p) (omega (arith, k)),
    )

-- The packets of the next `n` commands of the client, from a position whose phrase is in the
-- list, reach the server and its connection closes; what the server sends reaches the client;
-- both ways in any segments, with no timeout, error or failing `sendall`; the fuel is above `n`
-- and the numbers stay below 2 ** 32, the client's by 32. Then the client, watched for `n`
-- rounds, gives just these commands, each is accepted, and its number has gone on by `n`.
pub serve-commands_on :
    (n fuel a : ℕ) (p : Position) (client_fails : ℕ → ℕ → Bool) (server_fails : ℕ → Bool)
    (to_server to_client : Incoming)
    → p.phrase_index < 23
    → p.msg_index + n + 32 ≤ 2 ^ 32
    → a + n ≤ 2 ^ 32
    → n < fuel
    → ((i : ℕ) → client_fails i 0 ≡ false)
    → ((k : ℕ) → server_fails k ≡ false)
    → IsPlain to_server
    → bytes_of to_server ≡ commands_bytes (script p n)
    → IsPlain to_client
    → bytes_of to_client ≡ join (serve fuel server_fails to_server [] a).acks
    → Accepts p n (commands_on n client_fails p to_client)
serve-commands_on n fuel a p client_fails server_fails to_server to_client at low few fuelled hc hs
      ps es pc ec =
    let size = length-script p n in
    let served =
      serve-replies (script p n) fuel a server_fails to_server (script-IsCommand p n at low) ps es
        (omega (arith, size, fuelled)) (omega (arith, size, few)) hs in
    let counted = length-count a n in
    let arrived : bytes_of to_client ≡ acks_for p.msg_index (count a n) [] =
      ec ∙ ap (λ s. join s.acks) served ∙ join-replies a p n in
    subst (λ m. Accepts p m (commands_on m client_fails p to_client)) counted
      (commands_on-acks (count a n) p client_fails [] to_client at (omega (arith, counted, low)) hc
        (count-AcksFit a p.msg_index n few low) pc arrived)
