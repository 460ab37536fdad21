-- ===== src/Command/Server/Run/Counted.antt =====
-- The acknowledgements are numbered on from one connection to the next.
use public_trash.Base.{
  ℕ, suc, ◌+◌, ◌^◌, ◌≤◌, ◌<◌, ◌≡◌, refl, sym, ap, subst, connection_error, ◌∙◌, Bool, false, List,
  [], ◌∷◌, ◌++◌, join, length, length-append, All, arith,
}
use public_trash.Command.Socket.{Incoming}
use public_trash.Command.Socket.Laws.{IsPlain, closed, segment, bytes_of}
use public_trash.Command.Packet.RoundTrip.{packet_bytes}
use public_trash.Command.Packet.{ack_message}
use public_trash.Command.Server.{ended}
use public_trash.Command.Server.Replies.{Command, commands_bytes, replies, IsCommand, serve-replies}
use public_trash.Command.Server.Run.{
  Arrival, accepted, waiting, bytes_left, serve_all, run, after_session, main,
}

-- A connection as the commands that it brings and the segments they arrive in.
abbrev pub Visit : Type 0
Visit = List Command × Incoming

abbrev pub IsVisit : Visit → Type 0
IsVisit v = All IsCommand v.0 × IsPlain v.1 × (bytes_of v.1 ≡ commands_bytes v.0)

abbrev pub arrivals : List Visit → List Arrival
arrivals [] = []
arrivals (v ∷ vs) = accepted v.1 ∷ arrivals vs

abbrev pub all_commands : List Visit → List Command
all_commands [] = []
all_commands (v ∷ vs) = v.0 ++ all_commands vs

replies-append :
    (a : ℕ) (cs ds : List Command)
    → replies a (cs ++ ds) ≡ replies a cs ++ replies (a + length cs) ds
replies-append a [] ds = ap (λ n. replies n ds) (omega arith)
replies-append a (c ∷ cs) ds =
    let e : a + 1 + length cs ≡ a + suc (length cs) = omega arith in
    ap (◌∷◌ (packet_bytes a (ack_message c.0)))
      (replies-append (a + 1) cs ds ∙ ap (λ n. replies (a + 1) cs ++ replies n ds) e)

-- There are at least as many bytes as commands.
length-commands_bytes : (cs : List Command) → length cs ≤ length (commands_bytes cs)
length-commands_bytes [] = omega arith
length-commands_bytes (c ∷ cs) =
    omega
      (arith, length-append (packet_bytes c.0 c.1) (commands_bytes cs), length-commands_bytes cs)

bytes_left-IsPlain :
    {incoming : Incoming} → IsPlain incoming → bytes_left incoming ≡ length (bytes_of incoming)
unfolding bytes_left
bytes_left-IsPlain closed = refl
bytes_left-IsPlain (segment {rest} b bs p) =
    omega (arith, bytes_left-IsPlain p, length-append bs (bytes_of rest))

serve_all-replies :
    (v : Visit) (send_fails : ℕ → Bool) (a : ℕ)
    → IsVisit v
    → a + length v.0 ≤ 2 ^ 32
    → ((n : ℕ) → send_fails n ≡ false)
    → serve_all send_fails v.1 a ≡ record {
      acks = replies a v.0;
      ack_counter = a + length v.0;
      ending = ended connection_error;
    }
unfolding serve_all
serve_all-replies v send_fails a (all, plain, brought) fit sends =
    serve-replies v.0 (suc (bytes_left v.1)) a send_fails v.1 all plain brought
      (omega (arith, bytes_left-IsPlain plain, ap length brought, length-commands_bytes v.0)) fit
      sends

run-replies :
    (vs : List Visit) (send_fails : ℕ → Bool) (a : ℕ)
    → All IsVisit vs
    → a + length (all_commands vs) ≤ 2 ^ 32
    → ((n : ℕ) → send_fails n ≡ false)
    → (join (run send_fails (arrivals vs) a).acks ≡ replies a (all_commands vs))
      × ((run send_fails (arrivals vs) a).ack_counter ≡ a + length (all_commands vs))
      × ((run send_fails (arrivals vs) a).closing ≡ waiting)
unfolding run
run-replies [] send_fails a h fit sends = (refl, omega arith, refl)
run-replies (v ∷ vs) send_fails a h fit sends =
    let total = length-append v.0 (all_commands vs) in
    let served = serve_all-replies v send_fails a h.0 (omega (arith, fit, total)) sends in
    let (acks, counter, closing) =
      run-replies vs send_fails (a + length v.0) h.1 (omega (arith, fit, total)) sends in
    subst
      (λ s.
        let end = after_session s (λ n. run send_fails (arrivals vs) n) in
        (join end.acks ≡ replies a (v.0 ++ all_commands vs))
        × (end.ack_counter ≡ a + length (v.0 ++ all_commands vs))
        × (end.closing ≡ waiting))
      (sym served)
      (
        ap (λ x. replies a v.0 ++ x) acks ∙ sym (replies-append a v.0 (all_commands vs)),
        omega (arith, counter, total),
        closing,
      )

-- `main`, over connections that each bring commands in any segments and then close, where no
-- `sendall` fails, every number fits its field and no interrupt comes: the acknowledgements of
-- all connections, one behind another, are those of all the commands in one row, numbered from 1
-- on, and the server waits in `accept` at the end.
pub main-replies :
    (vs : List Visit) (send_fails : ℕ → Bool)
    → All IsVisit vs
    → length (all_commands vs) < 2 ^ 32
    → ((n : ℕ) → send_fails n ≡ false)
    → (join (main send_fails (arrivals vs)).acks ≡ replies 1 (all_commands vs))
      × ((main send_fails (arrivals vs)).ack_counter ≡ 1 + length (all_commands vs))
      × ((main send_fails (arrivals vs)).closing ≡ waiting)
unfolding main
main-replies vs send_fails h fit sends = run-replies vs send_fails 1 h (omega (arith, fit)) sends
