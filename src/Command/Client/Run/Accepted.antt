-- ===== src/Command/Client/Run/Accepted.antt =====
-- A server that acknowledges each command takes the client through its phrases.
use public_trash.Base.{
  ℕ, zero, suc, ◌+◌, ◌%◌, ◌^◌, ◌≤◌, ◌<◌, ◌≡◌, refl, sym, ap, subst, Bool, true, false, ◌&&◌, leb,
  ◌==◌, List, [], ◌∷◌, ◌++◌, length, get_elem?, All, map, ap₂, Option, none, some, ok, arith,
}
use public_trash.Base.Texts.{Text}
use public_trash.Base.Words.{Bytes}
use public_trash.Command.Packet.{is_ascii, ack_message}
use public_trash.Command.Packet.RoundTrip.{packet_bytes, Fits, create_packet-ok}
use public_trash.Command.Socket.{Incoming}
use public_trash.Command.Socket.Laws.{IsPlain, bytes_of}
use public_trash.Command.Client.{send_and_receive}
use public_trash.Command.Client.Acks.{reply_for}
use public_trash.Command.Client.Run.{phrases, Position, Log, advance, commands_on}
use public_trash.Command.Client.Run.Numbered.{length-phrases}

-- Every phrase fits a packet.
unfoldable pub all_fit : List Text → Bool
all_fit [] = true
all_fit (s ∷ ss) = (is_ascii s && leb (length s) 100) && all_fit ss

pub get_elem?-fits :
    (ss : List Text) (i : ℕ)
    → i < length ss
    → all_fit ss ≡ true
    → (s : Text) × (get_elem? ss i ≡ some s) × (is_ascii s ≡ true) × (length s ≤ 100)
unfolding all_fit
get_elem?-fits [] i h fits = absurd (omega arith)
get_elem?-fits (s ∷ ss) zero h fits = (s, refl, ground (arith, fits), ground (arith, fits))
get_elem?-fits (s ∷ ss) (suc i) h fits = get_elem?-fits ss i (omega arith) (ground (arith, fits))

pub next_in_range : (p : Position) → (advance p).phrase_index < 23
next_in_range p = subst (λ n. (p.phrase_index + 1) % n < 23) (sym length-phrases) (omega arith)

pub phrases_fit : all_fit phrases ≡ true
unfolding all_fit phrases
phrases_fit = refl

-- The next commands from a position on: number and phrase.
abbrev pub or_empty : Option Text → Text
or_empty none = []
or_empty (some s) = s

abbrev pub script : Position → ℕ → List (ℕ × Text)
script p zero = []
script p (suc n) = (p.msg_index, or_empty (get_elem? phrases p.phrase_index)) ∷ script (advance p) n

-- The acknowledgements of the commands from `i` on, under these numbers.
abbrev pub acks_for : ℕ → List ℕ → Bytes → Bytes
acks_for i [] tail = tail
acks_for i (a ∷ acks) tail = packet_bytes a (ack_message i) ++ acks_for (i + 1) acks tail

abbrev pub AcksFit : ℕ → List ℕ → Type 0
AcksFit i [] = Unit {0}
AcksFit i (a ∷ acks) = Fits a (ack_message i) × AcksFit (i + 1) acks

send_and_receive-ack :
    (message : Text) (i a : ℕ) (send_fails : ℕ → Bool) (tail : Bytes) (incoming : Incoming)
    → Fits i message
    → send_fails 0 ≡ false
    → Fits a (ack_message i)
    → IsPlain incoming
    → bytes_of incoming ≡ packet_bytes a (ack_message i) ++ tail
    → (rest : Incoming) × IsPlain rest
      × (bytes_of rest ≡ tail)
      × (send_and_receive send_fails message i incoming
          ≡ ok (packet_bytes i message, record { accepted = true; sends = 1; left = rest }))
unfolding send_and_receive
send_and_receive-ack message i a send_fails tail incoming fm h fa p eq =
    let (rest, q, left, run) = reply_for 2 i i 0 a send_fails tail h fa p eq in
    let same : (i == i) ≡ true = ground arith in
    (rest, q, left, rw (create_packet-ok message i fm, send_and_receive, run, same) refl)

-- Of `n` commands from a position on, all are accepted.
pub record Accepts (p : Position) (n : ℕ) (log : Log) : Type 0 where
  pub given : map (λ c. (c.msg_index, c.phrase)) log.commands ≡ script p n
  pub many : length log.commands ≡ n
  pub accepted : All (λ c. c.accepted ≡ true) log.commands
  pub msg_index : log.position.msg_index ≡ p.msg_index + n

-- Where no first `sendall` of a command fails, the numbers fit 32 bits, and the connection
-- brings, in any segments and with no timeout or error, the acknowledgements of the next `n`
-- commands in order: watched for `n` rounds, the client gives `n` commands, all are accepted, and
-- its number has gone on by `n`.
pub commands_on-acks :
    (acks : List ℕ) (p : Position) (send_fails : ℕ → ℕ → Bool) (tail : Bytes) (incoming : Incoming)
    → p.phrase_index < 23
    → p.msg_index + length acks ≤ 2 ^ 32
    → ((i : ℕ) → send_fails i 0 ≡ false)
    → AcksFit p.msg_index acks
    → IsPlain incoming
    → bytes_of incoming ≡ acks_for p.msg_index acks tail
    → Accepts p (length acks) (commands_on (length acks) send_fails p incoming)
unfolding commands_on phrases
commands_on-acks [] p send_fails tail incoming at low h f q eq = record {
  given = refl;
  many = refl;
  accepted = tt;
  msg_index = omega arith;
}
commands_on-acks (a ∷ acks) p send_fails tail incoming at low h f q eq =
    let (phrase, found, ascii, short) =
      get_elem?-fits phrases p.phrase_index (omega (arith, at, length-phrases)) phrases_fit in
    let fits : Fits p.msg_index phrase = record {
      index_fits = omega (arith, low);
      length_fits = omega (arith, short);
      ascii = ascii;
    } in
    let (rest, plain, left, run) =
      send_and_receive-ack phrase p.msg_index a (send_fails p.msg_index)
        (acks_for (p.msg_index + 1) acks tail) incoming fits (h p.msg_index) f.0 q eq in
    let log =
      commands_on-acks acks (advance p) send_fails tail rest (next_in_range p) (omega (arith, low))
        h f.1 plain left in
    rw (found, run)
      record {
        given = ap₂ (λ s cs. (p.msg_index, s) ∷ cs) (sym (ap or_empty found)) log.given;
        many = ap suc log.many;
        accepted = (refl, log.accepted);
        msg_index = omega (arith, log.msg_index);
      }
