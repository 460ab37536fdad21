-- ===== src/Command/Client/Run.antt =====
-- OLD/test_command_interface.py: the loops of `main` over connections and commands. Given are whether
-- a connection is made, what will arrive on it, and which `sendall` of which command raises.
pub mod Numbered
pub mod Accepted
use public_trash.Base.{
  ℕ, zero, suc, ◌+◌, ◌%◌, ◌||◌, Bool, true, false, if◌then◌else◌, List, [], ◌∷◌, ◌++◌, length,
  get_elem?, Option, none, some, Exception, connection_error, socket_error, socket_timeout,
  index_error, stuck, Result, ok, raise, ◌>>=◌,
}
use public_trash.Base.Texts.{Text, codes}
use public_trash.Base.Words.{Bytes}
use public_trash.Command.Socket.{Incoming}
use public_trash.Command.Client.{Outcome, send_and_receive}

-- `phrases`: one literal has no comma behind it and is joined with the next.
unfoldable pub phrases : List Text
phrases =
    codes "Red Blue Green"
    ∷ codes "Cat Dog Mouse"
    ∷ codes "One Two Three"
    ∷ codes "Run Jump Play"
    ∷ codes "Sun Moon Star"
    ∷ codes "log_level=INFO"
    ∷ codes "a horse is a horse"
    ∷ codes "of course of course"
    ∷ codes "and no one can talk to a horse of course"
    ∷ codes "that is of course unless the horse is the famous Mr. EdI am a robot"
    ∷ codes "Spiderman, Spiderman, does whatever a spider can"
    ∷ codes "Spins a web, any size, catches thieves just like flies"
    ∷ codes "Look out, here comes the Spiderman"
    ∷ codes "Is he strong? Listen bud, he's got radioactive blood"
    ∷ codes "Can he swing from a thread? Take a look overhead"
    ∷ codes "Hey there, there goes the Spiderman"
    ∷ codes "In the chill of night, at the scene of a crime"
    ∷ codes "Like a streak of light, he arrives just in time"
    ∷ codes "Spiderman, Spiderman, friendly neighborhood Spiderman"
    ∷ codes "Wealth and fame, he's ignored, action is his reward"
    ∷ codes "To him, life is a great big bang-up, wherever there's a hang-up"
    ∷ codes "You'll find the Spiderman"
    ∷ codes "log_level=DEBUG"
    ∷ []

-- The two counters, which a new connection does not reset.
pub record Position : Type 0 where
  pub msg_index : ℕ
  pub phrase_index : ℕ

-- A call of `send_and_receive`, and what it returned.
pub record Command : Type 0 where
  pub msg_index : ℕ
  pub phrase : Text
  pub accepted : Bool

-- What the program has done so far, and the exception that ended it, if one did.
pub record Log : Type 0 where
  pub commands : List Command
  pub position : Position
  pub crashed : Option Exception

abbrev pub advance : Position → Position
advance p = record {
  msg_index = p.msg_index + 1;
  phrase_index = (p.phrase_index + 1) % length phrases;
}

abbrev pub logged : Command → Log → Log
logged c log = record log { commands = c ∷ log.commands }

-- `except (socket.error, ConnectionError)`: other exceptions end the program.
abbrev pub caught : Position → Exception → Log
caught p socket_error = record { commands = []; position = p; crashed = none }
caught p socket_timeout = record { commands = []; position = p; crashed = none }
caught p connection_error = record { commands = []; position = p; crashed = none }
caught p e = record { commands = []; position = p; crashed = some e }

abbrev pub phrase_at : ℕ → Result Text
phrase_at i = elim (get_elem? phrases i) [ none ↦ raise index_error | some phrase ↦ ok phrase ]

-- A command that was accepted moves the counters on; another one ends the connection.
abbrev pub judged : (Position → Incoming → Log) → Position → Text → Outcome → Log
judged again p phrase o =
    let go_on = again (advance p) o.left in
    logged (record { msg_index = p.msg_index; phrase = phrase; accepted = o.accepted })
      (if o.accepted then go_on else record { commands = []; position = p; crashed = none })

abbrev pub sent_off : (Position → Incoming → Log) → Position → Text → Result (Bytes × Outcome) → Log
sent_off again p phrase (raise e) = caught p e
sent_off again p phrase (ok (_, o)) = judged again p phrase o

abbrev pub with_phrase :
    (ℕ → ℕ → Bool) → (Position → Incoming → Log) → Position → Incoming → Result Text → Log
with_phrase send_fails again p incoming (raise e) = caught p e
with_phrase send_fails again p incoming (ok phrase) =
    sent_off again p phrase (send_and_receive (send_fails p.msg_index) phrase p.msg_index incoming)

-- The inner loop, on fuel: it is watched for a number of rounds, and with it the program.
unfoldable pub commands_on : ℕ → (ℕ → ℕ → Bool) → Position → Incoming → Log
commands_on zero send_fails p incoming = record {
  commands = [];
  position = p;
  crashed = some stuck;
}
commands_on (suc rounds) send_fails p incoming =
    with_phrase send_fails (λ q rest. commands_on rounds send_fails q rest) p incoming
      (phrase_at p.phrase_index)

-- What happens to an attempt to connect.
pub data Attempt : Type 0 where
  refused : Attempt
  connected : (rounds : ℕ) → (send_fails : ℕ → ℕ → Bool) → Incoming → Attempt

abbrev pub attempt : Position → Attempt → Log
attempt p refused = caught p socket_error
attempt p (connected rounds send_fails incoming) = commands_on rounds send_fails p incoming

-- Another attempt follows, unless the program has ended.
abbrev pub followed : (Position → Log) → Log → Option Exception → Log
followed again log (some e) = log
followed again log none =
    let rest = again log.position in record rest { commands = log.commands ++ rest.commands }

-- The outer loop.
unfoldable pub run : Position → List Attempt → Log
unfolding commands_on
run p [] = record { commands = []; position = p; crashed = none }
run p (a ∷ attempts) = followed (λ q. run q attempts) (attempt p a) (attempt p a).crashed

unfoldable pub main : List Attempt → Log
unfolding run
main attempts = run (record { msg_index = 1; phrase_index = 0 }) attempts
