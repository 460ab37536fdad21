-- ===== src/Examples/Peers.antt =====
-- The client's loop, the server's loop and the sender thread of the relay at concrete inputs.
use public_trash.Base.Texts.{codes}
use public_trash.Base.{
  none, ok, ◌↔◌, ◌≤◌, ◌≡◌, refl, true, false, List, [], ◌∷◌, replicate, overflow_error, arith,
}
use public_trash.Base.Words.{big}
use public_trash.Relay.Client.{Turn, errs, run}
use public_trash.Relay.Client.Backoff.{idle, run-overflow}
use public_trash.Relay.Connection.{new_connection}
use public_trash.Relay.Frame.{Rng}
use public_trash.Relay.Sender.{World, Sender, sender_thread}
use public_trash.Relay.Sender.Stopped.{Ended, sender_thread-Ended}
use public_trash.Relay.Server.{Server, Event, accepts, threads_exit, times_out, start_client}
use public_trash.ThreadStops.{main}
use public_trash.ThreadStops.Moments.{RunsOn, main-RunsOn}
use public_trash.Relay.Server.Sockets.{closings}
use public_trash.Relay.Program.{AppState, keyboard_interrupt, main_server}
use public_trash.Relay.Program.Ends.{main_server-closings}

abbrev good_turn : Turn
good_turn = record { interrupted = false; new_sock = 4; connects = true; stopped = false }

run-overflow_example :
    run (good_turn ∷ good_turn ∷ []) (idle new_connection 1025)
    ≡ (replicate 2 (errs overflow_error), idle new_connection 1025)
run-overflow_example =
    run-overflow (good_turn ∷ good_turn ∷ []) new_connection 1025 (omega arith) (refl, (refl, tt))

abbrev one_client : Server
one_client = record { connection = new_connection; client_connections = start_client 4 ∷ [] }

abbrev some_events : List Event
some_events = accepts 5 ∷ threads_exit 4 ∷ times_out ∷ accepts 4 ∷ []

abbrev low_draws : Rng
low_draws = record { randint = λ i lo hi. lo; randint_bounds = λ i lo hi h. omega arith }

-- The flags are seen to be set at the third test.
abbrev soon : World
soon = record {
  endian_fmt = big;
  no_send = false;
  rng = λ c. low_draws;
  stop_at = 2;
  send_fails = λ n. false;
}

abbrev new_sender : Sender
new_sender = record { connection = new_connection; tests = 0; output = [] }

sender_thread-Ended_example : Ended soon new_sender (sender_thread soon new_sender)
sender_thread-Ended_example = sender_thread-Ended soon new_sender refl (λ n. refl) refl

abbrev at_first : AppState
at_first = record { is_shutdown = false; mode_prefix = codes "C: " }

main_server-closings_example :
    (closings 4 (main_server keyboard_interrupt some_events at_first).0 ≡ 1)
    × ((main_server keyboard_interrupt some_events at_first).1.client_connections ≡ [])
    × ((main_server keyboard_interrupt some_events at_first).1.connection.sock ≡ none)
main_server-closings_example = main_server-closings keyboard_interrupt some_events at_first 4

-- The signal comes while both jobs run.
main-RunsOn_example :
    (¬ RunsOn (main 4).1.j1) × (¬ RunsOn (main 4).1.j2) × (((main 4).0 ≡ ok tt) ↔ (4 ≤ 4))
main-RunsOn_example = main-RunsOn 4
