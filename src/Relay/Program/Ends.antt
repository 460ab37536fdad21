-- ===== src/Relay/Program/Ends.antt =====
-- What the program leaves open, and the mode of the console.
use public_trash.Base.{
  ℕ, ◌+◌, ◌-◌, ◌*◌, ◌/◌, ◌%◌, ◌≡◌, refl, ap, List, [], ◌∷◌, none, bit_and, bit_or, arith,
}
use public_trash.Base.Bits.{bit_or_low, bit_or-zero, bit_and-field}
use public_trash.Relay.Connection.{cleanup}
use public_trash.Relay.Server.{
  Server, Event, cleanup_server, cleanup_all_clients, cleanup_inactive_clients, handle,
  threads_exit, accepts, times_out, fails, run,
}
use public_trash.Relay.Server.Sockets.{closings, closings-append, acceptances, run-closings}
use public_trash.Relay.Program.{new_mode, AppState, Ran, new_server, main_server}

or_even : (a b : ℕ) → bit_or a (b * 2) ≡ bit_or (a / 2) b * 2 + a % 2
or_even a b =
    let half : b * 2 / 2 ≡ b = omega arith in
    omega (arith, bit_or_low a (b * 2), ap (λ x. bit_or (a / 2) x) half)

or_one : (a : ℕ) → bit_or a 1 ≡ a + (1 - a % 2)
or_one a = omega (arith, bit_or_low a 1, bit_or-zero (a / 2))

or_128 : (a : ℕ) → bit_or a 128 ≡ a + (1 - a / 128 % 2) * 128
or_128 a = omega (
  arith,
  or_even a 64,
  or_even (a / 2) 32,
  or_even (a / 2 / 2) 16,
  or_even (a / 2 / 2 / 2) 8,
  or_even (a / 2 / 2 / 2 / 2) 4,
  or_even (a / 2 / 2 / 2 / 2 / 2) 2,
  or_even (a / 2 / 2 / 2 / 2 / 2 / 2) 1,
  or_one (a / 2 / 2 / 2 / 2 / 2 / 2 / 2),
)

-- The mode of the console.
new_mode_lem : (mode : ℕ) → new_mode mode ≡ mode - mode / 64 % 2 * 64 + (1 - mode / 128 % 2) * 128
unfolding new_mode
new_mode_lem mode = omega (arith, or_128 (mode - bit_and mode 64), bit_and-field 6 1 mode)

-- `run` leaves no client, and its own connection as it was.
run-left :
    (events : List Event) (s : Server) → (run events s).1 ≡ record s { client_connections = [] }
unfolding run handle cleanup_inactive_clients cleanup_all_clients
run-left [] s = refl
run-left (threads_exit sock ∷ es) s = run-left es (handle (threads_exit sock) s).1
run-left (accepts sock ∷ es) s = run-left es (handle (accepts sock) s).1
run-left (times_out ∷ es) s = run-left es (cleanup_inactive_clients s).1
run-left (fails ∷ es) s = refl

-- `main` as a server, from any state of the application and however `run` ends: each socket is
-- closed as often as `accept` returned it before the loop ended, no client is left, and the
-- server has no socket of its own.
pub main_server-closings :
    (ran : Ran) (events : List Event) (app : AppState) (k : ℕ)
    → (closings k (main_server ran events app).0 ≡ acceptances k events)
      × ((main_server ran events app).1.client_connections ≡ [])
      × ((main_server ran events app).1.connection.sock ≡ none)
unfolding main_server cleanup_server cleanup cleanup_all_clients
main_server-closings ran events app k =
    let left = run-left events new_server in
    let again : closings k (cleanup_server (run events new_server).1).0 ≡ 0 =
      ap (λ s. closings k (cleanup_server s).0) left in
    (
      omega (
        arith,
        closings-append k (run events new_server).0 (cleanup_server (run events new_server).1).0,
        again,
        run-closings k events new_server,
      ),
      refl,
      refl,
    )
