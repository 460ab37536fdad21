-- ===== src/Relay/Server/Sockets.antt =====
-- The socket of each client is closed once.
use public_trash.Base.{
  ℕ, ◌+◌, ◌≡◌, refl, ◌∙◌, true, false, Bool-cases, inl, inr, ◌==◌, if◌then◌else◌, List, [], ◌∷◌,
  ◌++◌, Option, none, some, arith,
}
use public_trash.Relay.Connection.{
  Connection, Thread, Action, shuts_down, closes, joins_sender, joins_receiver, cleanup,
  close_socket, join_thread,
}
use public_trash.Relay.Server.{
  Server, Event, threads_exit, accepts, times_out, fails, sweep, cleanup_inactive_clients,
  cleanup_all_clients, handle, run, cleanup_each, exit_threads, has_sock, start_client, is_active,
}

-- How often this socket is closed.
abbrev pub closings : ℕ → List Action → ℕ
closings k [] = 0
closings k (closes s ∷ xs) = (if s == k then 1 else 0) + closings k xs
closings k (_ ∷ xs) = closings k xs

abbrev holds_sock : ℕ → Option ℕ → ℕ
holds_sock k none = 0
holds_sock k (some s) = if s == k then 1 else 0

abbrev holds : ℕ → Connection → ℕ
holds k c = holds_sock k c.sock

-- How many of these clients hold this socket.
abbrev pub holders : ℕ → List Connection → ℕ
holders k [] = 0
holders k (c ∷ cs) = holds k c + holders k cs

-- How often `accept` returns this socket before it raises.
abbrev pub acceptances : ℕ → List Event → ℕ
acceptances k [] = 0
acceptances k (accepts s ∷ es) = (if s == k then 1 else 0) + acceptances k es
acceptances k (fails ∷ es) = 0
acceptances k (_ ∷ es) = acceptances k es

pub closings-append :
    (k : ℕ) (xs ys : List Action) → closings k (xs ++ ys) ≡ closings k xs + closings k ys
closings-append k [] ys = ground arith
closings-append k (closes s ∷ xs) ys = ground (arith, closings-append k xs ys)
closings-append k (shuts_down s ∷ xs) ys = closings-append k xs ys
closings-append k (joins_sender ∷ xs) ys = closings-append k xs ys
closings-append k (joins_receiver ∷ xs) ys = closings-append k xs ys

holders-append :
    (k : ℕ) (cs ds : List Connection) → holders k (cs ++ ds) ≡ holders k cs + holders k ds
holders-append k [] ds = ground arith
holders-append k (c ∷ cs) ds = ground (arith, holders-append k cs ds)

closings-close :
    (k : ℕ) (o : Option ℕ) (xs : List Action)
    → closings k xs ≡ 0
    → closings k (close_socket o ++ xs) ≡ holds_sock k o
closings-close k none xs h = h
closings-close k (some s) xs h = ground (arith, h)

closings-joins :
    (k : ℕ) (s r : Thread)
    → closings k (join_thread s joins_sender ++ join_thread r joins_receiver) ≡ 0
closings-joins k none none = refl
closings-joins k none (some true) = refl
closings-joins k none (some false) = refl
closings-joins k (some true) none = refl
closings-joins k (some true) (some true) = refl
closings-joins k (some true) (some false) = refl
closings-joins k (some false) none = refl
closings-joins k (some false) (some true) = refl
closings-joins k (some false) (some false) = refl

closings-cleanup : (k : ℕ) (c : Connection) → closings k (cleanup c).0 ≡ holds k c
unfolding cleanup
closings-cleanup k c =
    closings-close k c.sock
      (join_thread c.sender joins_sender ++ join_thread c.receiver joins_receiver)
      (closings-joins k c.sender c.receiver)

closings-each : (k : ℕ) (cs : List Connection) → closings k (cleanup_each cs) ≡ holders k cs
closings-each k [] = refl
closings-each k (c ∷ cs) = ground (
  arith,
  closings-append k (cleanup c).0 (cleanup_each cs),
  closings-cleanup k c,
  closings-each k cs,
)

closings-sweep :
    (k : ℕ) (cs : List Connection) → closings k (sweep cs).0 + holders k (sweep cs).1 ≡ holders k cs
unfolding sweep
closings-sweep k [] = ground arith
closings-sweep k (c ∷ cs) = elim (Bool-cases (is_active c)) [
  | inl on ↦ rw on (ground (arith, closings-sweep k cs))
  | inr off ↦ rw off (
      ground (
        arith,
        closings-append k (cleanup c).0 (sweep cs).0,
        closings-cleanup k c,
        closings-sweep k cs,
      ))
]

holders-exit_threads :
    (k sock : ℕ) (cs : List Connection) → holders k (exit_threads sock cs) ≡ holders k cs
holders-exit_threads k sock [] = refl
holders-exit_threads k sock (c ∷ cs) = elim (Bool-cases (has_sock sock c.sock)) [
  | inl same ↦ rw (same, holders-exit_threads k sock cs) refl
  | inr other ↦ rw (other, holders-exit_threads k sock cs) refl
]

-- Of every socket, in a run of the server from any state over any events: it is closed as often
-- as it is held by a client at the start or accepted before the loop ends.
pub run-closings :
    (k : ℕ) (events : List Event) (s : Server)
    → closings k (run events s).0 ≡ holders k s.client_connections + acceptances k events
unfolding run handle cleanup_inactive_clients cleanup_all_clients start_client
run-closings k [] s = ground (arith, closings-each k s.client_connections)
run-closings k (threads_exit sock ∷ es) s =
    run-closings k es (handle (threads_exit sock) s).1
    ∙ ground (arith, holders-exit_threads k sock s.client_connections)
run-closings k (accepts sock ∷ es) s =
    run-closings k es (handle (accepts sock) s).1
    ∙ ground (arith, holders-append k s.client_connections (start_client sock ∷ []))
run-closings k (times_out ∷ es) s = ground (
  arith,
  closings-append k (sweep s.client_connections).0 (run es (cleanup_inactive_clients s).1).0,
  closings-sweep k s.client_connections,
  run-closings k es (cleanup_inactive_clients s).1,
)
run-closings k (fails ∷ es) s = ground (arith, closings-each k s.client_connections)
