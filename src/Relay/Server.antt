-- ===== src/Relay/Server.antt =====
-- OLD/threaded_ether_relay.py: `ServerConnection` and the client list it keeps. What `accept`
-- brings, and when the threads of a client exit, is given.
pub mod Sockets
use public_trash.Base.{
  ℕ, zero, suc, ◌+◌, Bool, true, false, ◌||◌, ◌==◌, if◌then◌else◌, List, [], ◌∷◌, ◌++◌, Option,
  none, some,
}
use public_trash.Relay.Connection.{
  Connection, new_connection, start_threads, Thread, Action, cleanup,
}

-- `ServerConnection`, whose own connection has no socket.
pub record Server : Type 0 where
  pub connection : Connection
  pub client_connections : List Connection

-- `ClientHandler.__init__` and `start`.
unfoldable pub start_client : ℕ → Connection
unfolding start_threads
start_client sock = start_threads (record new_connection { sock = some sock }) sock

abbrev is_alive : Thread → Bool
is_alive none = false
is_alive (some alive) = alive

unfoldable pub is_active : Connection → Bool
is_active c = is_alive c.sender || is_alive c.receiver

-- The loop of `_cleanup_inactive_clients`, and the clients it keeps.
unfoldable pub sweep : List Connection → List Action × List Connection
unfolding is_active
sweep [] = ([], [])
sweep (c ∷ cs) =
    if is_active c
    then ((sweep cs).0, c ∷ (sweep cs).1)
    else ((cleanup c).0 ++ (sweep cs).0, (sweep cs).1)

unfoldable pub cleanup_inactive_clients : Server → List Action × Server
unfolding sweep
cleanup_inactive_clients s = (
  (sweep s.client_connections).0,
  record s { client_connections = (sweep s.client_connections).1 },
)

abbrev pub cleanup_each : List Connection → List Action
cleanup_each [] = []
cleanup_each (c ∷ cs) = (cleanup c).0 ++ cleanup_each cs

unfoldable pub cleanup_all_clients : Server → List Action × Server
cleanup_all_clients s = (cleanup_each s.client_connections, record s { client_connections = [] })

-- Something that happens while the loop waits: the threads of the client on this socket exit, or
-- `accept` returns, times out or raises.
pub data Event : Type 0 where
  threads_exit accepts : ℕ → Event
  times_out fails : Event

abbrev pub has_sock : ℕ → Option ℕ → Bool
has_sock sock none = false
has_sock sock (some s) = s == sock

abbrev pub exit_threads : ℕ → List Connection → List Connection
exit_threads sock [] = []
exit_threads sock (c ∷ cs) =
    (if has_sock sock c.sock then record c { sender = some false; receiver = some false } else c)
    ∷ exit_threads sock cs

-- An event in the loop, and whether the loop goes on.
unfoldable pub handle : Event → Server → List Action × Server × Bool
unfolding cleanup_inactive_clients start_client
handle (threads_exit sock) s =
    ([], record s { client_connections = exit_threads sock s.client_connections }, true)
handle (accepts sock) s =
    ([], record s { client_connections = s.client_connections ++ start_client sock ∷ [] }, true)
handle times_out s = ((cleanup_inactive_clients s).0, (cleanup_inactive_clients s).1, true)
handle fails s = ([], s, false)

-- `run`: the loop ends with an error of `accept`, or when a stop flag is seen, behind the last
-- event; then the clients are cleaned up. The listening socket is left out.
unfoldable pub run : List Event → Server → List Action × Server
unfolding handle cleanup_all_clients
run [] s = cleanup_all_clients s
run (e ∷ es) s =
    let rest = run es (handle e s).1 in
    let last = cleanup_all_clients (handle e s).1 in
    if (handle e s).2
    then ((handle e s).0 ++ rest.0, rest.1)
    else ((handle e s).0 ++ last.0, last.1)

-- `ServerConnection.cleanup`.
unfoldable pub cleanup_server : Server → List Action × Server
unfolding cleanup_all_clients
cleanup_server s = (
  (cleanup_all_clients s).0 ++ (cleanup (record s.connection { closing = true })).0,
  record {
    connection = (cleanup (record s.connection { closing = true })).1;
    client_connections = [];
  },
)
