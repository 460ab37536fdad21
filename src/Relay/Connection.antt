-- ===== src/Relay/Connection.antt =====
-- OLD/threaded_ether_relay.py: the state of `Connection`, its counters and its `cleanup`. A lock
-- makes each of `update_stats` and `get_next_count` one step, as here. The logger, the arguments
-- and the thread-local message type are left out: a method is told whether it runs in the sender.
pub mod Cleanup
use public_trash.Base.{
  ℕ, ◌+◌, Bool, true, false, if◌then◌else◌, List, [], ◌∷◌, ◌++◌, Option, none, some,
}
use public_trash.Relay.HexDump.{Offsets, reset_offsets}

pub record Stats : Type 0 where
  pub sent_frames : ℕ
  pub received_frames : ℕ
  pub invalid_frames : ℕ
  pub connection_resets : ℕ

pub data StatKey : Type 0 where
  sent received invalid resets : StatKey

abbrev pub update_stats : Stats → StatKey → ℕ → Stats
update_stats s sent increment = record s { sent_frames = s.sent_frames + increment }
update_stats s received increment = record s { received_frames = s.received_frames + increment }
update_stats s invalid increment = record s { invalid_frames = s.invalid_frames + increment }
update_stats s resets increment = record s { connection_resets = s.connection_resets + increment }

-- A thread object: `some true` while it runs, `none` for Python's `None`.
abbrev pub Thread : Type 0
Thread = Option Bool

-- `last_received_count` is `none` for the initial -1. `closing` is `connection_active_flag`, which
-- is set to stop the threads. A socket is its number.
pub record Connection : Type 0 where
  pub closing : Bool
  pub sock : Option ℕ
  pub last_time_received : Option ℕ
  pub sender : Thread
  pub receiver : Thread
  pub count : ℕ
  pub last_received_count : Option ℕ
  pub stats : Stats
  pub offsets : Offsets

-- `Connection.__init__`.
abbrev pub new_connection : Connection
new_connection = record {
  closing = false;
  sock = none;
  last_time_received = none;
  sender = none;
  receiver = none;
  count = 0;
  last_received_count = none;
  stats = record {
    sent_frames = 0;
    received_frames = 0;
    invalid_frames = 0;
    connection_resets = 0;
  };
  offsets = record { tx_offset = 0; rx_offset = 0 };
}

-- Returns the number and the new state.
unfoldable pub get_next_count : Connection → ℕ × Connection
get_next_count c = (c.count, record c { count = c.count + 1 })

-- `start_threads`: both threads run on the socket.
unfoldable pub start_threads : Connection → ℕ → Connection
start_threads c sock = record c { sock = some sock; sender = some true; receiver = some true }

pub data Action : Type 0 where
  shuts_down closes : ℕ → Action
  joins_sender joins_receiver : Action

-- An exception of `shutdown` or `close` is caught, so both calls are made on every path.
abbrev pub close_socket : Option ℕ → List Action
close_socket none = []
close_socket (some s) = shuts_down s ∷ closes s ∷ []

abbrev pub join_thread : Thread → Action → List Action
join_thread (some true) a = a ∷ []
join_thread (some false) a = []
join_thread none a = []

-- What `cleanup` does to the outside, in order, and the new state.
unfoldable pub cleanup : Connection → List Action × Connection
unfolding reset_offsets
cleanup c = (
  close_socket c.sock
      ++ (join_thread c.sender joins_sender ++ join_thread c.receiver joins_receiver),
  record c {
    closing = true;
    sock = none;
    sender = none;
    receiver = none;
    offsets = reset_offsets c.offsets;
  },
)
