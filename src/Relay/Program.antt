-- ===== src/Relay/Program.antt =====
-- OLD/threaded_ether_relay.py: `main`, with `disable_quickedit` and the state of the application.
-- The parser of the command line, the signals and the waits are left out.
pub mod Ends
use public_trash.Base.{
  ℕ, ◌-◌, Bool, true, false, ◌==◌, if◌then◌else◌, bit_and, bit_or, List, [], ◌++◌, Option, none,
  some,
}
use public_trash.Base.Texts.{Text, codes, text_eq}
use public_trash.Base.Words.{Endian, big, little}
use public_trash.Relay.Connection.{Action, Connection, new_connection, cleanup}
use public_trash.Relay.Server.{Server, Event, cleanup_server}
use public_trash.Relay.Server
use public_trash.Relay.Client.{ClientConnection, Turn, Step}
use public_trash.Relay.Client

-- `(mode & ~0x40) | 0x80` on a mode of 32 bits: `mode & ~0x40` is what is left without that bit.
unfoldable pub new_mode : ℕ → ℕ
new_mode mode = bit_or (mode - bit_and mode 0x40) 0x80

-- `disable_quickedit`: the mode of the console, `none` where it cannot be read, before and after.
unfoldable pub disable_quickedit : Bool → Option ℕ → Option ℕ
unfolding new_mode
disable_quickedit is_windows none = none
disable_quickedit is_windows (some mode) = if is_windows then some (new_mode mode) else some mode

-- `args.endian_fmt`.
abbrev pub endian_fmt : Text → Endian
endian_fmt endian = if text_eq endian (codes "big") then big else little

pub record AppState : Type 0 where
  pub is_shutdown : Bool
  pub mode_prefix : Text

abbrev pub set_mode : Bool → AppState → AppState
set_mode is_server app = record app { mode_prefix = if is_server then codes "S: " else codes "C: " }

-- How `connection.run()` ends, as the `try` block of `main` sees it.
pub data Ran : Type 0 where
  returned keyboard_interrupt raised : Ran

abbrev pub shut_down_by : Ran → AppState → AppState
shut_down_by keyboard_interrupt app = record app { is_shutdown = true }
shut_down_by returned app = app
shut_down_by raised app = app

-- In front of the `try` block.
abbrev pub prepared : Bool → AppState → AppState
prepared is_server app = record (set_mode is_server app) { is_shutdown = false }

abbrev pub new_server : Server
new_server = record { connection = new_connection; client_connections = [] }

abbrev pub new_client : ClientConnection
new_client = record { connection = new_connection; connection_attempts = 0 }

-- `main` as a server: what is closed and joined, and the two states.
unfoldable pub main_server : Ran → List Event → AppState → List Action × Server × AppState
unfolding cleanup_server
main_server ran events app =
    let (actions, server) = Server.run events new_server in
    let (last, cleaned) = cleanup_server server in
    (actions ++ last, cleaned, shut_down_by ran (prepared true app))

-- `main` as a client: the steps of the loop, and what the cleanup does.
unfoldable pub main_client :
    Ran → List Turn → AppState → List Step × List Action × Connection × AppState
main_client ran turns app =
    let (steps, client) = Client.run turns new_client in
    let (last, cleaned) = cleanup client.connection in
    (steps, last, cleaned, shut_down_by ran (prepared false app))
