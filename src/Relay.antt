-- ===== src/Relay.antt =====
-- OLD/threaded_ether_relay.py: the threaded TCP client and server.
pub mod Frame
pub mod HexDump
pub mod Connection
pub mod Receiver
pub mod Sender
pub mod Client
pub mod Server
pub mod Program
pub mod Together
