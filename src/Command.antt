-- ===== src/Command.antt =====
-- OLD/command_interface.py, the command server, and OLD/test_command_interface.py, its client.
pub mod Socket
pub mod Packet
pub mod Server
pub mod Client
pub mod Together
