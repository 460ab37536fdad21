-- ===== src/Examples.antt =====
-- Concrete inputs at which the theorems with hypotheses are applied.
mod Relay
mod Command
mod Peers
mod Folders
mod Headers
mod Certificates
mod Layouts
mod Tools
mod Scripts
