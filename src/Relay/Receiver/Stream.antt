-- ===== src/Relay/Receiver/Stream.antt =====
-- The receiver on a stream of frames: each frame is counted once, in order, however the stream is
-- cut into chunks.
pub mod Rounds
pub mod Chunks
