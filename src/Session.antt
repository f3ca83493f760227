-- ===== src/Session.antt =====
-- src/massdata: the framing of the binary sessions.
pub mod Defs
pub mod Sender
pub mod Frames
pub mod Expects
pub mod Receiver
pub mod Faults
pub mod Rejected
pub mod Rounds
pub mod Ends
