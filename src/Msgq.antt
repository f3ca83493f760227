-- ===== src/Msgq.antt =====
-- src/msgq.cpp: the queue of messages to each peer.
pub mod Defs
pub mod Maps
pub mod Invariant
pub mod Spec
pub mod Fifo
pub mod Drain
