-- ===== src/Rpc.antt =====
-- src/rpc.c: the messages of the service.
pub mod Objects
pub mod Requests
pub mod Unmarshal
pub mod Parsers
pub mod Valid
pub mod Sound
pub mod Tables
pub mod Requested
pub mod Encoded
pub mod RoundTrip
pub mod Faults
pub mod Marshal
