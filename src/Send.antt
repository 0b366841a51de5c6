-- ===== src/Send.antt =====
-- The send path: SIsendt of src/rmr/si/src/si95/sisendt.c, and send_msg with what it calls of
-- src/rmr/si/src/sr_si_static.c.
pub mod Wire
pub mod Loop
pub mod Message
pub mod Clone
pub mod Realloc
pub mod Outcome
pub mod Blocked
pub mod Header
pub mod Words
pub mod Roundtrip
pub mod Bound
pub mod Copies
mod Tests
