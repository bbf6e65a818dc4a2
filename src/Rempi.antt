-- ===== src/Rempi.antt =====
-- The ReMPI library (src/rempi): a child for each part of it that is modelled.
pub mod Compression
pub mod Event
pub mod EventList
pub mod Encoder
pub mod Cdc
pub mod SpscQueue
pub mod Clock
pub mod Messages
pub mod Requests
pub mod Recorder
pub mod Footer
mod Tests
