-- ===== src/Cannode.antt =====
-- The CAN node, apps/mini_cannode: messages, the two CAN drivers behind cannode.h, the receive and
-- button threads, and `main` with its heartbeat.
pub mod Message
pub mod Driver
pub mod Chardev
pub mod Sock
pub mod Reads
pub mod Mixed
pub mod Receive
pub mod Button
pub mod Main
pub mod Network
mod Tests
