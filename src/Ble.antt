-- ===== src/Ble.antt =====
-- components/ble_manager: the message queues, the packet builder and parser, and the messages that
-- come in several chunks.
pub mod Message
pub mod Fifo
pub mod Tx
pub mod Rx
pub mod Link
pub mod Requests
pub mod Responses
pub mod Multichunk
pub mod Manager
mod Tests
