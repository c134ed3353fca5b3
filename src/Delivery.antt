-- ===== src/Delivery.antt =====
-- Delivery of stored batches to the backend (apps/listener/batch_delivery.py) and the replay of dead
-- letters (apps/listener/replay_batches.py). The JSON text and the UUID parser are the standard
-- library's: `loads`, `dumps` and `is_uuid` are arguments.
pub mod Batch
pub mod Send
pub mod Streams
pub mod Replay
pub mod Adopt
