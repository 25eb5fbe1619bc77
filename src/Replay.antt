-- ===== src/Replay.antt =====
-- Replay of an ITCH stream into the exchange: src/replay of the engine.
pub mod Adapter
pub mod Parity
pub mod Replayer
mod Tests
