-- ===== src/Controller.antt =====
-- The advisory controller: src/controller-events.ts and src/controller.ts. The children hold the
-- contracts, the event log and its replay, and what is proved about them.
pub mod Types
pub mod Schema
pub mod Errors
pub mod Semantics
pub mod Coherent
pub mod Log
pub mod Envelope
pub mod Ledger
pub mod Facts
pub mod Decisions
pub mod Apply
pub mod Replay
pub mod Checkpoint
pub mod Resume
pub mod Commands
mod Tests
pub mod Diagram
pub mod Advance
