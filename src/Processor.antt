-- ===== src/Processor.antt =====
-- processor: the block processor, which owns the canonical chain and its state.
pub mod State
pub mod Process
pub mod Steps
pub mod Chain
pub mod Creations
pub mod Valid
pub mod Extend
pub mod Drain
pub mod Run
pub mod Safety
pub mod Rounds
pub mod New
pub mod Accepts
