-- ===== src/Execution.antt =====
-- core/execution: providers, validators, the executor and the pipeline.
pub mod Types
pub mod Provider
pub mod Validator
pub mod Monad
pub mod Executor
pub mod Pipeline
pub mod Journal
pub mod Atomic
pub mod Balances
pub mod Accept
pub mod Insert
pub mod Create
pub mod Charge
pub mod Cached
