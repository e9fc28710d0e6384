-- ===== src/Examples.antt =====
-- The theorems at concrete inputs.
pub mod Data
pub mod Codec
pub mod Execution
pub mod Processor
pub mod Signing
pub mod Networking
pub mod Cached
pub mod Peers
pub mod BlockBuilder
pub mod Trie
pub mod Types
