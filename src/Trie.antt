-- ===== src/Trie.antt =====
-- core/rlp-codec/src/trie.rs: the Merkle Patricia trie. Nodes hold nibbles and values as byte
-- lists; a node's sixteen child slots are a list of their own.
pub mod Node
pub mod Hash
pub mod Diverge
pub mod Lookup
pub mod Fork
pub mod Insert
pub mod Update
pub mod Map
pub mod Keys
