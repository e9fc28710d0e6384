-- ===== src/Codec.antt =====
-- core/rlp-codec/src/traits.rs: the RLP form of the domain types.
pub mod Scalars
pub mod Transactions
pub mod Blocks
pub mod RoundTrip
pub mod AccountBug
pub mod NoPanic
