-- ===== src/Types.antt =====
-- core/types: the domain types that the other crates share.
pub mod Primitives
pub mod Transaction
pub mod Valid
pub mod Summary
pub mod Hex
pub mod Opcode
pub mod Genesis
