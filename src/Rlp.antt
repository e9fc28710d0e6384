-- ===== src/Rlp.antt =====
-- core/rlp-codec: the RLP item, its encoder and decoder, and what they promise one another.
pub mod Item
pub mod BigEndian
pub mod Encoder
pub mod Decoder
pub mod Layout
pub mod Lengths
pub mod RoundTrip
pub mod Total
pub mod Sizes
