-- ===== src/Signing/Total.antt =====
-- core/rlp-codec/src/signing.rs: hashing a header or a transaction never fails.
use rust_eth_playground.Prelude.{◌≡◌, [], Bytes, ok}
use rust_eth_playground.Types.Primitives.{B256, Header}
use rust_eth_playground.Types.Transaction.{Transaction, legacy, eip1559, eip4844, SignedTransaction}
use rust_eth_playground.Rlp.Layout.{rlp, encode-rlp}
use rust_eth_playground.Codec.Blocks.{header_to_item}
use rust_eth_playground.Signing.{Crypto, to_wire, signed_transaction_hash, hash_header}

-- The hash of a header: of the RLP layout of its item.
abbrev pub header_hash : Crypto → Header → B256
header_hash crypto h = crypto.keccak256 (rlp (header_to_item h))

pub hash_header-header_hash :
    (crypto : Crypto) (h : Header) → hash_header crypto h ≡ ok (header_hash crypto h)
unfolding hash_header
hash_header-header_hash crypto h = rw (encode-rlp (header_to_item h) [])

to_wire_total : (tx : Transaction) (t : SignedTransaction) → (b : Bytes) × (to_wire tx t ≡ ok b)
unfolding to_wire
to_wire_total (legacy f) t = (_, encode-rlp _ [])
to_wire_total (eip1559 f) t = (_, encode-rlp _ _)
to_wire_total (eip4844 f) t = (_, encode-rlp _ _)

pub signed_transaction_hash_total :
    (crypto : Crypto) (t : SignedTransaction)
    → (h : B256) × (signed_transaction_hash crypto t ≡ ok h)
unfolding signed_transaction_hash
signed_transaction_hash_total crypto t =
    let (b, e) = to_wire_total t.transaction t in (crypto.keccak256 b, rw e)
