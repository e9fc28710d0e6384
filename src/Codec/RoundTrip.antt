-- ===== src/Codec/RoundTrip.antt =====
-- core/rlp-codec/src/traits.rs: what `to_rlp_item` writes, `from_rlp_item` reads back.
use rust_eth_playground.Prelude.{
  ◌≡◌, refl, Option, none, some, List, [], ◌∷◌, map, Bytes, Result, ok, map_result, All, arith,
}
use rust_eth_playground.Types.Primitives.{Address, Header, IsArray, IsHeader}
use rust_eth_playground.Types.Transaction.{
  AccessListItem, LegacyFields, Eip1559Fields, Eip4844Fields, Transaction, legacy, eip1559, eip4844,
  SignedTransaction, Block,
}
use rust_eth_playground.Types.Valid.{
  IsAccessListItem, IsRecipient, IsLegacy, IsEip1559, IsEip4844, IsTransaction, IsSignedTransaction,
  IsBlock,
}
use rust_eth_playground.Rlp.Item.{RlpItem, list_of, to_list-of_list, RlpError}
use rust_eth_playground.Codec.Scalars.{
  array_to_item, b256_from_item, u64_from_item-u64_to_item, u128_from_item-u128_to_item,
  vec_from_item-vec_to_item, array_from_item-array_to_item,
}
use rust_eth_playground.Codec.Transactions.{
  decode_list_of, access_list_item_to_item, access_list_item_from_item, to_item, decode_to,
  transaction_fields, transaction_to_item, legacy_from_fields, eip1559_from_fields,
  eip4844_from_fields, transaction_from_tag, transaction_from_item,
}
use rust_eth_playground.Codec.Blocks.{
  header_to_item, header_from_item, signed_transaction_to_item, signed_transaction_from_item,
  block_to_item, block_from_item,
}

-- A list is read back when each of its items is.
module _ {A : Type 0} (to : A → RlpItem) (from : RlpItem → Result RlpError A) (P : A → Type 0)
    (from-to : (a : A) → P a → from (to a) ≡ ok a) where
  map_result-map : (xs : List A) → All P xs → map_result from (map to xs) ≡ ok xs
  map_result-map [] h = refl
  map_result-map (x ∷ xs) h = rw (from-to x h.0, map_result-map xs h.1)

  pub decode_list_of-map :
      (xs : List A) → All P xs → decode_list_of from (list_of (map to xs)) ≡ ok xs
  unfolding decode_list_of
  decode_list_of-map xs h = rw (to_list-of_list (map to xs)) (map_result-map xs h)

b256_list :
    (xs : List Bytes)
    → All (IsArray 32) xs
    → decode_list_of b256_from_item (list_of (map array_to_item xs)) ≡ ok xs
b256_list xs h =
    decode_list_of-map array_to_item b256_from_item (IsArray 32) (array_from_item-array_to_item 32)
      xs h

access_list_item_from-to :
    (a : AccessListItem)
    → IsAccessListItem a
    → access_list_item_from_item (access_list_item_to_item a) ≡ ok a
unfolding access_list_item_from_item access_list_item_to_item
access_list_item_from-to a h =
    rw (array_from_item-array_to_item 20 a.address h.0, b256_list a.storage_keys h.1)

access_list :
    (xs : List AccessListItem)
    → All IsAccessListItem xs
    → decode_list_of access_list_item_from_item (list_of (map access_list_item_to_item xs)) ≡ ok xs
access_list xs h =
    decode_list_of-map access_list_item_to_item access_list_item_from_item IsAccessListItem
      access_list_item_from-to xs h

decode_to-to_item : (to : Option Address) → IsRecipient to → decode_to (to_item to) ≡ ok to
unfolding decode_to to_item array_to_item
decode_to-to_item none h = refl
decode_to-to_item (some []) h = absurd (omega (arith, h.0))
decode_to-to_item (some (b ∷ rest)) h = rw (array_from_item-array_to_item 20 (b ∷ rest) h)

legacy_from-to :
    (f : LegacyFields)
    → IsLegacy f
    → transaction_from_item (transaction_to_item (legacy f)) ≡ ok (legacy f)
unfolding transaction_from_item transaction_to_item transaction_fields transaction_from_tag
    legacy_from_fields
legacy_from-to f h = rw (
  u64_from_item-u64_to_item 0 (omega arith),
  u64_from_item-u64_to_item f.nonce h.nonce_fits,
  u64_from_item-u64_to_item f.gas_limit h.gas_limit_fits,
  decode_to-to_item f.to h.to_array,
  u128_from_item-u128_to_item f.value h.value_fits,
  vec_from_item-vec_to_item f.input,
  u128_from_item-u128_to_item f.gas_price h.gas_price_fits,
)

eip1559_from-to :
    (f : Eip1559Fields)
    → IsEip1559 f
    → transaction_from_item (transaction_to_item (eip1559 f)) ≡ ok (eip1559 f)
unfolding transaction_from_item transaction_to_item transaction_fields transaction_from_tag
    eip1559_from_fields
eip1559_from-to f h = rw (
  u64_from_item-u64_to_item 2 (omega arith),
  u64_from_item-u64_to_item f.nonce h.nonce_fits,
  u64_from_item-u64_to_item f.gas_limit h.gas_limit_fits,
  decode_to-to_item f.to h.to_array,
  u128_from_item-u128_to_item f.value h.value_fits,
  vec_from_item-vec_to_item f.input,
  u128_from_item-u128_to_item f.max_fee_per_gas h.max_fee_fits,
  u128_from_item-u128_to_item f.max_priority_fee_per_gas h.max_priority_fee_fits,
  access_list f.access_list h.access_list_valid,
)

eip4844_from-to :
    (f : Eip4844Fields)
    → IsEip4844 f
    → transaction_from_item (transaction_to_item (eip4844 f)) ≡ ok (eip4844 f)
unfolding transaction_from_item transaction_to_item transaction_fields transaction_from_tag
    eip4844_from_fields
eip4844_from-to f h = rw (
  u64_from_item-u64_to_item 3 (omega arith),
  u64_from_item-u64_to_item f.nonce h.nonce_fits,
  u64_from_item-u64_to_item f.gas_limit h.gas_limit_fits,
  decode_to-to_item f.to h.to_array,
  u128_from_item-u128_to_item f.value h.value_fits,
  vec_from_item-vec_to_item f.input,
  u128_from_item-u128_to_item f.max_fee_per_gas h.max_fee_fits,
  u128_from_item-u128_to_item f.max_priority_fee_per_gas h.max_priority_fee_fits,
  access_list f.access_list h.access_list_valid,
  u128_from_item-u128_to_item f.max_fee_per_blob_gas h.max_blob_fee_fits,
  b256_list f.blob_versioned_hashes h.hashes_valid,
)

-- A transaction of any of the three types, within the ranges of its fields, is read back from its
-- item.
pub transaction_from_item-transaction_to_item :
    (tx : Transaction) → IsTransaction tx → transaction_from_item (transaction_to_item tx) ≡ ok tx
transaction_from_item-transaction_to_item (legacy f) h = legacy_from-to f h
transaction_from_item-transaction_to_item (eip1559 f) h = eip1559_from-to f h
transaction_from_item-transaction_to_item (eip4844 f) h = eip4844_from-to f h

pub header_from_item-header_to_item :
    (h : Header) → IsHeader h → header_from_item (header_to_item h) ≡ ok h
unfolding header_from_item header_to_item
header_from_item-header_to_item h v = rw (
  array_from_item-array_to_item 32 h.parent_hash v.parent_hash_array,
  array_from_item-array_to_item 20 h.beneficiary v.beneficiary_array,
  array_from_item-array_to_item 32 h.state_root v.state_root_array,
  array_from_item-array_to_item 32 h.transactions_root v.transactions_root_array,
  u64_from_item-u64_to_item h.gas_limit v.gas_limit_fits,
  u64_from_item-u64_to_item h.gas_used v.gas_used_fits,
  u64_from_item-u64_to_item h.timestamp v.timestamp_fits,
  u64_from_item-u64_to_item h.number v.number_fits,
)

signed_transaction_from-to :
    (t : SignedTransaction)
    → IsSignedTransaction t
    → signed_transaction_from_item (signed_transaction_to_item t) ≡ ok t
unfolding signed_transaction_from_item signed_transaction_to_item
signed_transaction_from-to t h = rw (
  transaction_from_item-transaction_to_item t.transaction h.transaction_valid,
  u64_from_item-u64_to_item t.v h.v_fits,
  array_from_item-array_to_item 32 t.r h.r_array,
  array_from_item-array_to_item 32 t.s h.s_array,
)

-- A block whose header, transactions and signatures are within the ranges of their fields is read
-- back from its item.
pub block_from_item-block_to_item :
    (b : Block) → IsBlock b → block_from_item (block_to_item b) ≡ ok b
unfolding block_from_item block_to_item
block_from_item-block_to_item b h = rw (
  header_from_item-header_to_item b.header h.header_valid,
  decode_list_of-map signed_transaction_to_item signed_transaction_from_item IsSignedTransaction
      signed_transaction_from-to b.transactions h.transactions_valid,
)
