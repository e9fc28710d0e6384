-- ===== src/Codec/Transactions.antt =====
-- core/rlp-codec/src/traits.rs: access lists and transactions as RLP items.
use rust_eth_playground.Prelude.{
  ℕ, Option, none, some, List, [], ◌∷◌, map, length, ◌==◌, if◌then◌else◌, Result, ok, err, ◌>>=◌,
  ◌>>◌, raise_if, map_result,
}
use rust_eth_playground.Types.Primitives.{Address}
use rust_eth_playground.Types.Transaction.{AccessListItem, Transaction, legacy, eip1559, eip4844}
use rust_eth_playground.Rlp.Item.{
  RlpItem, bytes, list, to_list, list_of, RlpError, invalid_length, unexpected_type,
}
use rust_eth_playground.Codec.Scalars.{
  index, expect_fields, u64_to_item, u64_from_item, u128_to_item, u128_from_item, vec_to_item,
  vec_from_item, array_to_item, address_from_item, b256_from_item,
}

-- The items of a list, and the error for a byte string.
abbrev pub fields_of : RlpItem → Result RlpError (List RlpItem)
fields_of (bytes x) = err (unexpected_type 0x80)
fields_of (list x) = ok (to_list x)

-- `decode_list_of`, and the loops that push `T::from_rlp_item(item)?`.
unfoldable pub decode_list_of {ℓ} :
    {A : Type ℓ} → (RlpItem → Result RlpError A) → RlpItem → Result RlpError (List A)
decode_list_of from_item item = fields_of item >>= λ x. map_result from_item x

unfoldable pub access_list_item_to_item : AccessListItem → RlpItem
access_list_item_to_item a =
    list_of (array_to_item a.address ∷ list_of (map array_to_item a.storage_keys) ∷ [])

unfoldable pub access_list_item_from_item : RlpItem → Result RlpError AccessListItem
access_list_item_from_item item = do
  x ← fields_of item
  expect_fields 2 x
  address ← address_from_item (← index x 0)
  keys ← index x 1
  storage_keys ← decode_list_of b256_from_item keys
  ok (record { address = address; storage_keys = storage_keys })

-- The match on `to`, and `encode_to` of signing.rs.
unfoldable pub to_item : Option Address → RlpItem
to_item (some x) = array_to_item x
to_item none = bytes []

-- `decode_to`.
unfoldable pub decode_to : RlpItem → Result RlpError (Option Address)
decode_to (bytes []) = ok none
decode_to (bytes (b ∷ rest)) = address_from_item (bytes (b ∷ rest)) >>= λ address. ok (some address)
decode_to (list x) = err (unexpected_type 0xc0)

unfoldable pub transaction_fields : Transaction → List RlpItem
transaction_fields (legacy f) =
    u64_to_item 0
    ∷ u64_to_item f.nonce
    ∷ u64_to_item f.gas_limit
    ∷ to_item f.to
    ∷ u128_to_item f.value
    ∷ vec_to_item f.input
    ∷ u128_to_item f.gas_price
    ∷ []
transaction_fields (eip1559 f) =
    u64_to_item 2
    ∷ u64_to_item f.nonce
    ∷ u64_to_item f.gas_limit
    ∷ to_item f.to
    ∷ u128_to_item f.value
    ∷ vec_to_item f.input
    ∷ u128_to_item f.max_fee_per_gas
    ∷ u128_to_item f.max_priority_fee_per_gas
    ∷ list_of (map access_list_item_to_item f.access_list)
    ∷ []
transaction_fields (eip4844 f) =
    u64_to_item 3
    ∷ u64_to_item f.nonce
    ∷ u64_to_item f.gas_limit
    ∷ to_item f.to
    ∷ u128_to_item f.value
    ∷ vec_to_item f.input
    ∷ u128_to_item f.max_fee_per_gas
    ∷ u128_to_item f.max_priority_fee_per_gas
    ∷ list_of (map access_list_item_to_item f.access_list)
    ∷ u128_to_item f.max_fee_per_blob_gas
    ∷ list_of (map array_to_item f.blob_versioned_hashes)
    ∷ []

unfoldable pub transaction_to_item : Transaction → RlpItem
transaction_to_item tx = list_of (transaction_fields tx)

-- The three arms of the match on the tag.
unfoldable pub legacy_from_fields : List RlpItem → Result RlpError Transaction
legacy_from_fields x = do
  expect_fields 7 x
  nonce ← u64_from_item (← index x 1)
  gas_limit ← u64_from_item (← index x 2)
  to ← decode_to (← index x 3)
  value ← u128_from_item (← index x 4)
  input ← vec_from_item (← index x 5)
  gas_price ← u128_from_item (← index x 6)
  ok (
      legacy (record {
        nonce = nonce;
        gas_price = gas_price;
        gas_limit = gas_limit;
        to = to;
        value = value;
        input = input;
      }))

unfoldable pub eip1559_from_fields : List RlpItem → Result RlpError Transaction
eip1559_from_fields x = do
  expect_fields 9 x
  nonce ← u64_from_item (← index x 1)
  gas_limit ← u64_from_item (← index x 2)
  to ← decode_to (← index x 3)
  value ← u128_from_item (← index x 4)
  input ← vec_from_item (← index x 5)
  max_fee ← u128_from_item (← index x 6)
  max_priority_fee ← u128_from_item (← index x 7)
  access_list ← decode_list_of access_list_item_from_item (← index x 8)
  ok (
      eip1559 (record {
        nonce = nonce;
        max_priority_fee_per_gas = max_priority_fee;
        max_fee_per_gas = max_fee;
        gas_limit = gas_limit;
        to = to;
        value = value;
        input = input;
        access_list = access_list;
      }))

unfoldable pub eip4844_from_fields : List RlpItem → Result RlpError Transaction
eip4844_from_fields x = do
  expect_fields 11 x
  nonce ← u64_from_item (← index x 1)
  gas_limit ← u64_from_item (← index x 2)
  to ← decode_to (← index x 3)
  value ← u128_from_item (← index x 4)
  input ← vec_from_item (← index x 5)
  max_fee ← u128_from_item (← index x 6)
  max_priority_fee ← u128_from_item (← index x 7)
  access_list ← decode_list_of access_list_item_from_item (← index x 8)
  max_blob_fee ← u128_from_item (← index x 9)
  hashes ← decode_list_of b256_from_item (← index x 10)
  ok (
      eip4844 (record {
        nonce = nonce;
        max_priority_fee_per_gas = max_priority_fee;
        max_fee_per_gas = max_fee;
        max_fee_per_blob_gas = max_blob_fee;
        gas_limit = gas_limit;
        to = to;
        value = value;
        input = input;
        access_list = access_list;
        blob_versioned_hashes = hashes;
      }))

unfoldable pub transaction_from_tag : ℕ → List RlpItem → Result RlpError Transaction
transaction_from_tag tag x =
    if tag == 0
    then legacy_from_fields x
    else if tag == 2
    then eip1559_from_fields x
    else if tag == 3
    then eip4844_from_fields x
    else err (unexpected_type 255)

unfoldable pub transaction_from_item : RlpItem → Result RlpError Transaction
transaction_from_item item = do
  x ← fields_of item
  raise_if (length x == 0) (invalid_length 0)
  tag ← u64_from_item (← index x 0)
  transaction_from_tag tag x
