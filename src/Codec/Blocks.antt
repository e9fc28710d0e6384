-- ===== src/Codec/Blocks.antt =====
-- core/rlp-codec/src/traits.rs: headers, signed transactions, blocks and accounts as RLP items.
use rust_eth_playground.Prelude.{[], ◌∷◌, map, Result, ok, ◌>>=◌, ◌>>◌}
use rust_eth_playground.Types.Primitives.{Account, Header}
use rust_eth_playground.Types.Transaction.{SignedTransaction, Block}
use rust_eth_playground.Rlp.Item.{RlpItem, list_of, RlpError}
use rust_eth_playground.Codec.Scalars.{
  index, expect_fields, u64_to_item, u64_from_item, u128_to_item, u128_from_item, array_to_item,
  address_from_item, b256_from_item,
}
use rust_eth_playground.Codec.Transactions.{
  fields_of, decode_list_of, transaction_to_item, transaction_from_item,
}

unfoldable pub header_to_item : Header → RlpItem
header_to_item h = list_of (
    array_to_item h.parent_hash
    ∷ array_to_item h.beneficiary
    ∷ array_to_item h.state_root
    ∷ array_to_item h.transactions_root
    ∷ u64_to_item h.gas_limit
    ∷ u64_to_item h.gas_used
    ∷ u64_to_item h.timestamp
    ∷ u64_to_item h.number
    ∷ [])

unfoldable pub header_from_item : RlpItem → Result RlpError Header
header_from_item item = do
  x ← fields_of item
  expect_fields 8 x
  parent_hash ← b256_from_item (← index x 0)
  beneficiary ← address_from_item (← index x 1)
  state_root ← b256_from_item (← index x 2)
  transactions_root ← b256_from_item (← index x 3)
  gas_limit ← u64_from_item (← index x 4)
  gas_used ← u64_from_item (← index x 5)
  timestamp ← u64_from_item (← index x 6)
  number ← u64_from_item (← index x 7)
  ok (record {
    parent_hash = parent_hash;
    beneficiary = beneficiary;
    state_root = state_root;
    transactions_root = transactions_root;
    gas_limit = gas_limit;
    gas_used = gas_used;
    timestamp = timestamp;
    number = number;
  })

unfoldable pub signed_transaction_to_item : SignedTransaction → RlpItem
signed_transaction_to_item t = list_of (
    transaction_to_item t.transaction
    ∷ u64_to_item t.v
    ∷ array_to_item t.r
    ∷ array_to_item t.s
    ∷ [])

unfoldable pub signed_transaction_from_item : RlpItem → Result RlpError SignedTransaction
signed_transaction_from_item item = do
  x ← fields_of item
  expect_fields 4 x
  transaction ← transaction_from_item (← index x 0)
  v ← u64_from_item (← index x 1)
  r ← b256_from_item (← index x 2)
  s ← b256_from_item (← index x 3)
  ok (record { transaction = transaction; v = v; r = r; s = s })

unfoldable pub block_to_item : Block → RlpItem
block_to_item b =
    list_of (header_to_item b.header ∷ list_of (map signed_transaction_to_item b.transactions) ∷ [])

unfoldable pub block_from_item : RlpItem → Result RlpError Block
block_from_item item = do
  x ← fields_of item
  expect_fields 2 x
  header ← header_from_item (← index x 0)
  txs ← index x 1
  transactions ← decode_list_of signed_transaction_from_item txs
  ok (record { header = header; transactions = transactions })

unfoldable pub account_to_item : Account → RlpItem
account_to_item a =
    list_of (u128_to_item a.balance ∷ u64_to_item a.nonce ∷ array_to_item a.code_hash ∷ [])

-- All three fields are read from `x[0]`, as the source writes it.
unfoldable pub account_from_item : RlpItem → Result RlpError Account
account_from_item item = do
  x ← fields_of item
  expect_fields 3 x
  balance ← u128_from_item (← index x 0)
  nonce ← u64_from_item (← index x 0)
  code_hash ← b256_from_item (← index x 0)
  ok (record { balance = balance; nonce = nonce; code_hash = code_hash })
