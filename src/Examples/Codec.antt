-- ===== src/Examples/Codec.antt =====
-- The theorems on the codec and on the summary at concrete items, transactions and blocks.
use rust_eth_playground.Prelude.{
  err, List, ◌<◌, ◌≤◌, ◌^◌, ◌⊎◌, ◌+◌, ◌≡◌, ◌≢◌, [], ◌∷◌, ◌++◌, Bytes, length, ok, panic, arith,
  replicate,
}
use rust_eth_playground.Rlp.Item.{RlpItem, bytes, list, cons, nil}
use rust_eth_playground.Rlp.Encoder.{encode, encoded_len}
use rust_eth_playground.Rlp.Decoder.{decode}
use rust_eth_playground.Rlp.Layout.{rlp, rlp_items, header, encode-rlp}
use rust_eth_playground.Rlp.BigEndian.{minimal_be}
use rust_eth_playground.Rlp.Lengths.{Fits, encode-encoded_len}
use rust_eth_playground.Rlp.RoundTrip.{decode-encode}
use rust_eth_playground.Rlp.Total.{IsProperSuffix, decode_total}
use rust_eth_playground.Types.Transaction.{
  Transaction, legacy, overflow, summarise_transactions, eip1559,
}
use rust_eth_playground.Types.Summary.{sum_values, sum_gas, summarise_transactions_sums}
use rust_eth_playground.Types.Valid.{IsTransaction, IsBlock}
use rust_eth_playground.Codec.Transactions.{transaction_to_item, transaction_from_item}
use rust_eth_playground.Codec.Blocks.{block_to_item, block_from_item, account_from_item}
use rust_eth_playground.Codec.RoundTrip.{
  transaction_from_item-transaction_to_item, block_from_item-block_to_item,
}
use rust_eth_playground.Codec.AccountBug.{account_from_item-ne-ok}
use rust_eth_playground.Examples.Data.{transfer_fields, typed_fields, child}

-- A list of a short string, an empty string and a string of 60 bytes.
abbrev nested : RlpItem
nested = list (cons (bytes (0x83 ∷ [])) (cons (bytes []) (cons (bytes (replicate 60 5)) nil)))

nested-Fits : Fits nested
unfolding rlp rlp_items header minimal_be
nested-Fits = omega arith

decode-encode_example :
    (out : Bytes) × (encode nested [] ≡ ok out)
    × (decode (out ++ (1 ∷ 2 ∷ [])) ≡ ok (nested, 1 ∷ 2 ∷ []))
decode-encode_example = decode-encode nested (1 ∷ 2 ∷ []) nested-Fits

decode_total_example :
    (decode (0xc3 ∷ 0x01 ∷ 0x80 ∷ []) ≢ panic)
    × ((item : RlpItem) (rest : Bytes)
        → decode (0xc3 ∷ 0x01 ∷ 0x80 ∷ []) ≡ ok (item, rest)
        → IsProperSuffix (0xc3 ∷ 0x01 ∷ 0x80 ∷ []) rest)
decode_total_example =
    decode_total (0xc3 ∷ 0x01 ∷ 0x80 ∷ []) (omega arith, (omega arith, (omega arith, tt)))

abbrev buffer : Bytes
buffer = 9 ∷ []

encode-rlp_example : encode nested buffer ≡ ok (buffer ++ rlp nested)
encode-rlp_example = encode-rlp nested buffer

encode-encoded_len_example :
    (out : Bytes) × (encode nested buffer ≡ ok out)
    × (length out ≡ length buffer + encoded_len nested)
encode-encoded_len_example = encode-encoded_len nested buffer nested-Fits

typed-IsTransaction : IsTransaction (eip1559 typed_fields)
typed-IsTransaction = omega arith

transaction_round_trip_example :
    transaction_from_item (transaction_to_item (eip1559 typed_fields)) ≡ ok (eip1559 typed_fields)
transaction_round_trip_example =
    transaction_from_item-transaction_to_item (eip1559 typed_fields) typed-IsTransaction

child-IsBlock : IsBlock child
child-IsBlock = omega arith

block_round_trip_example : block_from_item (block_to_item child) ≡ ok child
block_round_trip_example = block_from_item-block_to_item child child-IsBlock

account_example :
    account_from_item
      (list (cons (bytes (5 ∷ [])) (cons (bytes []) (cons (bytes (replicate 32 1)) nil))))
    ≢ ok (record { balance = 5; nonce = 0; code_hash = replicate 32 1 })
account_example =
    account_from_item-ne-ok
      (list (cons (bytes (5 ∷ [])) (cons (bytes []) (cons (bytes (replicate 32 1)) nil))))
      (record { balance = 5; nonce = 0; code_hash = replicate 32 1 })

abbrev two_transactions : List Transaction
two_transactions = eip1559 typed_fields ∷ legacy transfer_fields ∷ []

summarise_transactions_sums_example :
    (sum_values two_transactions < 2 ^ 128
      → sum_gas two_transactions < 2 ^ 64
      → summarise_transactions two_transactions
        ≡ ok
            (record { total_value = 100; total_gas_limit = 21021; create_count = 1; tx_count = 2 }))
    × ((2 ^ 128 ≤ sum_values two_transactions) ⊎ (2 ^ 64 ≤ sum_gas two_transactions)
        → summarise_transactions two_transactions ≡ err overflow)
summarise_transactions_sums_example = summarise_transactions_sums two_transactions
