-- ===== src/Networking/Items.antt =====
-- core/networking/src/message.rs and chain.rs: messages as RLP items.
use rust_eth_playground.Prelude.{
  ℕ, List, [], ◌∷◌, map, length, ◌==◌, if◌then◌else◌, Bytes, Result, ok, err, ◌>>=◌, ◌>>◌, raise_if,
  as_u8,
}
use rust_eth_playground.Rlp.Item.{
  RlpItem, bytes, list, list_of, RlpError, invalid_length, unexpected_type, invalid_string,
}
use rust_eth_playground.Codec.Scalars.{
  index, expect_fields, u64_to_item, u64_from_item, u128_to_item, u128_from_item, array_to_item,
  address_from_item, b256_from_item,
}
use rust_eth_playground.Codec.Transactions.{
  fields_of, decode_list_of, transaction_to_item, transaction_from_item,
}
use rust_eth_playground.Codec.Blocks.{
  header_to_item, header_from_item, block_to_item, block_from_item,
}
use rust_eth_playground.Networking.Message.{
  BlockAnnouncement, Message, ping, pong, status, transactions, get_block_headers, new_block,
  new_block_hashes, block_headers, disconnect, get_account_state, account_state, get_chain_head,
  chain_head, is_utf8, msg_ping, msg_pong, msg_status, msg_transactions, msg_get_block_headers,
  msg_new_block, msg_new_block_hashes, msg_block_headers, msg_disconnect, msg_get_account_state,
  msg_account_state, msg_get_chain_head, msg_chain_head,
}

unfoldable pub announcement_to_item : BlockAnnouncement → RlpItem
announcement_to_item a = list_of (array_to_item a.hash ∷ u64_to_item a.number ∷ [])

unfoldable pub announcement_from_item : RlpItem → Result RlpError BlockAnnouncement
announcement_from_item item = do
  x ← fields_of item
  expect_fields 2 x
  hash ← b256_from_item (← index x 0)
  number ← u64_from_item (← index x 1)
  ok (record { hash = hash; number = number })

unfoldable pub message_to_item : Message → RlpItem
message_to_item ping = list_of (u64_to_item msg_ping ∷ [])
message_to_item pong = list_of (u64_to_item msg_pong ∷ [])
message_to_item (status chain_id head_hash total_difficulty) = list_of (
    u64_to_item msg_status
    ∷ u64_to_item chain_id
    ∷ array_to_item head_hash
    ∷ u128_to_item total_difficulty
    ∷ [])
message_to_item (transactions txs) =
    list_of (u64_to_item msg_transactions ∷ list_of (map transaction_to_item txs) ∷ [])
message_to_item (get_block_headers start_hash count) =
    list_of (u64_to_item msg_get_block_headers ∷ array_to_item start_hash ∷ u64_to_item count ∷ [])
message_to_item (new_block block td) =
    list_of (u64_to_item msg_new_block ∷ block_to_item block ∷ u128_to_item td ∷ [])
message_to_item (new_block_hashes new_blocks) =
    list_of (u64_to_item msg_new_block_hashes ∷ list_of (map announcement_to_item new_blocks) ∷ [])
message_to_item (block_headers headers) =
    list_of (u64_to_item msg_block_headers ∷ list_of (map header_to_item headers) ∷ [])
message_to_item (disconnect reason) = list_of (u64_to_item msg_disconnect ∷ bytes reason ∷ [])
message_to_item (get_account_state address) =
    list_of (u64_to_item msg_get_account_state ∷ array_to_item address ∷ [])
message_to_item (account_state address nonce balance) = list_of (
    u64_to_item msg_account_state
    ∷ array_to_item address
    ∷ u64_to_item nonce
    ∷ u128_to_item balance
    ∷ [])
message_to_item get_chain_head = list_of (u64_to_item msg_get_chain_head ∷ [])
message_to_item (chain_head number hash total_difficulty) = list_of (
    u64_to_item msg_chain_head
    ∷ u64_to_item number
    ∷ array_to_item hash
    ∷ u128_to_item total_difficulty
    ∷ [])

-- The reason of a disconnect message.
unfoldable pub reason_from_item : RlpItem → Result RlpError Bytes
reason_from_item (list x) = err (unexpected_type 0xc0)
reason_from_item (bytes b) = if is_utf8 b then ok b else err invalid_string

-- The branches of `from_rlp_item` on the tag. The fields follow the tag in `x`.
unfoldable pub message_from_tag : ℕ → List RlpItem → Result RlpError Message
message_from_tag tag x =
    if tag == msg_ping
    then (expect_fields 1 x >> ok ping)
    else if tag == msg_pong
    then (expect_fields 1 x >> ok pong)
    else if tag == msg_status
    then (do
      expect_fields 4 x
      chain_id ← u64_from_item (← index x 1)
      head_hash ← b256_from_item (← index x 2)
      total_difficulty ← u128_from_item (← index x 3)
      ok (status chain_id head_hash total_difficulty))
    else if tag == msg_transactions
    then (do
      expect_fields 2 x
      txs ← decode_list_of transaction_from_item (← index x 1)
      ok (transactions txs))
    else if tag == msg_get_block_headers
    then (do
      expect_fields 3 x
      start_hash ← b256_from_item (← index x 1)
      count ← u64_from_item (← index x 2)
      ok (get_block_headers start_hash count))
    else if tag == msg_new_block
    then (do
      expect_fields 3 x
      block ← block_from_item (← index x 1)
      td ← u128_from_item (← index x 2)
      ok (new_block block td))
    else if tag == msg_new_block_hashes
    then (do
      expect_fields 2 x
      new_blocks ← decode_list_of announcement_from_item (← index x 1)
      ok (new_block_hashes new_blocks))
    else if tag == msg_block_headers
    then (do
      expect_fields 2 x
      headers ← decode_list_of header_from_item (← index x 1)
      ok (block_headers headers))
    else if tag == msg_disconnect
    then (do expect_fields 2 x; reason ← reason_from_item (← index x 1); ok (disconnect reason))
    else if tag == msg_get_account_state
    then (do
      expect_fields 2 x
      address ← address_from_item (← index x 1)
      ok (get_account_state address))
    else if tag == msg_account_state
    then (do
      expect_fields 4 x
      address ← address_from_item (← index x 1)
      nonce ← u64_from_item (← index x 2)
      balance ← u128_from_item (← index x 3)
      ok (account_state address nonce balance))
    else if tag == msg_get_chain_head
    then (expect_fields 1 x >> ok get_chain_head)
    else if tag == msg_chain_head
    then (do
      expect_fields 4 x
      number ← u64_from_item (← index x 1)
      hash ← b256_from_item (← index x 2)
      total_difficulty ← u128_from_item (← index x 3)
      ok (chain_head number hash total_difficulty))
    else err (unexpected_type tag)

unfoldable pub message_from_item : RlpItem → Result RlpError Message
message_from_item item = do
  x ← fields_of item
  raise_if (length x == 0) (invalid_length 0)
  tag ← u64_from_item (← index x 0)
  message_from_tag (as_u8 tag) x
