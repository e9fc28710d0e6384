-- ===== src/Networking/Codec.antt =====
-- core/networking/src/codec.rs: frames. A frame is its length in four bytes, and then the tag of a
-- message and the RLP list of its fields.
use rust_eth_playground.Prelude.{
  ℕ, ◌+◌, ◌*◌, ◌^◌, ◌%◌, Option, none, some, List, [], ◌∷◌, ◌++◌, length, take, drop, slice_to, ltb,
  ◌==◌, if◌then◌else◌, Bytes, Result, ok, err, panic, ◌>>=◌, ◌>>◌, raise_if, map_err, as_u8,
}
use rust_eth_playground.Prelude.Action
use rust_eth_playground.Rlp.BigEndian.{to_be, from_be}
use rust_eth_playground.Rlp.Encoder.{encode}
use rust_eth_playground.Rlp.Decoder.{decode}
use rust_eth_playground.Rlp.Item.{RlpItem, bytes, list, to_list, list_of, RlpError, unexpected_type}
use rust_eth_playground.Codec.Scalars.{
  index, expect_fields, u64_from_item, u128_from_item, address_from_item, b256_from_item,
}
use rust_eth_playground.Codec.Transactions.{fields_of, decode_list_of, transaction_from_item}
use rust_eth_playground.Codec.Blocks.{header_from_item, block_from_item}
use rust_eth_playground.Networking.Message.{
  Message, NetworkError, encode_failed, decode_failed, frame_too_large, ping, pong, status,
  transactions, get_block_headers, new_block, new_block_hashes, block_headers, disconnect,
  get_account_state, account_state, get_chain_head, chain_head, msg_ping, msg_pong, msg_status,
  msg_transactions, msg_get_block_headers, msg_new_block, msg_new_block_hashes, msg_block_headers,
  msg_disconnect, msg_get_account_state, msg_account_state, msg_get_chain_head, msg_chain_head,
}
use rust_eth_playground.Networking.Items.{announcement_from_item, message_to_item, reason_from_item}

-- `MAX_FRAME_SIZE`.
abbrev pub max_frame_size : ℕ
max_frame_size = 10 * 1024 * 1024

-- The frame of a message whose item is the list `x`.
unfoldable pub encode_list : List RlpItem → Bytes → Result NetworkError Bytes
encode_list x dst = do
  tag ← map_err decode_failed (index x 0 >>= u64_from_item)
  payload ← map_err encode_failed (encode (list_of (drop 1 x)) [])
  raise_if (ltb max_frame_size (1 + length payload)) (frame_too_large (1 + length payload))
  ok (dst ++ (to_be 4 ((1 + length payload) % 2 ^ 32) ++ (as_u8 tag ∷ payload)))

-- `Encoder::encode`.
abbrev encode_item_list : RlpItem → Bytes → Result NetworkError Bytes
encode_item_list (bytes x) dst = err (encode_failed (unexpected_type 0x80))
encode_item_list (list x) dst = encode_list (to_list x) dst

unfoldable pub encode_frame : Message → Bytes → Result NetworkError Bytes
encode_frame message dst = encode_item_list (message_to_item message) dst

-- The match of `Decoder::decode` on the tag, whose errors are all decoding errors.
unfoldable pub message_of_frame : ℕ → List RlpItem → Result RlpError Message
message_of_frame tag fields =
    if tag == msg_ping
    then (expect_fields 0 fields >> ok ping)
    else if tag == msg_pong
    then (expect_fields 0 fields >> ok pong)
    else if tag == msg_status
    then (do
      expect_fields 3 fields
      chain_id ← u64_from_item (← index fields 0)
      head_hash ← b256_from_item (← index fields 1)
      total_difficulty ← u128_from_item (← index fields 2)
      ok (status chain_id head_hash total_difficulty))
    else if tag == msg_transactions
    then (do
      expect_fields 1 fields
      txs ← decode_list_of transaction_from_item (← index fields 0)
      ok (transactions txs))
    else if tag == msg_get_block_headers
    then (do
      expect_fields 2 fields
      start_hash ← b256_from_item (← index fields 0)
      count ← u64_from_item (← index fields 1)
      ok (get_block_headers start_hash count))
    else if tag == msg_new_block
    then (do
      expect_fields 2 fields
      block ← block_from_item (← index fields 0)
      td ← u128_from_item (← index fields 1)
      ok (new_block block td))
    else if tag == msg_new_block_hashes
    then (do
      expect_fields 1 fields
      new_blocks ← decode_list_of announcement_from_item (← index fields 0)
      ok (new_block_hashes new_blocks))
    else if tag == msg_block_headers
    then (do
      expect_fields 1 fields
      headers ← decode_list_of header_from_item (← index fields 0)
      ok (block_headers headers))
    else if tag == msg_disconnect
    then (do
      expect_fields 1 fields
      reason ← reason_from_item (← index fields 0)
      ok (disconnect reason))
    else if tag == msg_get_account_state
    then (do
      expect_fields 1 fields
      address ← address_from_item (← index fields 0)
      ok (get_account_state address))
    else if tag == msg_account_state
    then (do
      expect_fields 3 fields
      address ← address_from_item (← index fields 0)
      nonce ← u64_from_item (← index fields 1)
      balance ← u128_from_item (← index fields 2)
      ok (account_state address nonce balance))
    else if tag == msg_get_chain_head
    then (expect_fields 0 fields >> ok get_chain_head)
    else if tag == msg_chain_head
    then (do
      expect_fields 3 fields
      number ← u64_from_item (← index fields 0)
      hash ← b256_from_item (← index fields 1)
      total_difficulty ← u128_from_item (← index fields 2)
      ok (chain_head number hash total_difficulty))
    else err (unexpected_type tag)

-- What `decode` does with a whole frame; `frame[0]` of an empty one panics.
unfoldable pub read_frame : Bytes → Result NetworkError (Option Message)
read_frame [] = panic
read_frame (tag ∷ payload) = do
  (decoded_payload, _) ← map_err decode_failed (decode payload)
  fields ← map_err decode_failed (fields_of decoded_payload)
  message ← map_err decode_failed (message_of_frame tag fields)
  ok (some message)

-- `BytesMut::advance` and `BytesMut::split_to`, which panic past the end of the buffer.
unfoldable pub advance : ℕ → Action.Action Bytes NetworkError (Unit {0})
advance n src = if ltb (length src) n then (panic, src) else (ok tt, drop n src)

unfoldable pub split_to : ℕ → Action.Action Bytes NetworkError Bytes
split_to n src = if ltb (length src) n then (panic, src) else (ok (take n src), drop n src)

-- A frame that has come whole is taken off the buffer and read.
unfoldable pub take_frame : ℕ → Action.Action Bytes NetworkError (Option Message)
take_frame frame_length =
    Action.◌>>=◌ (advance 4)
      λ _. Action.◌>>=◌ (split_to frame_length) λ frame. Action.lift (read_frame frame)

-- `Decoder::decode`, which takes a whole frame from the front of `src` or leaves it as it is.
unfoldable pub decode_frame : Action.Action Bytes NetworkError (Option Message)
decode_frame src =
    if ltb (length src) 4
    then (ok none, src)
    else Action.continue (slice_to 4 src, src)
        λ len_bytes src.
          let frame_length = from_be len_bytes in
          if ltb (length src) (4 + frame_length)
          then (ok none, src)
          else take_frame frame_length src
