-- ===== src/Networking/RoundTrip.antt =====
-- core/networking/src/message.rs and codec.rs: the tags and the fields of messages, and reading
-- them back.
use rust_eth_playground.Prelude.{
  ℕ, ◌≡◌, ◌<◌, refl, List, [], ◌∷◌, map, ok, as_u8, arith, length, ◌==◌, false,
}
use rust_eth_playground.Types.Primitives.{IsHeader}
use rust_eth_playground.Types.Valid.{IsTransaction}
use rust_eth_playground.Rlp.Item.{RlpItem, bytes, list_of, to_list-of_list}
use rust_eth_playground.Codec.Scalars.{
  u64_to_item, u128_to_item, array_to_item, u64_from_item-u64_to_item, u128_from_item-u128_to_item,
  array_from_item-array_to_item,
}
use rust_eth_playground.Codec.Transactions.{transaction_to_item, transaction_from_item}
use rust_eth_playground.Codec.Blocks.{header_to_item, header_from_item, block_to_item}
use rust_eth_playground.Codec.RoundTrip.{
  decode_list_of-map, transaction_from_item-transaction_to_item, header_from_item-header_to_item,
  block_from_item-block_to_item,
}
use rust_eth_playground.Networking.Message.{
  BlockAnnouncement, Message, ping, pong, status, transactions, get_block_headers, new_block,
  new_block_hashes, block_headers, disconnect, get_account_state, account_state, get_chain_head,
  chain_head, msg_ping, msg_pong, msg_status, msg_transactions, msg_get_block_headers,
  msg_new_block, msg_new_block_hashes, msg_block_headers, msg_disconnect, msg_get_account_state,
  msg_account_state, msg_get_chain_head, msg_chain_head, IsAnnouncement, IsMessage,
}
use rust_eth_playground.Networking.Items.{
  announcement_to_item, announcement_from_item, message_to_item, reason_from_item, message_from_tag,
  message_from_item,
}
use rust_eth_playground.Networking.Codec.{message_of_frame}

-- The tag of a message, and its fields.
abbrev pub tag_of : Message → ℕ
tag_of ping = msg_ping
tag_of pong = msg_pong
tag_of (status chain_id head_hash total_difficulty) = msg_status
tag_of (transactions txs) = msg_transactions
tag_of (get_block_headers start_hash count) = msg_get_block_headers
tag_of (new_block block td) = msg_new_block
tag_of (new_block_hashes new_blocks) = msg_new_block_hashes
tag_of (block_headers headers) = msg_block_headers
tag_of (disconnect reason) = msg_disconnect
tag_of (get_account_state address) = msg_get_account_state
tag_of (account_state address nonce balance) = msg_account_state
tag_of get_chain_head = msg_get_chain_head
tag_of (chain_head number hash total_difficulty) = msg_chain_head

abbrev pub payload_of : Message → List RlpItem
payload_of ping = []
payload_of pong = []
payload_of (status chain_id head_hash total_difficulty) =
    u64_to_item chain_id ∷ array_to_item head_hash ∷ u128_to_item total_difficulty ∷ []
payload_of (transactions txs) = list_of (map transaction_to_item txs) ∷ []
payload_of (get_block_headers start_hash count) = array_to_item start_hash ∷ u64_to_item count ∷ []
payload_of (new_block block td) = block_to_item block ∷ u128_to_item td ∷ []
payload_of (new_block_hashes new_blocks) = list_of (map announcement_to_item new_blocks) ∷ []
payload_of (block_headers headers) = list_of (map header_to_item headers) ∷ []
payload_of (disconnect reason) = bytes reason ∷ []
payload_of (get_account_state address) = array_to_item address ∷ []
payload_of (account_state address nonce balance) =
    array_to_item address ∷ u64_to_item nonce ∷ u128_to_item balance ∷ []
payload_of get_chain_head = []
payload_of (chain_head number hash total_difficulty) =
    u64_to_item number ∷ array_to_item hash ∷ u128_to_item total_difficulty ∷ []

pub announcement_from_item-announcement_to_item :
    (a : BlockAnnouncement)
    → IsAnnouncement a
    → announcement_from_item (announcement_to_item a) ≡ ok a
unfolding announcement_from_item announcement_to_item
announcement_from_item-announcement_to_item a h =
    rw (array_from_item-array_to_item 32 a.hash h.0, u64_from_item-u64_to_item a.number h.1) refl

pub message_to_item-payload_of :
    (m : Message) → message_to_item m ≡ list_of (u64_to_item (tag_of m) ∷ payload_of m)
unfolding message_to_item
message_to_item-payload_of ping = refl
message_to_item-payload_of pong = refl
message_to_item-payload_of (status chain_id head_hash total_difficulty) = refl
message_to_item-payload_of (transactions txs) = refl
message_to_item-payload_of (get_block_headers start_hash count) = refl
message_to_item-payload_of (new_block block td) = refl
message_to_item-payload_of (new_block_hashes new_blocks) = refl
message_to_item-payload_of (block_headers headers) = refl
message_to_item-payload_of (disconnect reason) = refl
message_to_item-payload_of (get_account_state address) = refl
message_to_item-payload_of (account_state address nonce balance) = refl
message_to_item-payload_of get_chain_head = refl
message_to_item-payload_of (chain_head number hash total_difficulty) = refl

pub message_from_tag-payload_of :
    (m : Message)
    → IsMessage m
    → message_from_tag (tag_of m) (u64_to_item (tag_of m) ∷ payload_of m) ≡ ok m
unfolding message_from_tag reason_from_item
message_from_tag-payload_of ping h = refl
message_from_tag-payload_of pong h = refl
message_from_tag-payload_of (status chain_id head_hash total_difficulty) h =
    rw
      (
        u64_from_item-u64_to_item chain_id h.0,
        array_from_item-array_to_item 32 head_hash h.1,
        u128_from_item-u128_to_item total_difficulty h.2,
      )
      refl
message_from_tag-payload_of (transactions txs) h =
    rw
      (decode_list_of-map transaction_to_item transaction_from_item IsTransaction
        transaction_from_item-transaction_to_item txs h)
      refl
message_from_tag-payload_of (get_block_headers start_hash count) h =
    rw (array_from_item-array_to_item 32 start_hash h.0, u64_from_item-u64_to_item count h.1) refl
message_from_tag-payload_of (new_block block td) h =
    rw (block_from_item-block_to_item block h.0, u128_from_item-u128_to_item td h.1) refl
message_from_tag-payload_of (new_block_hashes new_blocks) h =
    rw
      (decode_list_of-map announcement_to_item announcement_from_item IsAnnouncement
        announcement_from_item-announcement_to_item new_blocks h)
      refl
message_from_tag-payload_of (block_headers headers) h =
    rw
      (decode_list_of-map header_to_item header_from_item IsHeader header_from_item-header_to_item
        headers h)
      refl
message_from_tag-payload_of (disconnect reason) h = rw (h) refl
message_from_tag-payload_of (get_account_state address) h =
    rw (array_from_item-array_to_item 20 address h) refl
message_from_tag-payload_of (account_state address nonce balance) h =
    rw
      (
        array_from_item-array_to_item 20 address h.0,
        u64_from_item-u64_to_item nonce h.1,
        u128_from_item-u128_to_item balance h.2,
      )
      refl
message_from_tag-payload_of get_chain_head h = refl
message_from_tag-payload_of (chain_head number hash total_difficulty) h =
    rw
      (
        u64_from_item-u64_to_item number h.0,
        array_from_item-array_to_item 32 hash h.1,
        u128_from_item-u128_to_item total_difficulty h.2,
      )
      refl

pub message_of_frame-payload_of :
    (m : Message) → IsMessage m → message_of_frame (tag_of m) (payload_of m) ≡ ok m
unfolding message_of_frame reason_from_item
message_of_frame-payload_of ping h = refl
message_of_frame-payload_of pong h = refl
message_of_frame-payload_of (status chain_id head_hash total_difficulty) h =
    rw
      (
        u64_from_item-u64_to_item chain_id h.0,
        array_from_item-array_to_item 32 head_hash h.1,
        u128_from_item-u128_to_item total_difficulty h.2,
      )
      refl
message_of_frame-payload_of (transactions txs) h =
    rw
      (decode_list_of-map transaction_to_item transaction_from_item IsTransaction
        transaction_from_item-transaction_to_item txs h)
      refl
message_of_frame-payload_of (get_block_headers start_hash count) h =
    rw (array_from_item-array_to_item 32 start_hash h.0, u64_from_item-u64_to_item count h.1) refl
message_of_frame-payload_of (new_block block td) h =
    rw (block_from_item-block_to_item block h.0, u128_from_item-u128_to_item td h.1) refl
message_of_frame-payload_of (new_block_hashes new_blocks) h =
    rw
      (decode_list_of-map announcement_to_item announcement_from_item IsAnnouncement
        announcement_from_item-announcement_to_item new_blocks h)
      refl
message_of_frame-payload_of (block_headers headers) h =
    rw
      (decode_list_of-map header_to_item header_from_item IsHeader header_from_item-header_to_item
        headers h)
      refl
message_of_frame-payload_of (disconnect reason) h = rw (h) refl
message_of_frame-payload_of (get_account_state address) h =
    rw (array_from_item-array_to_item 20 address h) refl
message_of_frame-payload_of (account_state address nonce balance) h =
    rw
      (
        array_from_item-array_to_item 20 address h.0,
        u64_from_item-u64_to_item nonce h.1,
        u128_from_item-u128_to_item balance h.2,
      )
      refl
message_of_frame-payload_of get_chain_head h = refl
message_of_frame-payload_of (chain_head number hash total_difficulty) h =
    rw
      (
        u64_from_item-u64_to_item number h.0,
        array_from_item-array_to_item 32 hash h.1,
        u128_from_item-u128_to_item total_difficulty h.2,
      )
      refl

pub tag_fits : (m : Message) → tag_of m < 256
tag_fits ping = omega arith
tag_fits pong = omega arith
tag_fits (status chain_id head_hash total_difficulty) = omega arith
tag_fits (transactions txs) = omega arith
tag_fits (get_block_headers start_hash count) = omega arith
tag_fits (new_block block td) = omega arith
tag_fits (new_block_hashes new_blocks) = omega arith
tag_fits (block_headers headers) = omega arith
tag_fits (disconnect reason) = omega arith
tag_fits (get_account_state address) = omega arith
tag_fits (account_state address nonce balance) = omega arith
tag_fits get_chain_head = omega arith
tag_fits (chain_head number hash total_difficulty) = omega arith

-- A message whose fields are values of their Rust types is read back from its item.
pub message_from_item-message_to_item :
    (m : Message) → IsMessage m → message_from_item (message_to_item m) ≡ ok m
unfolding message_from_item
message_from_item-message_to_item m h =
    let small : as_u8 (tag_of m) ≡ tag_of m = omega (arith, tag_fits m) in
    let some_fields : (length (u64_to_item (tag_of m) ∷ payload_of m) == 0) ≡ false =
      ground arith in
    rw
      (
        message_to_item-payload_of m,
        to_list-of_list (payload_of m),
        u64_from_item-u64_to_item (tag_of m) (omega (arith, tag_fits m)),
        some_fields,
        small,
      )
      (message_from_tag-payload_of m h)
