-- ===== src/Networking/Message.antt =====
-- core/networking/src/message.rs, chain.rs, constants.rs and error.rs: messages between peers. A
-- `String` is the list of its bytes, which are UTF-8.
use rust_eth_playground.Prelude.{
  ℕ, ◌<◌, ◌^◌, ◌≡◌, Bool, true, false, ◌&&◌, Option, none, some, List, [], ◌∷◌, ◌==◌, leb,
  if◌then◌else◌, Bytes, All,
}
use rust_eth_playground.Types.Primitives.{Address, B256, Header, IsArray, IsHeader}
use rust_eth_playground.Types.Transaction.{Transaction, Block}
use rust_eth_playground.Types.Valid.{IsTransaction, IsBlock}
use rust_eth_playground.Rlp.Item.{RlpError}

abbrev pub msg_ping : ℕ
msg_ping = 0x00

abbrev pub msg_pong : ℕ
msg_pong = 0x01

abbrev pub msg_status : ℕ
msg_status = 0x02

abbrev pub msg_transactions : ℕ
msg_transactions = 0x03

abbrev pub msg_get_block_headers : ℕ
msg_get_block_headers = 0x04

abbrev pub msg_new_block : ℕ
msg_new_block = 0x07

abbrev pub msg_new_block_hashes : ℕ
msg_new_block_hashes = 0x08

abbrev pub msg_block_headers : ℕ
msg_block_headers = 0x09

abbrev pub msg_disconnect : ℕ
msg_disconnect = 0x0a

abbrev pub msg_get_account_state : ℕ
msg_get_account_state = 0x0b

abbrev pub msg_account_state : ℕ
msg_account_state = 0x0c

abbrev pub msg_get_chain_head : ℕ
msg_get_chain_head = 0x0d

abbrev pub msg_chain_head : ℕ
msg_chain_head = 0x0e

-- `Io`, `UnknownMessageType` and `PeerDisconnected` are raised by no code that is modelled.
pub data NetworkError : Type 0 where
  encode_failed : RlpError → NetworkError
  decode_failed : RlpError → NetworkError
  frame_too_large : ℕ → NetworkError

pub record BlockAnnouncement : Type 0 where
  pub hash : B256
  pub number : ℕ

-- The arguments are the fields of each variant, in the order of the source.
pub data Message : Type 0 where
  ping : Message
  pong : Message
  status : ℕ → B256 → ℕ → Message
  transactions : List Transaction → Message
  get_block_headers : B256 → ℕ → Message
  new_block : Block → ℕ → Message
  new_block_hashes : List BlockAnnouncement → Message
  block_headers : List Header → Message
  disconnect : Bytes → Message
  get_account_state : Address → Message
  account_state : Address → ℕ → ℕ → Message
  get_chain_head : Message
  chain_head : ℕ → B256 → ℕ → Message

-- `str::from_utf8`: the ranges of the bytes that must follow a first byte.
unfoldable pub continuation_ranges : ℕ → Option (List (ℕ × ℕ))
continuation_ranges b =
    if leb b 0x7f
    then some []
    else if leb b 0xc1
    then none
    else if leb b 0xdf
    then some ((0x80, 0xbf) ∷ [])
    else if b == 0xe0
    then some ((0xa0, 0xbf) ∷ (0x80, 0xbf) ∷ [])
    else if b == 0xed
    then some ((0x80, 0x9f) ∷ (0x80, 0xbf) ∷ [])
    else if leb b 0xef
    then some ((0x80, 0xbf) ∷ (0x80, 0xbf) ∷ [])
    else if b == 0xf0
    then some ((0x90, 0xbf) ∷ (0x80, 0xbf) ∷ (0x80, 0xbf) ∷ [])
    else if leb b 0xf3
    then some ((0x80, 0xbf) ∷ (0x80, 0xbf) ∷ (0x80, 0xbf) ∷ [])
    else if b == 0xf4
    then some ((0x80, 0x8f) ∷ (0x80, 0xbf) ∷ (0x80, 0xbf) ∷ [])
    else none

-- The bytes of a text after the first bytes of a character.
unfoldable pub is_utf8_after : List (ℕ × ℕ) → Bytes → Bool
is_utf8_after [] [] = true
is_utf8_after [] (b ∷ rest) = elim (continuation_ranges b) [
  | none ↦ false
  | some ranges ↦ is_utf8_after ranges rest
]
is_utf8_after (range ∷ ranges) [] = false
is_utf8_after ((low, high) ∷ ranges) (b ∷ rest) =
    let valid = is_utf8_after ranges rest in (leb low b && leb b high) && valid

unfoldable pub is_utf8 : Bytes → Bool
is_utf8 text = is_utf8_after [] text

-- The values of the Rust types.
abbrev pub IsAnnouncement : BlockAnnouncement → Type 0
IsAnnouncement a = IsArray 32 a.hash × (a.number < 2 ^ 64)

abbrev pub IsMessage : Message → Type 0
IsMessage ping = Unit
IsMessage pong = Unit
IsMessage (status chain_id head_hash total_difficulty) =
    (chain_id < 2 ^ 64) × IsArray 32 head_hash × (total_difficulty < 2 ^ 128)
IsMessage (transactions txs) = All IsTransaction txs
IsMessage (get_block_headers start_hash count) = IsArray 32 start_hash × (count < 2 ^ 64)
IsMessage (new_block block td) = IsBlock block × (td < 2 ^ 128)
IsMessage (new_block_hashes new_blocks) = All IsAnnouncement new_blocks
IsMessage (block_headers headers) = All IsHeader headers
IsMessage (disconnect reason) = is_utf8 reason ≡ true
IsMessage (get_account_state address) = IsArray 20 address
IsMessage (account_state address nonce balance) =
    IsArray 20 address × (nonce < 2 ^ 64) × (balance < 2 ^ 128)
IsMessage get_chain_head = Unit
IsMessage (chain_head number hash total_difficulty) =
    (number < 2 ^ 64) × IsArray 32 hash × (total_difficulty < 2 ^ 128)
