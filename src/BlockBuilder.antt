-- ===== src/BlockBuilder.antt =====
-- block-builder/src/block_builder.rs and error.rs: blocks that are built on the last one.
pub mod Built
pub mod Follows
use rust_eth_playground.Prelude.{
  ℕ, ◌*◌, List, [], ◌∷◌, none, some, get_elem?, ltb, Bytes, HashMap, bytes_eq, get, u64_mod, Result,
  ok, err, panic, ◌>>=◌, ◌>>◌, raise_if, ok_or, map_err, checked_add, checked_mul,
}
use rust_eth_playground.Types.Primitives.{Address, B256, Header, zero_array}
use rust_eth_playground.Types.Transaction.{Transaction, legacy, SignedTransaction, Block, max_cost}
use rust_eth_playground.Rlp.Item.{RlpError}
use rust_eth_playground.Signing.{Crypto, SigningError, hash_header, recover_sender}
use rust_eth_playground.Signing.Sign.{SigningKeys, sign}

pub record TransactionSpec : Type 0 where
  pub sender_index : ℕ
  pub recipient : Address
  pub value : ℕ
  pub gas_limit : ℕ

pub record BlockSpec : Type 0 where
  pub transactions : List TransactionSpec

pub record AccountSnapshot : Type 0 where
  pub address : Address
  pub nonce : ℕ
  pub balance : ℕ

-- The variants `Execution` and `Trie` are raised by no code.
pub data BuilderError : Type 0 where
  unknown_sender_index : ℕ → BuilderError
  missing_account_snapshot : Address → BuilderError
  insufficient_balance : Address → ℕ → ℕ → BuilderError
  overflow : BuilderError
  hashing : RlpError → BuilderError
  signing : SigningError → BuilderError

pub record BuilderState : Type 0 where
  pub signing_keys : List Bytes
  pub current_number : ℕ
  pub current_hash : B256
  pub genesis_timestamp : ℕ
  pub current_timestamp : ℕ
  pub chain_id : ℕ

pub record BlockBuilder : Type 0 where
  pub state : BuilderState
  pub genesis_gas_limit : ℕ

-- `GAS_PRICE`.
abbrev pub gas_price : ℕ
gas_price = 1000000000

-- `BlockBuilder::new`, which never fails.
abbrev pub new_builder : ℕ → B256 → ℕ → ℕ → List Bytes → Result BuilderError BlockBuilder
new_builder chain_id genesis_block_hash genesis_timestamp genesis_gas_limit signing_keys =
    ok (record {
      state = record {
        signing_keys = signing_keys;
        current_number = 0;
        current_hash = genesis_block_hash;
        genesis_timestamp = genesis_timestamp;
        current_timestamp = genesis_timestamp;
        chain_id = chain_id;
      };
      genesis_gas_limit = genesis_gas_limit;
    })

-- The time of a block: twelve seconds for each number.
unfoldable pub timestamp_of : ℕ → BuilderState → Result BuilderError ℕ
timestamp_of number state = do
  timestamp_offset ← ok_or (checked_mul u64_mod number 12) overflow
  ok_or (checked_add u64_mod state.genesis_timestamp timestamp_offset) overflow

-- The head is moved when its time is known.
abbrev pub move_head : ℕ → B256 → ℕ → BlockBuilder → BlockBuilder
move_head number hash timestamp b = record b {
  state = record (b.state) {
    current_number = number;
    current_hash = hash;
    current_timestamp = timestamp;
  };
}

abbrev moved :
    ℕ → B256 → BlockBuilder → Result BuilderError ℕ → Result BuilderError (Unit {0}) × BlockBuilder
moved number hash b (ok timestamp) = (ok tt, move_head number hash timestamp b)
moved number hash b (err e) = (err e, b)
moved number hash b panic = (panic, b)

unfoldable pub set_current_head :
    ℕ → B256 → BlockBuilder → Result BuilderError (Unit {0}) × BlockBuilder
set_current_head number hash b = moved number hash b (timestamp_of number b.state)

-- The transaction whose signature shows the address of a key.
abbrev pub sender_probe : Transaction
sender_probe = legacy (record {
  nonce = 0;
  gas_price = gas_price;
  gas_limit = 21000;
  to = none;
  value = 0;
  input = [];
})

-- The transfer of a spec.
abbrev pub transfer_of : TransactionSpec → AccountSnapshot → Transaction
transfer_of spec snapshot = legacy (record {
  nonce = snapshot.nonce;
  gas_price = gas_price;
  gas_limit = spec.gas_limit;
  to = some spec.recipient;
  value = spec.value;
  input = [];
})

-- The header of the next block, on the current head.
abbrev pub header_on : BlockBuilder → ℕ → ℕ → ℕ → Header
header_on b gas_used number timestamp = record {
  parent_hash = b.state.current_hash;
  beneficiary = zero_array 20;
  state_root = zero_array 32;
  transactions_root = zero_array 32;
  gas_limit = b.genesis_gas_limit;
  gas_used = gas_used;
  timestamp = timestamp;
  number = number;
}

-- What is written once a block is made.
abbrev pub finished :
    BlockBuilder → Result BuilderError (Block × B256) → Result BuilderError Block × BlockBuilder
finished b (ok (block, block_hash)) =
    (ok block, move_head block.header.number block_hash block.header.timestamp b)
finished b (err e) = (err e, b)
finished b panic = (panic, b)

module _ (crypto : Crypto) (keys : SigningKeys) where
  unfoldable pub sender_address : BuilderState → Bytes → Result BuilderError Address
  sender_address state private_key = do
    signed_transaction ← map_err signing (sign crypto keys sender_probe private_key state.chain_id)
    map_err signing (recover_sender crypto signed_transaction state.chain_id)

  unfoldable pub build_signed_transaction :
      BuilderState
      → TransactionSpec
      → HashMap Address AccountSnapshot
      → Result BuilderError SignedTransaction
  build_signed_transaction state spec account_snapshots = do
    private_key ←
        ok_or (get_elem? state.signing_keys spec.sender_index)
          (unknown_sender_index spec.sender_index)
    sender ← sender_address state private_key
    snapshot ← ok_or (get sender account_snapshots) (missing_account_snapshot sender)
    cost ← map_err (λ _. overflow) (max_cost (transfer_of spec snapshot))
    raise_if (ltb snapshot.balance cost) (insufficient_balance sender snapshot.balance cost)
    map_err signing (sign crypto keys (transfer_of spec snapshot) private_key state.chain_id)

  -- The loop over the specs, from the gas so far.
  unfoldable pub build_transactions :
      BuilderState
      → HashMap Address AccountSnapshot
      → List TransactionSpec
      → ℕ
      → Result BuilderError (ℕ × List SignedTransaction)
  build_transactions state account_snapshots [] gas_used = ok (gas_used, [])
  build_transactions state account_snapshots (spec ∷ specs) gas_used = do
    gas ← ok_or (checked_add u64_mod gas_used spec.gas_limit) overflow
    t ← build_signed_transaction state spec account_snapshots
    (total, ts) ← build_transactions state account_snapshots specs gas
    ok (total, t ∷ ts)

  -- The block and its hash, which `generate_block` makes before it writes its state.
  unfoldable pub next_block :
      BlockSpec
      → HashMap Address AccountSnapshot
      → BlockBuilder
      → Result BuilderError (Block × B256)
  next_block spec account_snapshots b = do
    (gas_used, transactions) ← build_transactions b.state account_snapshots spec.transactions 0
    number ← ok_or (checked_add u64_mod b.state.current_number 1) overflow
    timestamp ← timestamp_of number b.state
    let header = header_on b gas_used number timestamp
    block_hash ← map_err hashing (hash_header crypto header)
    ok (record { header = header; transactions = transactions }, block_hash)

  unfoldable pub generate_block :
      BlockSpec
      → HashMap Address AccountSnapshot
      → BlockBuilder
      → Result BuilderError Block × BlockBuilder
  generate_block spec account_snapshots b = finished b (next_block spec account_snapshots b)
