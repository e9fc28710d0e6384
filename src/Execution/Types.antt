-- ===== src/Execution/Types.antt =====
-- core/execution/src/primitives.rs and error.rs: receipts and the errors of the crate.
use rust_eth_playground.Prelude.{ℕ, Bool, Option, List, Bytes}
use rust_eth_playground.Types.Primitives.{Address, B256, Bloom}
use rust_eth_playground.Types.Transaction.{TransactionError}
use rust_eth_playground.Rlp.Item.{RlpError}
use rust_eth_playground.Trie.Node.{TrieError}
use rust_eth_playground.Signing.{SigningError}

pub record Log : Type 0 where
  pub address : Address
  pub topics : List B256
  pub payload : Bytes

pub record Receipt : Type 0 where
  pub transaction_hash : B256
  pub transaction_index : ℕ
  pub block_hash : B256
  pub block_number : ℕ
  pub sender : Address
  pub to : Option Address
  pub contract_address : Option Address
  pub cumulative_gas_used : ℕ
  pub effective_gas_price : ℕ
  pub gas_used : ℕ
  pub status : Bool
  pub logs : List Log
  pub logs_bloom : Bloom

-- The arguments are the fields of each variant, in the order of the source.
pub data ExecutionError : Type 0 where
  block_not_found : ℕ → ExecutionError
  header_not_found : B256 → ExecutionError
  transaction_not_found : B256 → ExecutionError
  receipt_not_found : B256 → ExecutionError
  account_not_found : Address → ExecutionError
  invalid_parent_hash : B256 → B256 → ExecutionError
  gas_limit_exceeded : ℕ → ℕ → ExecutionError
  insufficient_balance : Address → ℕ → ℕ → ExecutionError
  invalid_nonce : Address → ℕ → ℕ → ExecutionError
  too_many_transactions : ℕ → ℕ → ExecutionError
  invalid_block_number : ℕ → ℕ → ExecutionError
  overflow : ExecutionError
  underflow : ExecutionError
  journal_already_set : ExecutionError
  transaction : TransactionError → ExecutionError
  signing : SigningError → ExecutionError
  root_compute : TrieError → ExecutionError
  rlp : RlpError → ExecutionError
