-- ===== src/Processor/State.antt =====
-- processor/src/errors.rs and block_processor.rs: the state of the block processor and its errors.
use rust_eth_playground.Prelude.{
  ℕ, List, [], ◌∷◌, HashMap, nat_eq, bytes_eq, Result, ok, err, panic, ◌>>=◌, map_err,
  wrapping_add_u64,
}
use rust_eth_playground.Prelude.Action
use rust_eth_playground.Types.Primitives.{Address, Account, ChainHead}
use rust_eth_playground.Types.Transaction.{Block}
use rust_eth_playground.Rlp.Item.{RlpError}
use rust_eth_playground.Rlp.Encoder.{encode}
use rust_eth_playground.Codec.Blocks.{account_to_item}
use rust_eth_playground.Trie.Node.{TrieError}
use rust_eth_playground.Signing.{Crypto, SigningError}
use rust_eth_playground.Execution.Types.{ExecutionError}
use rust_eth_playground.Execution.Provider.{
  InMemoryProvider, empty_provider, insert_block, set_account,
}

-- `reason` of `ValidationFailed` is a text made of the two timestamps, which stand here instead.
pub data ProcessorError : Type 0 where
  hashing : RlpError → ProcessorError
  execution : ExecutionError → ProcessorError
  trie : TrieError → ProcessorError
  signing : SigningError → ProcessorError
  shared_head_operation_failed : ProcessorError
  parent_not_found : ℕ → ProcessorError
  invalid_block_number : ℕ → ℕ → ProcessorError
  validation_failed : ℕ → ℕ → ProcessorError

-- The peer id is a number.
pub record PendingBlock : Type 0 where
  pub block : Block
  pub peer_id : ℕ

pub record Metrics : Type 0 where
  pub blocks_received : ℕ
  pub blocks_committed : ℕ
  pub blocks_rejected_validation : ℕ
  pub blocks_rejected_execution : ℕ
  pub transactions_committed : ℕ
  pub total_gas_committed : ℕ

abbrev pub zero_metrics : Metrics
zero_metrics = record {
  blocks_received = 0;
  blocks_committed = 0;
  blocks_rejected_validation = 0;
  blocks_rejected_execution = 0;
  transactions_committed = 0;
  total_gas_committed = 0;
}

-- The pipeline's provider is the field `provider`; its executor and its validator are fixed. The
-- shared head is the cell behind `shared_head`, which only the processor writes.
pub record BlockProcessor : Type 0 where
  pub pending_map : HashMap ℕ PendingBlock
  pub chain_id : ℕ
  pub chain_head : ChainHead
  pub provider : InMemoryProvider
  pub accounts : HashMap Address Account
  pub shared_head : ChainHead
  pub metrics : Metrics

abbrev pub ProcessorAction {ℓ} : Type ℓ → Type ℓ
ProcessorAction A = Action.Action BlockProcessor ProcessorError A

-- `fetch_add(1)` on each counter; atomics wrap.
abbrev pub count_received : BlockProcessor → BlockProcessor
count_received s = record s {
  metrics = record (s.metrics) { blocks_received = wrapping_add_u64 s.metrics.blocks_received 1 };
}

abbrev pub count_rejected_validation : BlockProcessor → BlockProcessor
count_rejected_validation s = record s {
  metrics = record (s.metrics) {
    blocks_rejected_validation = wrapping_add_u64 s.metrics.blocks_rejected_validation 1;
  };
}

abbrev pub count_rejected_execution : BlockProcessor → BlockProcessor
count_rejected_execution s = record s {
  metrics = record (s.metrics) {
    blocks_rejected_execution = wrapping_add_u64 s.metrics.blocks_rejected_execution 1;
  };
}

-- The loop of `new` that sets the initial accounts, and encodes each to no use.
unfoldable pub set_accounts :
    List (Address × Account) → InMemoryProvider → Result ProcessorError InMemoryProvider
set_accounts [] p = ok p
set_accounts ((address, account) ∷ rest) p =
    map_err hashing (encode (account_to_item account) []) >>= λ _.
    set_accounts rest (set_account address account p)

abbrev started_with :
    HashMap Address Account
    → ℕ
    → ChainHead
    → Result ExecutionError (Unit {0}) × InMemoryProvider
    → Result ProcessorError BlockProcessor
started_with accounts chain_id head (err e, p) = err (execution e)
started_with accounts chain_id head (panic, p) = panic
started_with accounts chain_id head (ok _, p) = set_accounts accounts p >>= λ provider. ok (record {
  pending_map = [];
  chain_id = chain_id;
  chain_head = head;
  provider = provider;
  accounts = accounts;
  shared_head = head;
  metrics = zero_metrics;
})

-- `BlockProcessor::new`.
unfoldable pub new_processor :
    Crypto → Block → HashMap Address Account → ℕ → ChainHead → Result ProcessorError BlockProcessor
unfolding set_accounts
new_processor crypto genesis_block initial_accounts chain_id shared_head =
    started_with initial_accounts chain_id shared_head
      (insert_block crypto genesis_block empty_provider)
