-- ===== src/Processor/Process.antt =====
-- processor/src/block_processor.rs: processing a block, the pending queue, and the messages. The
-- `+ 1` on block numbers wraps, as in a release build.
use rust_eth_playground.Prelude.{
  ℕ, zero, suc, List, Bool, true, false, not, none, some, length, leb, ◌==◌, get, insert, remove,
  nat_eq, Result, ok, err, panic, map_err, wrapping_add_u64, wrapping_add_u128, map_result,
}
use rust_eth_playground.Prelude.Action.{continue, ◌>>=◌, ◌>>◌, lift, reads, modify}
use rust_eth_playground.Types.Primitives.{Address, B256, Account, Header}
use rust_eth_playground.Types.Transaction.{Block}
use rust_eth_playground.Signing.{Crypto, SigningError, hash_header, recover_sender}
use rust_eth_playground.Execution.Types.{ExecutionError}
use rust_eth_playground.Execution.Provider.{
  InMemoryProvider, get_block_by_hash, get_account, insert_block,
}
use rust_eth_playground.Execution.Validator.{strict_validator}
use rust_eth_playground.Execution.Executor.{BlockWithSenders, ExecutionOutput, execute}
use rust_eth_playground.Execution.Pipeline.{Pipeline, pipeline_execute}
use rust_eth_playground.Processor.State.{
  ProcessorError, hashing, execution, signing, parent_not_found, invalid_block_number,
  validation_failed, BlockProcessor, ProcessorAction, count_received, count_rejected_validation,
  count_rejected_execution,
}

-- A rejection in validation: the counter, then the error.
unfoldable pub reject {ℓ} : {A : Type ℓ} → ProcessorError → ProcessorAction A
reject e = do modify count_rejected_validation; lift (err e)

-- `if test { reject }`.
unfoldable pub reject_if : Bool → ProcessorError → ProcessorAction (Unit {0})
unfolding reject
reject_if true e = reject e
reject_if false e = lift (ok tt)

-- A call on the provider, whose error `?` converts.
abbrev pub after_provider {ℓ} :
    {A : Type ℓ}
    → BlockProcessor
    → Result ExecutionError A × InMemoryProvider
    → Result ProcessorError A × BlockProcessor
after_provider s (r, p) = (map_err execution r, record s { provider = p })

unfoldable pub on_provider {ℓ} :
    {A : Type ℓ}
    → (InMemoryProvider → Result ExecutionError A × InMemoryProvider)
    → ProcessorAction A
on_provider m s = after_provider s (m s.provider)

-- The parent, or a rejection.
abbrev pub found_parent : ℕ → Result ExecutionError Block → ProcessorAction Block
found_parent number (ok parent) = lift (ok parent)
found_parent number (err e) = reject (parent_not_found number)
found_parent number panic = lift panic

unfoldable pub find_parent : Block → ProcessorAction Block
find_parent block s =
    found_parent block.header.number (get_block_by_hash block.header.parent_hash s.provider) s

-- The three tests on the parent and the head, in their order.
unfoldable pub check_parent : Header → Block → ProcessorAction (Unit {0})
unfolding reject_if
check_parent header parent = do
  reject_if (not (wrapping_add_u64 parent.header.number 1 == header.number))
      (invalid_block_number header.number (wrapping_add_u64 parent.header.number 1))
  reject_if (leb header.timestamp parent.header.timestamp)
      (validation_failed parent.header.timestamp header.timestamp)

unfoldable pub check_head : Header → ProcessorAction (Unit {0})
unfolding reject_if
check_head header s =
    reject_if (not (wrapping_add_u64 s.chain_head.number 1 == header.number))
      (invalid_block_number header.number (wrapping_add_u64 s.chain_head.number 1)) s

-- `write_to_shared_head`.
abbrev pub write_to_shared_head : ℕ → B256 → ℕ → BlockProcessor → BlockProcessor
write_to_shared_head number hash total_difficulty s = record s {
  shared_head = record { number = number; hash = hash; total_difficulty = total_difficulty };
}

-- The new head, in the processor.
abbrev pub advance_head : ℕ → B256 → ℕ → BlockProcessor → BlockProcessor
advance_head number hash gas_used s = record s {
  chain_head = record {
    number = number;
    hash = hash;
    total_difficulty = wrapping_add_u128 s.chain_head.total_difficulty gas_used;
  };
}

abbrev pub count_committed : ExecutionOutput → BlockProcessor → BlockProcessor
count_committed output s = record s {
  metrics = record (s.metrics) {
    blocks_committed = wrapping_add_u64 s.metrics.blocks_committed 1;
    transactions_committed =
        wrapping_add_u64 s.metrics.transactions_committed (length output.receipts);
    total_gas_committed = wrapping_add_u64 s.metrics.total_gas_committed output.gas_used;
  };
}

-- The end of a commit: the head, the shared head, the counters.
unfoldable pub commit : Header → B256 → ExecutionOutput → BlockProcessor → BlockProcessor
commit header hash output s =
    let s' = advance_head header.number hash header.gas_used s in
    count_committed output
      (write_to_shared_head header.number hash s'.chain_head.total_difficulty s')

-- The senders of a block with it, or the error of a recovery.
abbrev pub with_senders :
    Block → Result SigningError (List Address) → Result ProcessorError BlockWithSenders
with_senders block (ok senders) = ok (record { block = block; senders = senders })
with_senders block (err e) = err (signing e)
with_senders block panic = panic

module _ (crypto : Crypto) where
  -- `build_block_with_senders`.
  unfoldable pub build_block_with_senders :
      Block → BlockProcessor → Result ProcessorError BlockWithSenders
  build_block_with_senders block s =
      with_senders block (map_result (λ t. recover_sender crypto t s.chain_id) block.transactions)

  -- The pipeline that `new` builds.
  abbrev pub node_pipeline : Pipeline ExecutionOutput
  node_pipeline = record { executor = execute crypto; validator = strict_validator crypto 100 }

  -- The match on `pipeline.execute`: an error is counted.
  abbrev pub executed :
      Result ProcessorError ExecutionOutput × BlockProcessor
      → Result ProcessorError ExecutionOutput × BlockProcessor
  executed (ok output, s) = (ok output, s)
  executed (err e, s) = (err e, count_rejected_execution s)
  executed (panic, s) = (panic, s)

  unfoldable pub run_pipeline : BlockWithSenders → ProcessorAction ExecutionOutput
  unfolding on_provider
  run_pipeline b s = executed (on_provider (pipeline_execute node_pipeline b) s)

  unfoldable pub process_block : Block → ProcessorAction (Unit {0})
  process_block block = do
    parent_block ← find_parent block
    check_parent block.header parent_block
    check_head block.header
    block_with_senders ← reads (build_block_with_senders block)
    output ← run_pipeline block_with_senders
    hash ← lift (map_err hashing (hash_header crypto block.header))
    on_provider (insert_block crypto block)
    modify (commit block.header hash output)

  -- A block's error is logged, and the loop goes on.
  abbrev pub logged :
      Result ProcessorError (Unit {0}) × BlockProcessor
      → Result ProcessorError (Unit {0}) × BlockProcessor
  logged (ok _, s) = (ok tt, s)
  logged (err e, s) = (ok tt, s)
  logged (panic, s) = (panic, s)

  -- The loop of `try_drain`. A round takes a block from the queue, so there are no more rounds
  -- than blocks in it; without fuel it stops.
  unfoldable pub drain : ℕ → ℕ → ProcessorAction (Unit {0})
  drain zero next_block_number s = (ok tt, s)
  drain (suc fuel) next_block_number s = elim (get next_block_number s.pending_map) [
    | none ↦ (ok tt, s)
    | some pending ↦
        continue
          (logged (
            process_block pending.block
              (record s { pending_map = remove next_block_number s.pending_map })))
          (λ _. drain fuel (wrapping_add_u64 next_block_number 1))
  ]

  unfoldable pub try_drain : ProcessorAction (Unit {0})
  unfolding drain
  try_drain s = drain (length s.pending_map) (wrapping_add_u64 s.chain_head.number 1) s

  -- `handle_new_block`: a block at or below the head is stale.
  unfoldable pub handle_new_block : Block → ℕ → ProcessorAction (Unit {0})
  unfolding reject_if
  handle_new_block block peer_id = do
    modify count_received
    (λ s.
        reject_if (leb block.header.number s.chain_head.number)
          (invalid_block_number block.header.number (wrapping_add_u64 s.chain_head.number 1)) s)
    modify (λ s. record s {
      pending_map =
          insert block.header.number (record { block = block; peer_id = peer_id }) s.pending_map;
    })
    try_drain

  -- The answer to `GetAccountState`.
  unfoldable pub account_state : Address → BlockProcessor → Result ProcessorError Account
  account_state address s = map_err execution (get_account address s.provider)
