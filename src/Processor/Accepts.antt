-- ===== src/Processor/Accepts.antt =====
-- processor/src/block_processor.rs: which blocks the processor accepts.
use rust_eth_playground.Prelude.{◌≡◌, ◌<◌, refl, false, not, leb, ◌==◌, wrapping_add_u64, ok, arith}
use rust_eth_playground.Prelude.Action.{◌>>=◌, lift, reads, modify}
use rust_eth_playground.Types.Transaction.{Block}
use rust_eth_playground.Signing.{Crypto}
use rust_eth_playground.Signing.Total.{hash_header-header_hash}
use rust_eth_playground.Execution.Provider.{InMemoryProvider, get_block_by_hash}
use rust_eth_playground.Execution.Executor.{BlockWithSenders, ExecutionOutput}
use rust_eth_playground.Execution.Pipeline.{pipeline_execute}
use rust_eth_playground.Execution.Insert.{insert_block-Inserted}
use rust_eth_playground.Processor.State.{BlockProcessor}
use rust_eth_playground.Processor.Process.{
  reject_if, find_parent, check_parent, check_head, build_block_with_senders, node_pipeline,
  run_pipeline, on_provider, process_block,
}

-- A block is accepted when its parent is stored, has the number before it and an earlier
-- timestamp, its number is the one after the head's (both modulo 2^64), its senders are recovered,
-- and the pipeline executes it: nothing after the execution can fail.
pub process_block_accepts :
    (crypto : Crypto) (block parent : Block) (s : BlockProcessor) (b : BlockWithSenders)
    (output : ExecutionOutput) (q : InMemoryProvider)
    → get_block_by_hash block.header.parent_hash s.provider ≡ ok parent
    → wrapping_add_u64 parent.header.number 1 ≡ block.header.number
    → parent.header.timestamp < block.header.timestamp
    → wrapping_add_u64 s.chain_head.number 1 ≡ block.header.number
    → build_block_with_senders crypto block s ≡ ok b
    → pipeline_execute (node_pipeline crypto) b s.provider ≡ (ok output, q)
    → (process_block crypto block s).0 ≡ ok tt
unfolding process_block find_parent check_parent check_head reject_if run_pipeline on_provider lift
    reads modify ◌>>=◌
process_block_accepts crypto block parent s b output q found numbered later next built ran =
    let n : not (wrapping_add_u64 parent.header.number 1 == block.header.number) ≡ false =
      ground (arith, numbered) in
    let t : leb block.header.timestamp parent.header.timestamp ≡ false = ground (arith, later) in
    let h : not (wrapping_add_u64 s.chain_head.number 1 == block.header.number) ≡ false =
      ground (arith, next) in
    let (q', run, i) = insert_block-Inserted crypto block q in
    rw (found, n, t, h, built, ran, hash_header-header_hash crypto block.header, run) refl
