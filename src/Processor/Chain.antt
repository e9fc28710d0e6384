-- ===== src/Processor/Chain.antt =====
-- processor/src/block_processor.rs: what `process_block` leaves of the processor.
use rust_eth_playground.Prelude.{
  ◌≡◌, ◌<◌, refl, sym, subst, ap, ◌∙◌, nat_eq, bytes_eq, insert, Result, ok, err, panic, map_err,
  wrapping_add_u64, map_result, arith, List,
}
use rust_eth_playground.Prelude.Action.{◌>>=◌, lift, reads, modify}
use rust_eth_playground.Prelude.Outcome.{Outcome, Outcome-ok}
use rust_eth_playground.Prelude.Ends.{
  Ends, done, failed, panicked, Ends-ok, Ends-err, Ends-bind, Ends-pure_bind, Ends-known_bind,
  Ends-reads, Ends-modify,
}
use rust_eth_playground.Types.Primitives.{Address, B256, Header}
use rust_eth_playground.Types.Transaction.{Block}
use rust_eth_playground.Signing.{SigningError, Crypto, hash_header, recover_sender}
use rust_eth_playground.Signing.Total.{header_hash, hash_header-header_hash}
use rust_eth_playground.Execution.Types.{ExecutionError}
use rust_eth_playground.Execution.Provider.{
  InMemoryProvider, get_block_by_hash, get_block_by_number, get_header_by_hash,
  get_header_by_number, insert_block,
}
use rust_eth_playground.Execution.Validator.{strict_validator}
use rust_eth_playground.Execution.Executor.{BlockWithSenders, ExecutionOutput}
use rust_eth_playground.Execution.Journal.{SameProvider}
use rust_eth_playground.Execution.Atomic.{pipeline_execute_atomic}
use rust_eth_playground.Execution.Accept.{Follows, Executed, pipeline_execute-Executed}
use rust_eth_playground.Execution.Insert.{Inserted, insert_block-Inserted}
use rust_eth_playground.Processor.State.{ProcessorError, hashing, BlockProcessor, ProcessorAction}
use rust_eth_playground.Processor.Process.{
  find_parent, check_parent, check_head, with_senders, build_block_with_senders, run_pipeline,
  on_provider, commit, process_block, executed, after_provider,
}
use rust_eth_playground.Processor.Steps.{
  Rejected, Committed, Rejected-refl, find_parent-Ends, check_parent-Ends, check_head-Ends,
}

with_senders-block :
    (block : Block) (b : BlockWithSenders) (r : Result SigningError (List Address))
    → with_senders block r ≡ ok b
    → b.block ≡ block
with_senders-block block b (ok senders) built = cc
with_senders-block block b (err e) built = cc
with_senders-block block b panic built = cc

found-header :
    (hash : B256) (p : InMemoryProvider) (block : Block) (header : Header)
    → get_block_by_hash hash p ≡ ok block
    → get_header_by_hash hash p ≡ ok header
    → header ≡ block.header
unfolding get_block_by_hash get_block_by_number get_header_by_hash get_header_by_number
found-header hash p block header = ground arith

module _ (crypto : Crypto) where
  build_block_with_senders-block :
      (block : Block) (s : BlockProcessor) (b : BlockWithSenders)
      → build_block_with_senders crypto block s ≡ ok b
      → b.block ≡ block
  unfolding build_block_with_senders
  build_block_with_senders-block block s b =
      with_senders-block block b
        (map_result (λ t. recover_sender crypto t s.chain_id) block.transactions)

  executed-Ends :
      (b : BlockWithSenders) (s : BlockProcessor)
      (r : Result ExecutionError ExecutionOutput × InMemoryProvider)
      → Outcome (λ output q. Executed crypto b s.provider q) r
      → ((e : ExecutionError) → r.0 ≡ err e → SameProvider s.provider r.1)
      → Ends
          (λ output t.
            Executed crypto b s.provider t.provider × (t ≡ record s { provider = t.provider }))
          (Rejected s)
          (executed crypto (after_provider s r))
  executed-Ends b s (ok output, q) h k = done (Outcome-ok h refl, refl)
  executed-Ends b s (err e, q) h k = failed (record {
    same_head = refl;
    same_shared_head = refl;
    same_pending = refl;
    same_chain_id = refl;
    same_accounts = refl;
    same_provider = k e refl;
  })
  executed-Ends b s (panic, q) h k = panicked

  run_pipeline-Ends :
      (b : BlockWithSenders) (s : BlockProcessor)
      → Ends
          (λ output t.
            Executed crypto b s.provider t.provider × (t ≡ record s { provider = t.provider }))
          (Rejected s)
          (run_pipeline crypto b s)
  unfolding run_pipeline on_provider
  run_pipeline-Ends b s =
      executed-Ends b s _ (pipeline_execute-Executed crypto b s.provider 100)
        (λ e. pipeline_execute_atomic crypto (strict_validator crypto 100) b s.provider e)

  on_provider-insert_block :
      (block : Block) (s : BlockProcessor)
      → (q : InMemoryProvider) × (on_provider (insert_block crypto block) s
          ≡ (ok tt, record s { provider = q }))
        × Inserted crypto block s.provider q
  unfolding on_provider
  on_provider-insert_block block s =
      let (q, run, i) = insert_block-Inserted crypto block s.provider in (q, rw run refl, i)

  -- The end of the run on a block: the hash, the insertion and the new head.
  abbrev finish : Block → ExecutionOutput → ProcessorAction (Unit {0})
  finish block output = lift (map_err hashing (hash_header crypto block.header)) >>= λ hash.
      on_provider (insert_block crypto block) >>= λ _. modify (commit block.header hash output)

  commit-Ends :
      (block : Block) (b : BlockWithSenders) (parent : Block) (output : ExecutionOutput)
      (s : BlockProcessor) (q : InMemoryProvider)
      → b.block ≡ block
      → get_block_by_hash block.header.parent_hash s.provider ≡ ok parent
      → parent.header.timestamp < block.header.timestamp
      → block.header.number ≡ wrapping_add_u64 s.chain_head.number 1
      → Executed crypto b s.provider q
      → Ends
          (λ _ t. Committed crypto block s t)
          (Rejected s)
          (finish block output (record s { provider = q }))
  unfolding commit lift
  commit-Ends block b parent output s q same found later next ex =
      let header : b.block.header ≡ block.header = ap (λ x. x.header) same in
      let (q', run, i) = on_provider-insert_block block (record s { provider = q }) in
      Ends-known_bind _ _ _ _ (header_hash crypto block.header)
        (rw (hash_header-header_hash crypto block.header) refl)
        (Ends-known_bind _ _ _ _ tt run (
          Ends-modify _ _ (record {
            parent = parent;
            parent_found = found;
            follows =
                subst (λ h. Follows crypto block.header h)
                  (found-header _ s.provider parent ex.parent found (
                    subst (λ h. get_header_by_hash h.parent_hash s.provider ≡ ok ex.parent) header
                      ex.parent_found))
                  (subst (λ h. Follows crypto h ex.parent) header ex.follows);
            later = later;
            next_number = next;
            new_head = refl;
            new_shared_head = refl;
            same_pending = refl;
            same_chain_id = refl;
            new_blocks = i.new_blocks ∙ ap (insert block.header.number block) ex.same_blocks;
            new_blocks_by_hash =
                i.new_blocks_by_hash
                ∙ ap (insert (header_hash crypto block.header) block.header.number)
                    ex.same_blocks_by_hash;
            journal_ended = i.same_journal ∙ ex.journal_ended;
          })))

  pub process_block-Ends :
      (block : Block) (s : BlockProcessor)
      → Ends (λ _ t. Committed crypto block s t) (Rejected s) (process_block crypto block s)
  unfolding process_block
  process_block-Ends block s =
      Ends-pure_bind (find_parent block) _ s (find_parent-Ends block s) λ parent found.
        Ends-pure_bind (check_parent block.header parent) (λ _. _) s
          (check_parent-Ends block.header parent s)
          λ _ later.
            Ends-pure_bind (check_head block.header) (λ _. _) s (check_head-Ends block.header s)
              λ _ next.
                Ends-pure_bind (reads (build_block_with_senders crypto block)) _ s
                  (Ends-reads _ s (Rejected-refl s))
                  λ b built.
                    Ends-bind (run_pipeline crypto b) _ s (run_pipeline-Ends b s)
                      λ output t (ex, same).
                        subst
                          (λ u.
                            Ends (λ _. Committed crypto block s) (Rejected s)
                              (finish block output u))
                          (sym same)
                          (commit-Ends block b parent output s t.provider
                            (build_block_with_senders-block block s b built) found later next ex)

  -- A block that the processor refuses changes nothing but the counters: the head, the shared
  -- head, the queue and the chain id stay, and the provider holds the same blocks, indices,
  -- receipts, storage and accounts. That includes a block whose execution fails half-way.
  pub process_block_rejects :
      (block : Block) (s : BlockProcessor) (e : ProcessorError)
      → (process_block crypto block s).0 ≡ err e
      → Rejected s (process_block crypto block s).1
  process_block_rejects block s e h = Ends-err (process_block-Ends block s) h

  -- A block that the processor accepts has a stored parent, whose hash it names, whose number is
  -- one less and whose timestamp is earlier; its gas is within its limit, and its number is the one
  -- after the head's, modulo 2^64. It becomes the head, with its gas added to the total difficulty,
  -- modulo 2^128; the shared head follows; the block is stored under its number, and its number
  -- under its hash; the queue and the chain id are as they were and no journal is left open.
  pub process_block_commits :
      (block : Block) (s : BlockProcessor)
      → (process_block crypto block s).0 ≡ ok tt
      → Committed crypto block s (process_block crypto block s).1
  process_block_commits block s h = Ends-ok (process_block-Ends block s) h
