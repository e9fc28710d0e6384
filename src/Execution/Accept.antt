-- ===== src/Execution/Accept.antt =====
-- core/execution/src/pipeline.rs and in_memory.rs: what holds when a block is executed or inserted.
use rust_eth_playground.Prelude.{
  ℕ, ◌+◌, ◌≡◌, ◌≤◌, ◌^◌, ◌<◌, refl, none, some, [], bytes_beq_iff, Result, ok, err, panic, arith,
  inl, inr,
}
use rust_eth_playground.Types.Primitives.{Header}
use rust_eth_playground.Signing.{Crypto}
use rust_eth_playground.Signing.Total.{header_hash, hash_header-header_hash}
use rust_eth_playground.Execution.Types.{ExecutionError}
use rust_eth_playground.Execution.Provider.{
  InMemoryProvider, get_header_by_hash, begin_journal, commit_journal,
}
use rust_eth_playground.Execution.Validator.{
  validate_body_length, strict_validate_header, strict_validator,
}
use rust_eth_playground.Execution.Executor.{BlockWithSenders, ExecutionOutput, execute}
use rust_eth_playground.Execution.Pipeline.{settle, started, pipeline_execute}
use rust_eth_playground.Execution.Journal.{Tracks, begun-Tracks}
use rust_eth_playground.Execution.Atomic.{
  execute-OnlyAccounts, begin_journal-cases, value_transfers,
}
use rust_eth_playground.Prelude.Outcome.{
  Outcome, done, failed, panicked, Outcome-lift_bind, Outcome-reads_bind, Outcome-map,
}

-- A header that the strict validator accepts under a parent.
pub record Follows (crypto : Crypto) (header parent : Header) : Type 0 where
  pub parent_hash_matches : header.parent_hash ≡ header_hash crypto parent
  pub number_follows : header.number ≡ parent.number + 1
  pub number_fits : header.number < 2 ^ 64
  pub gas_within_limit : header.gas_used ≤ header.gas_limit

-- The strict validator accepts a header exactly when its parent hash is the hash of the parent's
-- encoding, its number is the parent's plus one and fits in 64 bits, and the gas used is within
-- the gas limit.
pub strict_validate_header_iff :
    (crypto : Crypto) (header parent : Header)
    → (strict_validate_header crypto header parent ≡ ok tt → Follows crypto header parent)
      × (Follows crypto header parent → strict_validate_header crypto header parent ≡ ok tt)
unfolding strict_validate_header
strict_validate_header_iff crypto header parent = (
  (λ h. ground (
    arith,
    hash_header-header_hash crypto parent,
    bytes_beq_iff header.parent_hash (header_hash crypto parent),
  )),
  (λ f. ground (
    arith,
    hash_header-header_hash crypto parent,
    bytes_beq_iff header.parent_hash (header_hash crypto parent),
  )),
)

-- What the pipeline leaves of a provider when it has executed a block.
pub record Executed (crypto : Crypto) (b : BlockWithSenders) (p q : InMemoryProvider) : Type 0 where
  pub parent : Header
  pub parent_found : get_header_by_hash b.block.header.parent_hash p ≡ ok parent
  pub follows : Follows crypto b.block.header parent
  pub same_blocks : q.blocks ≡ p.blocks
  pub same_blocks_by_hash : q.blocks_by_hash ≡ p.blocks_by_hash
  pub journal_ended : q.journal ≡ none

module _ (crypto : Crypto) (b : BlockWithSenders) (p : InMemoryProvider) where
  settle-Outcome :
      (r : Result ExecutionError ExecutionOutput × InMemoryProvider)
      → Tracks p r.1
      → Outcome
          (λ output q.
            (q.blocks ≡ p.blocks) × (q.blocks_by_hash ≡ p.blocks_by_hash) × (q.journal ≡ none))
          (settle r)
  unfolding commit_journal
  settle-Outcome (ok output, q) t = done (t.same_blocks, t.same_blocks_by_hash, refl)
  settle-Outcome (err e, q) t = failed
  settle-Outcome (panic, q) t = panicked

  started-Outcome :
      Outcome
        (λ output q.
          (q.blocks ≡ p.blocks) × (q.blocks_by_hash ≡ p.blocks_by_hash) × (q.journal ≡ none))
        (started (begin_journal p) (λ p'. settle (execute crypto b p')) p)
  started-Outcome = elim (begin_journal-cases p) [
    | inl (fresh, begun) ↦ rw begun (
        settle-Outcome (execute crypto b (record p { journal = some [] }))
          ((execute-OnlyAccounts crypto b).keeps p _ (begun-Tracks p)))
    | inr running ↦ rw running failed
  ]

  pub pipeline_execute-Executed :
      (max_txs : ℕ)
      → Outcome
          (λ output q. Executed crypto b p q)
          (pipeline_execute (value_transfers crypto (strict_validator crypto max_txs)) b p)
  unfolding pipeline_execute
  pipeline_execute-Executed max_txs =
      Outcome-reads_bind (get_header_by_hash b.block.header.parent_hash) _ p λ parent found.
        Outcome-lift_bind (strict_validate_header crypto b.block.header parent) _ p λ u valid.
          Outcome-lift_bind (validate_body_length max_txs b.block) _ p λ _ _.
            Outcome-map started-Outcome λ output q (same, by_hash, ended). record {
              parent = parent;
              parent_found = found;
              follows = (strict_validate_header_iff crypto b.block.header parent).0 valid;
              same_blocks = same;
              same_blocks_by_hash = by_hash;
              journal_ended = ended;
            }
