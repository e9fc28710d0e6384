-- ===== src/Execution/Create.antt =====
-- core/execution/src/executor.rs and pipeline.rs: a transaction that creates a contract reaches
-- `todo!()`.
use rust_eth_playground.Prelude.{
  ℕ, ◌+◌, ◌/◌, ◌≢◌, ◌≤◌, Option, none, some, List, [], ◌∷◌, length, All, Result, ok, map_err, inl,
  inr, arith,
}
use rust_eth_playground.Prelude.Outcome.{
  Outcome, done, failed, panicked, Outcome-lift, Outcome-map, Outcome-bind, Outcome-lift_bind,
  Outcome-reads_bind, Outcome-modify_bind,
}
use rust_eth_playground.Types.Primitives.{Address, B256}
use rust_eth_playground.Types.Transaction.{SignedTransaction, to_of}
use rust_eth_playground.Signing.{Crypto, hash_header}
use rust_eth_playground.Execution.Types.{ExecutionError, rlp}
use rust_eth_playground.Execution.Provider.{
  InMemoryProvider, get_account, get_header_by_hash, set_account, begin_journal,
}
use rust_eth_playground.Execution.Monad.{lift, modify}
use rust_eth_playground.Execution.Validator.{
  strict_validate_header, strict_validator, validate_body_length,
}
use rust_eth_playground.Execution.Executor.{
  BlockWithSenders, ExecutionOutput, Progress, no_progress, charge, credit, execute_transaction,
  execute_transactions, execute, add_receipt, or_default,
}
use rust_eth_playground.Execution.Pipeline.{settle, started, pipeline_execute}
use rust_eth_playground.Execution.Atomic.{begin_journal-cases, value_transfers}

-- A transaction that is no contract creation.
abbrev pub HasRecipient : SignedTransaction → Type 0
HasRecipient t = to_of t.transaction ≢ none

-- Each transaction of a block that has its sender.
abbrev pub HasRecipients : BlockWithSenders → Type 0
HasRecipients b =
    length b.block.transactions ≤ length b.senders → All HasRecipient b.block.transactions

credit-recipient :
    (to : Option Address) (value : ℕ) (p : InMemoryProvider)
    → Outcome (λ _ _. to ≢ none) (credit to value p)
unfolding credit lift modify
credit-recipient none value p = panicked
credit-recipient (some recipient) value p =
    Outcome-reads_bind (λ p. or_default (get_account recipient p)) _ p
      λ account _. Outcome-lift_bind _ _ p λ balance _. done (cc)

module _ (crypto : Crypto) where
  execute_transaction-recipient :
      (block_hash : B256) (block_number base_fee i : ℕ) (t : SignedTransaction) (sender : Address)
      (progress : Progress) (p : InMemoryProvider)
      → Outcome
          (λ _ _. HasRecipient t)
          (execute_transaction crypto block_hash block_number base_fee i t sender progress p)
  unfolding execute_transaction
  execute_transaction-recipient block_hash block_number base_fee i t sender progress p =
      Outcome-reads_bind (get_account sender) _ p λ account _.
        Outcome-lift_bind (charge base_fee t.transaction sender account) _ p λ r _.
          Outcome-modify_bind (set_account sender r.1) _ p (
            Outcome-bind _ _ _ (credit-recipient (to_of t.transaction) _ _) λ _ q has.
              Outcome-lift (add_receipt crypto block_hash block_number i t sender r.0 progress) q
                λ _ _. has)

  execute_transactions-recipients :
      (block_hash : B256) (block_number base_fee i : ℕ) (txs : List SignedTransaction)
      (senders : List Address) (progress : Progress) (p : InMemoryProvider)
      → Outcome
          (λ _ _. length txs ≤ length senders → All HasRecipient txs)
          (execute_transactions crypto block_hash block_number base_fee i txs senders progress p)
  unfolding execute_transactions
  execute_transactions-recipients block_hash block_number base_fee i [] senders progress p =
      Outcome-lift (ok progress) p λ _ _ _. tt
  execute_transactions-recipients block_hash block_number base_fee i (t ∷ txs) [] progress p =
      Outcome-lift (ok progress) p λ _ _ h. let no : ⊥ = omega (arith, h) in elim no [ ]
  execute_transactions-recipients block_hash block_number base_fee i (t ∷ txs) (sender ∷ senders)
        progress p =
      Outcome-bind (execute_transaction crypto block_hash block_number base_fee i t sender progress)
        _ p (execute_transaction-recipient block_hash block_number base_fee i t sender progress p)
        λ progress₁ p₁ first.
          Outcome-map
            (execute_transactions-recipients block_hash block_number base_fee (i + 1) txs senders
              progress₁ p₁)
            λ _ _ later h. (first, later (omega (arith, h)))

  execute-recipients :
      (b : BlockWithSenders) (p : InMemoryProvider)
      → Outcome (λ _ _. HasRecipients b) (execute crypto b p)
  unfolding execute
  execute-recipients b p =
      Outcome-lift_bind (map_err rlp (hash_header crypto b.block.header)) _ p λ block_hash _.
        Outcome-bind
          (execute_transactions crypto block_hash b.block.header.number
            (b.block.header.gas_limit / 2) 0 b.block.transactions b.senders no_progress)
          _ p
          (execute_transactions-recipients block_hash _ _ _ b.block.transactions b.senders
            no_progress p)
          λ progress q has. Outcome-reads_bind _ _ q λ root _. Outcome-lift _ q λ _ _. has

  settle-recipients :
      (b : BlockWithSenders) (r : Result ExecutionError ExecutionOutput × InMemoryProvider)
      → Outcome (λ _ _. HasRecipients b) r
      → Outcome (λ _ _. HasRecipients b) (settle r)
  settle-recipients b r (done h) = done h
  settle-recipients b r failed = failed
  settle-recipients b r panicked = panicked

  started-recipients :
      (b : BlockWithSenders) (p : InMemoryProvider)
      → Outcome
          (λ _ _. HasRecipients b)
          (started (begin_journal p) (λ p'. settle (execute crypto b p')) p)
  started-recipients b p = elim (begin_journal-cases p) [
    | inl (fresh, begun) ↦
        rw begun (settle-recipients b _ (execute-recipients b (record p { journal = some [] })))
    | inr running ↦ rw running failed
  ]

  pub pipeline_execute-recipients :
      (max_txs : ℕ) (b : BlockWithSenders) (p : InMemoryProvider)
      → Outcome
          (λ _ _. HasRecipients b)
          (pipeline_execute (value_transfers crypto (strict_validator crypto max_txs)) b p)
  unfolding pipeline_execute
  pipeline_execute-recipients max_txs b p =
      Outcome-reads_bind (get_header_by_hash b.block.header.parent_hash) _ p λ parent _.
        Outcome-lift_bind (strict_validate_header crypto b.block.header parent) _ p λ _ _.
          Outcome-lift_bind (validate_body_length max_txs b.block) _ p λ _ _. started-recipients b p
