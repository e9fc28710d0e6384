-- ===== src/Execution/Atomic.antt =====
-- core/execution/src/pipeline.rs and executor.rs: a block that fails leaves the provider as it was.
use rust_eth_playground.Prelude.{
  ℕ, ◌+◌, ◌≡◌, Option, none, some, List, [], ◌∷◌, Result, ok, err, panic, inl, inr, ◌⊎◌, arith,
}
use rust_eth_playground.Types.Primitives.{Address, B256}
use rust_eth_playground.Types.Transaction.{SignedTransaction}
use rust_eth_playground.Signing.{Crypto}
use rust_eth_playground.Execution.Types.{ExecutionError, journal_already_set}
use rust_eth_playground.Execution.Provider.{InMemoryProvider, get_header_by_hash, begin_journal}
use rust_eth_playground.Execution.Validator.{ConsensusValidator}
use rust_eth_playground.Execution.Monad.{ProviderAction, continue, ◌>>=◌, lift, reads}
use rust_eth_playground.Execution.Executor.{
  BlockWithSenders, ExecutionOutput, Progress, credit, execute_transaction, execute_transactions,
  execute,
}
use rust_eth_playground.Execution.Pipeline.{Pipeline, settle, started, pipeline_execute}
use rust_eth_playground.Execution.Journal.{
  Tracks, SameProvider, SameProvider-refl, OnlyAccounts, OnlyAccounts-bind, only_accounts,
  rollback_journal-SameProvider, begun-Tracks,
}

credit-OnlyAccounts : (to : Option Address) (value : ℕ) → OnlyAccounts (credit to value)
unfolding credit
credit-OnlyAccounts none value = search only_accounts
credit-OnlyAccounts (some recipient) value = search only_accounts

pub begin_journal-cases :
    (p : InMemoryProvider)
    → (p.journal ≡ none) × (begin_journal p ≡ ok (record p { journal = some [] }))
      ⊎ (begin_journal p ≡ err journal_already_set)
unfolding begin_journal
begin_journal-cases p = ground arith

-- A result that stands before the rest of an action.
continue-SameProvider :
    {A B : Type 0} (p : InMemoryProvider) (r : Result ExecutionError A) (f : A → ProviderAction B)
    (e : ExecutionError)
    → ((a : A) → (f a p).0 ≡ err e → SameProvider p (f a p).1)
    → (continue (r, p) f).0 ≡ err e
    → SameProvider p (continue (r, p) f).1
continue-SameProvider p (ok a) f e k h = k a h
continue-SameProvider p (err x) f e k h = SameProvider-refl p
continue-SameProvider p panic f e k h = SameProvider-refl p

module _ (crypto : Crypto) where
  execute_transaction-OnlyAccounts :
      (block_hash : B256) (block_number base_fee i : ℕ) (t : SignedTransaction) (sender : Address)
      (progress : Progress)
      → OnlyAccounts
          (execute_transaction crypto block_hash block_number base_fee i t sender progress)
  unfolding execute_transaction
  execute_transaction-OnlyAccounts block_hash block_number base_fee i t sender progress =
      search (only_accounts, credit-OnlyAccounts) depth 12

  execute_transactions-OnlyAccounts :
      (block_hash : B256) (block_number base_fee i : ℕ) (txs : List SignedTransaction)
      (senders : List Address) (progress : Progress)
      → OnlyAccounts
          (execute_transactions crypto block_hash block_number base_fee i txs senders progress)
  unfolding execute_transactions
  execute_transactions-OnlyAccounts block_hash block_number base_fee i [] senders progress =
      search only_accounts
  execute_transactions-OnlyAccounts block_hash block_number base_fee i (t ∷ txs) [] progress =
      search only_accounts
  execute_transactions-OnlyAccounts block_hash block_number base_fee i (t ∷ txs) (sender ∷ senders)
        progress =
      OnlyAccounts-bind
        (execute_transaction-OnlyAccounts block_hash block_number base_fee i t sender progress)
        λ progress'.
          execute_transactions-OnlyAccounts block_hash block_number base_fee (i + 1) txs senders
            progress'

  pub execute-OnlyAccounts : (b : BlockWithSenders) → OnlyAccounts (execute crypto b)
  unfolding execute
  execute-OnlyAccounts b = search (only_accounts, execute_transactions-OnlyAccounts) depth 12

  -- The pipeline of the node: the executor of value transfers, and any validator.
  abbrev pub value_transfers : ConsensusValidator → Pipeline ExecutionOutput
  value_transfers validator = record { executor = execute crypto; validator = validator }

  settle-SameProvider :
      {A : Type 0} (origin : InMemoryProvider) (r : Result ExecutionError A × InMemoryProvider)
      (e : ExecutionError)
      → origin.journal ≡ none
      → Tracks origin r.1
      → (settle r).0 ≡ err e
      → SameProvider origin (settle r).1
  settle-SameProvider origin (ok a, p) e fresh t h = cc
  settle-SameProvider origin (err x, p) e fresh t h = rollback_journal-SameProvider origin p fresh t
  settle-SameProvider origin (panic, p) e fresh t h = cc

  executed-SameProvider :
      (b : BlockWithSenders) (p : InMemoryProvider) (e : ExecutionError)
      → (started (begin_journal p) (λ p'. settle (execute crypto b p')) p).0 ≡ err e
      → SameProvider p (started (begin_journal p) (λ p'. settle (execute crypto b p')) p).1
  executed-SameProvider b p e h = elim (begin_journal-cases p) [
    | inl (fresh, begun) ↦ rw begun (
        settle-SameProvider p (execute crypto b (record p { journal = some [] })) e fresh
          ((execute-OnlyAccounts b).keeps p _ (begun-Tracks p)) (rw begun at h))
    | inr running ↦ rw running (SameProvider-refl p)
  ]

  -- A block that the pipeline of the node refuses, at its validation or in the middle of its
  -- transactions, leaves the provider as it was: the same blocks, indices, receipts and storage,
  -- the same journal, and every account of the state as before, present or absent. The validator
  -- is arbitrary.
  pub pipeline_execute_atomic :
      (validator : ConsensusValidator) (b : BlockWithSenders) (p : InMemoryProvider)
      (e : ExecutionError)
      → (pipeline_execute (value_transfers validator) b p).0 ≡ err e
      → SameProvider p (pipeline_execute (value_transfers validator) b p).1
  unfolding pipeline_execute ◌>>=◌ lift reads
  pipeline_execute_atomic validator b p e h =
      continue-SameProvider p (get_header_by_hash b.block.header.parent_hash p) _ e
        (λ parent.
          continue-SameProvider p (validator.validate_header b.block.header parent) _ e λ _.
            continue-SameProvider p (validator.validate_body b.block) _ e
              λ _. executed-SameProvider b p e)
        h
