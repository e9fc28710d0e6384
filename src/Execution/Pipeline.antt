-- ===== src/Execution/Pipeline.antt =====
-- core/execution/src/pipeline.rs: validation, and execution under the journal.
use rust_eth_playground.Prelude.{Result, ok, err, panic}
use rust_eth_playground.Execution.Types.{ExecutionError}
use rust_eth_playground.Execution.Provider.{
  InMemoryProvider, get_header_by_hash, begin_journal, commit_journal, rollback_journal,
}
use rust_eth_playground.Execution.Validator.{ConsensusValidator}
use rust_eth_playground.Execution.Executor.{BlockWithSenders}
use rust_eth_playground.Execution.Monad.{ProviderAction, lift, reads, ◌>>=◌, ◌>>◌}

-- `Pipeline<E, V>` with its provider as the state of its actions.
pub record Pipeline (Output : Type 0) : Type 0 where
  pub executor : BlockWithSenders → ProviderAction Output
  pub validator : ConsensusValidator

-- The end of `execute`: an error rolls the journal back, a panic unwinds past it.
abbrev pub settle {ℓ} :
    {A : Type ℓ}
    → Result ExecutionError A × InMemoryProvider
    → Result ExecutionError A × InMemoryProvider
settle (ok output, p) = (ok output, commit_journal p)
settle (err e, p) = (err e, rollback_journal p)
settle (panic, p) = (panic, p)

-- `begin_journal()?` on the provider.
abbrev pub started {ℓ} :
    {A : Type ℓ} → Result ExecutionError InMemoryProvider → ProviderAction A → ProviderAction A
started (ok p') m p = m p'
started (err e) m p = (err e, p)
started panic m p = (panic, p)

unfoldable pub pipeline_execute :
    {Output : Type 0} → Pipeline Output → BlockWithSenders → ProviderAction Output
pipeline_execute pipeline b = do
  parent_header ← reads (get_header_by_hash b.block.header.parent_hash)
  lift (pipeline.validator.validate_header b.block.header parent_header)
  lift (pipeline.validator.validate_body b.block)
  λ p. started (begin_journal p) (λ p'. settle (pipeline.executor b p')) p
