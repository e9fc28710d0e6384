-- ===== src/Execution/Monad.antt =====
-- core/execution/src/executor.rs: actions on the provider behind `&mut InMemoryProvider`.
use rust_eth_playground.Prelude.Action
use rust_eth_playground.Execution.Types.{ExecutionError}
use rust_eth_playground.Execution.Provider.{InMemoryProvider}
unfoldable pub use rust_eth_playground.Prelude.Action.{continue, ◌>>=◌, ◌>>◌, lift, reads, modify}

abbrev pub ProviderAction {ℓ} : Type ℓ → Type ℓ
ProviderAction A = Action.Action InMemoryProvider ExecutionError A
