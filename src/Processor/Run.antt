-- ===== src/Processor/Run.antt =====
-- processor/src/block_processor.rs: the loop of `run` over the messages of its channel.
use rust_eth_playground.Prelude.{ℕ, List, [], ◌∷◌, Result, ok, err, panic}
use rust_eth_playground.Prelude.Action.{continue}
use rust_eth_playground.Types.Primitives.{Address, Account}
use rust_eth_playground.Types.Transaction.{Block}
use rust_eth_playground.Signing.{Crypto}
use rust_eth_playground.Processor.State.{ProcessorError, BlockProcessor}
use rust_eth_playground.Processor.Process.{logged, try_drain, handle_new_block, account_state}

-- The sender of the answer to `GetAccountState` is left out: the answers of a run are a list.
pub data ProcessorMessage : Type 0 where
  new_block : Block → ℕ → ProcessorMessage
  get_account_state : Address → ProcessorMessage
  shutdown : ProcessorMessage

abbrev pub Answers : Type 0
Answers = List (Result ProcessorError Account)

-- An answer in front of those of the rest of the run.
abbrev pub answer :
    Result ProcessorError Account
    → Result ProcessorError Answers × BlockProcessor
    → Result ProcessorError Answers × BlockProcessor
answer a (ok answers, s) = (ok (a ∷ answers), s)
answer a (err e, s) = (err e, s)
answer a (panic, s) = (panic, s)

-- The cleanup after the loop, which empties the queue.
abbrev pub cleanup : BlockProcessor → Result ProcessorError Answers × BlockProcessor
cleanup s = (ok [], record s { pending_map = [] })

module _ (crypto : Crypto) where
  -- The channel is closed, or the shutdown message came.
  unfoldable pub stop : BlockProcessor → Result ProcessorError Answers × BlockProcessor
  stop s = continue (logged crypto (try_drain crypto s)) (λ _. cleanup)

  -- The messages are those of the channel in their order; it is closed after the last.
  unfoldable pub run :
      List ProcessorMessage → BlockProcessor → Result ProcessorError Answers × BlockProcessor
  unfolding stop
  run [] s = stop s
  run (shutdown ∷ messages) s = stop s
  run (new_block block peer_id ∷ messages) s =
      continue (logged crypto (handle_new_block crypto block peer_id s)) (λ _. run messages)
  run (get_account_state address ∷ messages) s =
      answer (account_state crypto address s) (run messages s)
