-- ===== src/Processor/Creations.antt =====
-- processor/src/block_processor.rs: blocks that create contracts.
use rust_eth_playground.Prelude.{
  ◌≡◌, ◌≤◌, refl, subst, sym, List, [], ◌∷◌, length, All, Result, ok, err, panic, map_result,
  >>=-eq-ok, arith,
}
use rust_eth_playground.Prelude.Action.{◌>>=◌, continue}
use rust_eth_playground.Prelude.Outcome.{
  Outcome, done, failed, panicked, Outcome-ok, Outcome-bind, Outcome-reads_bind,
}
use rust_eth_playground.Types.Primitives.{Address}
use rust_eth_playground.Types.Transaction.{Block}
use rust_eth_playground.Signing.{SigningError, Crypto, recover_sender}
use rust_eth_playground.Execution.Types.{ExecutionError}
use rust_eth_playground.Execution.Provider.{InMemoryProvider}
use rust_eth_playground.Execution.Executor.{BlockWithSenders, ExecutionOutput}
use rust_eth_playground.Execution.Create.{HasRecipient, HasRecipients, pipeline_execute-recipients}
use rust_eth_playground.Processor.State.{ProcessorError, BlockProcessor, ProcessorAction}
use rust_eth_playground.Processor.Process.{
  find_parent, check_parent, check_head, with_senders, build_block_with_senders, run_pipeline,
  on_provider, process_block, executed, after_provider,
}

length-map_result :
    {E A B : Type 0} (f : A → Result E B) (xs : List A) {ys : List B}
    → map_result f xs ≡ ok ys
    → length ys ≡ length xs
length-map_result f [] h = cc
length-map_result f (x ∷ xs) h =
    let (y, _, h₁) = >>=-eq-ok (f x) _ h in
    let (ys, later, h₂) = >>=-eq-ok (map_result f xs) _ h₁ in
    let tail = length-map_result f xs later in cc (h₂, tail)

with_senders-recipients :
    (block : Block) (b : BlockWithSenders) (r : Result SigningError (List Address))
    → ((senders : List Address) → r ≡ ok senders → length block.transactions ≤ length senders)
    → with_senders block r ≡ ok b
    → HasRecipients b
    → All HasRecipient block.transactions
with_senders-recipients block b (ok senders) enough built h =
    let same : record { block = block; senders = senders } ≡ b = cc in
    subst HasRecipients (sym same) h (enough senders refl)
with_senders-recipients block b (err e) enough built h = cc
with_senders-recipients block b panic enough built h = cc

module _ (crypto : Crypto) where
  built-recipients :
      (block : Block) (s : BlockProcessor) (b : BlockWithSenders)
      → build_block_with_senders crypto block s ≡ ok b
      → HasRecipients b
      → All HasRecipient block.transactions
  unfolding build_block_with_senders
  built-recipients block s b =
      with_senders-recipients block b
        (map_result (λ t. recover_sender crypto t s.chain_id) block.transactions)
        λ senders recovered. omega (
          arith,
          length-map_result (λ t. recover_sender crypto t s.chain_id) block.transactions recovered,
        )

  executed-recipients :
      (b : BlockWithSenders) (s : BlockProcessor)
      (r : Result ExecutionError ExecutionOutput × InMemoryProvider)
      → Outcome (λ _ _. HasRecipients b) r
      → Outcome (λ _ _. HasRecipients b) (executed crypto (after_provider s r))
  executed-recipients b s r (done h) = done h
  executed-recipients b s r failed = failed
  executed-recipients b s r panicked = panicked

  run_pipeline-recipients :
      (b : BlockWithSenders) (s : BlockProcessor)
      → Outcome (λ _ _. HasRecipients b) (run_pipeline crypto b s)
  unfolding run_pipeline on_provider
  run_pipeline-recipients b s =
      executed-recipients b s _ (pipeline_execute-recipients crypto 100 b s.provider)

  -- What an action is known to have, whatever comes before it.
  after :
      {A B : Type 0} {P : Type 0} (m : ProcessorAction A) (f : A → ProcessorAction B)
      (s : BlockProcessor)
      → ((a : A) (t : BlockProcessor) → Outcome (λ _ _. P) (f a t))
      → Outcome (λ _ _. P) ((m >>= f) s)
  unfolding ◌>>=◌
  after {A = A} {P = P} m f s k = go (m s)
    where
      go : (r : Result ProcessorError A × BlockProcessor) → Outcome (λ _ _. P) (continue r f)
      go (ok a, t) = k a t
      go (err e, t) = failed
      go (panic, t) = panicked

  whatever :
      {A : Type 0} {P : Type 0} (r : Result ProcessorError A × BlockProcessor)
      → P
      → Outcome (λ _ _. P) r
  whatever (ok a, t) has = done has
  whatever (err e, t) has = failed
  whatever (panic, t) has = panicked

  process_block-recipients :
      (block : Block) (s : BlockProcessor)
      → Outcome (λ _ _. All HasRecipient block.transactions) (process_block crypto block s)
  unfolding process_block
  process_block-recipients block s = after (find_parent block) _ s λ parent s₁.
      after (check_parent block.header parent) _ s₁ λ _ s₂.
        after (check_head block.header) _ s₂ λ _ s₃.
          Outcome-reads_bind {R = λ _ _. All HasRecipient block.transactions}
            (build_block_with_senders crypto block) _ s₃
            λ b built.
              Outcome-bind (run_pipeline crypto b) _ s₃ (run_pipeline-recipients b s₃)
                λ output t has. whatever _ (built-recipients block s₃ b built has)

  -- A block that the processor accepts creates no contract: each of its transactions has a
  -- recipient.
  pub process_block-HasRecipient :
      (block : Block) (s : BlockProcessor)
      → (process_block crypto block s).0 ≡ ok tt
      → All HasRecipient block.transactions
  process_block-HasRecipient block s h = Outcome-ok (process_block-recipients block s) h
