-- ===== src/Processor/Safety.antt =====
-- processor/src/block_processor.rs: the chain over a whole run, and the rounds of the drain.
use rust_eth_playground.Prelude.{ℕ, ◌≡◌, List, [], ◌∷◌, nat_eq, bytes_eq, Result, ok}
use rust_eth_playground.Prelude.Ends.{
  Ends, done, failed, panicked, Ends-continue, Ends-weaken, Ends-ok,
}
use rust_eth_playground.Types.Primitives.{Account}
use rust_eth_playground.Signing.{Crypto}
use rust_eth_playground.Processor.State.{ProcessorError, BlockProcessor}
use rust_eth_playground.Processor.Process.{logged}
use rust_eth_playground.Processor.Run.{
  ProcessorMessage, new_block, get_account_state, shutdown, Answers, answer, stop, run,
}
use rust_eth_playground.Processor.Valid.{IsValid, IsQueued, Extends, Extends-trans}
use rust_eth_playground.Processor.Drain.{
  IsSuccessor, try_drain-IsSuccessor, handle_new_block-IsSuccessor,
}

module _ (crypto : Crypto) (origin : ℕ) where
  -- A message of the loop whose error is logged.
  logged-Ends :
      {P : BlockProcessor → Type 0} (r : Result ProcessorError (Unit {0}) × BlockProcessor)
      → Ends (λ _ t. P t) P r
      → Ends (λ _ t. P t) P (logged crypto r)
  logged-Ends r (done h) = done h
  logged-Ends r (failed h) = done h
  logged-Ends r panicked = panicked

  answer-Ends :
      {P : BlockProcessor → Type 0} (a : Result ProcessorError Account)
      (r : Result ProcessorError Answers × BlockProcessor)
      → Ends (λ _ t. P t) P r
      → Ends (λ _ t. P t) P (answer a r)
  answer-Ends a r (done h) = done h
  answer-Ends a r (failed h) = failed h
  answer-Ends a r panicked = panicked

  -- The end of a run: a valid processor that has grown out of another.
  pub record IsResult (s t : BlockProcessor) : Type 0 where
    pub valid : IsValid crypto origin t
    pub extends : Extends crypto origin s t

  stop-IsResult :
      (s : BlockProcessor)
      → IsValid crypto origin s
      → IsQueued s
      → Ends (λ _ t. IsResult s t) (IsResult s) (stop crypto s)
  unfolding stop
  stop-IsResult s v q =
      Ends-continue _ _
        (Ends-weaken
          (logged-Ends {P = IsSuccessor crypto origin s} _
            (try_drain-IsSuccessor crypto origin s v q))
          (λ _ t e. e) (λ t e. record { valid = e.valid; extends = e.extends }))
        λ _ t e. done (record {
          valid = record {
            chain = e.valid.chain;
            shared = e.valid.shared;
            settled = e.valid.settled;
          };
          extends = record {
            head_grows = e.extends.head_grows;
            same_prefix = e.extends.same_prefix;
          };
        })

  run-IsResult :
      (messages : List ProcessorMessage) (s : BlockProcessor)
      → IsValid crypto origin s
      → IsQueued s
      → Ends (λ _ t. IsResult s t) (IsResult s) (run crypto messages s)
  unfolding run
  run-IsResult [] s v q = stop-IsResult s v q
  run-IsResult (shutdown ∷ messages) s v q = stop-IsResult s v q
  run-IsResult (new_block block peer_id ∷ messages) s v q =
      Ends-continue _ _
        (Ends-weaken
          (logged-Ends {P = IsSuccessor crypto origin s} _
            (handle_new_block-IsSuccessor crypto origin block peer_id s v q))
          (λ _ t e. e) (λ t e. record { valid = e.valid; extends = e.extends }))
        λ _ t e.
          Ends-weaken (run-IsResult messages t e.valid e.queued)
            (λ _ u r. record {
              valid = r.valid;
              extends = Extends-trans crypto origin e.extends r.extends;
            })
            (λ u r. record {
              valid = r.valid;
              extends = Extends-trans crypto origin e.extends r.extends;
            })
  run-IsResult (get_account_state address ∷ messages) s v q =
      answer-Ends _ _ (run-IsResult messages s v q)

  -- Over any sequence of messages, a run that does not panic keeps the chain. Started from a
  -- processor whose stored blocks, each under its number and found by the hash of its header, are
  -- one chain of parent hashes from the block of number `origin` up to the head, a 64-bit number,
  -- with the shared head equal to the head, no journal open and every queued block above the head
  -- under its number, the run ends in such a chain and shared head with no journal open; the head
  -- has not gone back, and every block up to the old head is what it was.
  pub run_keeps_chain :
      (messages : List ProcessorMessage) (s : BlockProcessor) (answers : Answers)
      → IsValid crypto origin s
      → IsQueued s
      → (run crypto messages s).0 ≡ ok answers
      → IsResult s (run crypto messages s).1
  run_keeps_chain messages s answers v q h = Ends-ok (run-IsResult messages s v q) h
