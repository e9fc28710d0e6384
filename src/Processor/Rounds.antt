-- ===== src/Processor/Rounds.antt =====
-- processor/src/block_processor.rs: the rounds of the drain are enough, and the processor that
-- `new` makes is a valid one.
use rust_eth_playground.Prelude.{
  ℕ, zero, suc, ◌≡◌, ◌≤◌, ◌<◌, refl, ap, [], ◌∷◌, none, some, Option, nat_eq, bytes_eq, get, remove,
  arith, Result, ok, length, wrapping_add_u64, HashMap, ==_iff,
}
use rust_eth_playground.Prelude.Action.{continue}
use rust_eth_playground.Prelude.Ends.{Ends, done, failed, panicked}
use rust_eth_playground.Types.Transaction.{Block}
use rust_eth_playground.Signing.{Crypto}
use rust_eth_playground.Processor.State.{ProcessorError, PendingBlock, BlockProcessor}
use rust_eth_playground.Processor.Process.{logged, drain, process_block}
use rust_eth_playground.Processor.Steps.{Rejected, Committed}
use rust_eth_playground.Processor.Chain.{process_block-Ends}

length-remove : {V : Type 0} (n : ℕ) (m : HashMap ℕ V) → length (remove n m) ≤ length m
unfolding remove
length-remove n [] = omega arith
length-remove n ((j, w) ∷ m) = ground (arith, length-remove n m)

remove_shrinks :
    {V : Type 0} (n : ℕ) (m : HashMap ℕ V) (v : V)
    → get n m ≡ some v
    → length (remove n m) < length m
unfolding get remove
remove_shrinks n [] v h = cc
remove_shrinks n ((j, w) ∷ m) v h =
    ground (arith, ==_iff j n, remove_shrinks n m v, length-remove n m)

module _ (crypto : Crypto) where
  -- A processed block leaves the queue as it is.
  logged-pending :
      (block : Block) (s : BlockProcessor)
      → Ends {A = Unit {0}}
          (λ _ t. t.pending_map ≡ s.pending_map)
          (λ t. t.pending_map ≡ s.pending_map)
          (logged crypto (process_block crypto block s))
  logged-pending block s = go (process_block crypto block s) (process_block-Ends crypto block s)
    where
      go :
          (r : Result ProcessorError (Unit {0}) × BlockProcessor)
          → Ends (λ _ t. Committed crypto block s t) (Rejected s) r
          → Ends {A = Unit {0}}
              (λ _ t. t.pending_map ≡ s.pending_map)
              (λ t. t.pending_map ≡ s.pending_map)
              (logged crypto r)
      go r (done h) = done h.same_pending
      go r (failed h) = done h.same_pending
      go r panicked = panicked

  -- Two continuations that agree on what a round leaves.
  continue-agrees :
      (pending : HashMap ℕ PendingBlock)
      (f g : BlockProcessor → Result ProcessorError (Unit {0}) × BlockProcessor)
      (r : Result ProcessorError (Unit {0}) × BlockProcessor)
      → Ends (λ _ t. t.pending_map ≡ pending) (λ t. t.pending_map ≡ pending) r
      → ((t : BlockProcessor) → t.pending_map ≡ pending → f t ≡ g t)
      → continue r (λ _. f) ≡ continue r (λ _. g)
  continue-agrees pending f g r (done {s = t} h) same = same t h
  continue-agrees pending f g r (failed h) same = refl
  continue-agrees pending f g r panicked same = refl

  drain-none :
      (fuel n : ℕ) (s : BlockProcessor)
      → get n s.pending_map ≡ none
      → drain crypto fuel n s ≡ (ok tt, s)
  unfolding drain
  drain-none zero n s h = refl
  drain-none (suc fuel) n s h = rw (drain, h) refl

  get-none_of_empty : (n : ℕ) (m : HashMap ℕ PendingBlock) → length m ≤ 0 → get n m ≡ none
  unfolding get
  get-none_of_empty n [] h = refl
  get-none_of_empty n (e ∷ m) h = let absurd : ⊥ = omega (arith, h) in elim absurd [ ]

  -- The drain makes no more rounds than the queue has entries: more fuel changes nothing, so the
  -- loop ends because the next block is not in the queue, and not because the fuel ran out.
  pub drain_enough :
      (fuel more n : ℕ) (s : BlockProcessor)
      → length s.pending_map ≤ fuel
      → fuel ≤ more
      → drain crypto more n s ≡ drain crypto fuel n s
  unfolding drain
  drain_enough zero more n s h h' = drain-none more n s (get-none_of_empty n s.pending_map h)
  drain_enough (suc fuel) zero n s h h' = let absurd : ⊥ = omega (arith, h') in elim absurd [ ]
  drain_enough (suc fuel) (suc more) n s h h' =
      go (get n s.pending_map) refl
        λ t smaller. drain_enough fuel more (wrapping_add_u64 n 1) t smaller (omega (arith, h'))
    where
      go :
          (r : Option PendingBlock)
          → get n s.pending_map ≡ r
          → ((t : BlockProcessor)
              → length t.pending_map ≤ fuel
              → drain crypto more (wrapping_add_u64 n 1) t
                ≡ drain crypto fuel (wrapping_add_u64 n 1) t)
          → ◌≡◌ {A = Result ProcessorError (Unit {0}) × BlockProcessor}
              (elim r [
                | none ↦ (ok tt, s)
                | some pending ↦
                    continue
                      (logged crypto (
                        process_block crypto pending.block
                          (record s { pending_map = remove n s.pending_map })))
                      (λ _. drain crypto more (wrapping_add_u64 n 1))
              ])
              (elim r [
                | none ↦ (ok tt, s)
                | some pending ↦
                    continue
                      (logged crypto (
                        process_block crypto pending.block
                          (record s { pending_map = remove n s.pending_map })))
                      (λ _. drain crypto fuel (wrapping_add_u64 n 1))
              ])
      go none same rest = refl
      go (some pending) same rest =
          continue-agrees (remove n s.pending_map) _ _ _
            (logged-pending pending.block (record s { pending_map = remove n s.pending_map }))
            λ t left. rest t (
              omega
                (arith, h, remove_shrinks n s.pending_map pending same, ap (λ m. length m) left))
