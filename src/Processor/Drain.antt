-- ===== src/Processor/Drain.antt =====
-- processor/src/block_processor.rs: `try_drain` and `handle_new_block` keep the chain.
use rust_eth_playground.Prelude.{
  ℕ, zero, suc, ◌≡◌, ◌<◌, refl, sym, ap, ◌∙◌, none, some, nat_eq, get, insert, remove, arith,
  Result, ok, get-insert_cases, get-remove-some, inl, inr, Option, wrapping_add_u64, length,
}
use rust_eth_playground.Prelude.Action.{continue, modify}
use rust_eth_playground.Prelude.Ends.{
  Ends, done, failed, panicked, Ends-pure_bind, Ends-known_bind, Ends-continue, Ends-weaken,
}
use rust_eth_playground.Types.Transaction.{Block}
use rust_eth_playground.Signing.{Crypto}
use rust_eth_playground.Processor.State.{
  ProcessorError, PendingBlock, BlockProcessor, ProcessorAction, count_received,
}
use rust_eth_playground.Processor.Process.{
  process_block, logged, drain, try_drain, handle_new_block,
}
use rust_eth_playground.Processor.Steps.{Rejected, Committed, reject_if-Ends}
use rust_eth_playground.Processor.Chain.{process_block-Ends}
use rust_eth_playground.Processor.Valid.{
  IsValid, IsQueued, Extends, Extends-refl, Extends-trans, Rejected-IsValid, Rejected-Extends,
}
use rust_eth_playground.Processor.Extend.{Committed-IsValid, Committed-number, Committed-Extends}

module _ (crypto : Crypto) (origin : ℕ) where
  -- A valid processor, with its queue, that has grown out of another.
  pub record IsSuccessor (s t : BlockProcessor) : Type 0 where
    pub valid : IsValid crypto origin t
    pub queued : IsQueued t
    pub extends : Extends crypto origin s t

  IsSuccessor-refl : (s : BlockProcessor) → IsValid crypto origin s → IsQueued s → IsSuccessor s s
  IsSuccessor-refl s v q = record { valid = v; queued = q; extends = Extends-refl crypto origin s }

  IsSuccessor-trans : {s t u : BlockProcessor} → IsSuccessor s t → IsSuccessor t u → IsSuccessor s u
  IsSuccessor-trans e f = record {
    valid = f.valid;
    queued = f.queued;
    extends = Extends-trans crypto origin e.extends f.extends;
  }

  -- The processor with one block taken from its queue.
  abbrev taken : ℕ → BlockProcessor → BlockProcessor
  taken n s = record s { pending_map = remove n s.pending_map }

  Rejected-IsSuccessor :
      (n : ℕ) (s t : BlockProcessor)
      → IsValid crypto origin s
      → IsQueued s
      → Rejected (taken n s) t
      → IsSuccessor s t
  Rejected-IsSuccessor n s t v q r = record {
    valid =
        Rejected-IsValid crypto origin r
          (record { chain = v.chain; shared = v.shared; settled = v.settled });
    queued =
        rw (r.same_pending, r.same_head)
          (λ k pending h. q k pending (get-remove-some n k pending s.pending_map h).1);
    extends = record {
      head_grows = (Rejected-Extends crypto origin r).head_grows;
      same_prefix = (Rejected-Extends crypto origin r).same_prefix;
    };
  }

  Committed-IsSuccessor :
      (n : ℕ) (pending : PendingBlock) (s t : BlockProcessor)
      → IsValid crypto origin s
      → IsQueued s
      → get n s.pending_map ≡ some pending
      → Committed crypto pending.block (taken n s) t
      → IsSuccessor s t
  Committed-IsSuccessor n pending s t v q found c =
      let v' : IsValid crypto origin (taken n s) = record {
        chain = v.chain;
        shared = v.shared;
        settled = v.settled;
      } in
      record {
        valid = Committed-IsValid crypto origin pending.block (taken n s) t v' c;
        queued = λ k other h.
            let (apart, old) = get-remove-some n k other s.pending_map (rw c.same_pending at h) in
            let (above, filed) = q k other old in
            let next = Committed-number crypto origin pending.block (taken n s) t v' c in
            let at : pending.block.header.number ≡ n = (q n pending found).1 in
            let head = ap (λ x. x.number) c.new_head in
            (omega (arith, above, apart, next, at, head), filed);
        extends = record {
          head_grows =
              (Committed-Extends crypto origin pending.block (taken n s) t v' c).head_grows;
          same_prefix =
              (Committed-Extends crypto origin pending.block (taken n s) t v' c).same_prefix;
        };
      }

  logged-IsSuccessor :
      (n : ℕ) (pending : PendingBlock) (s : BlockProcessor)
      → IsValid crypto origin s
      → IsQueued s
      → get n s.pending_map ≡ some pending
      → (r : Result ProcessorError (Unit {0}) × BlockProcessor)
      → Ends (λ _ t. Committed crypto pending.block (taken n s) t) (Rejected (taken n s)) r
      → Ends (λ _ t. IsSuccessor s t) (IsSuccessor s) (logged crypto r)
  logged-IsSuccessor n pending s v q found r (done {s = t} h) =
      done (Committed-IsSuccessor n pending s t v q found h)
  logged-IsSuccessor n pending s v q found r (failed {s = t} h) =
      done (Rejected-IsSuccessor n s t v q h)
  logged-IsSuccessor n pending s v q found r panicked = panicked

  -- One round of the loop, before rounds that keep the chain.
  round-IsSuccessor :
      (n : ℕ) (s : BlockProcessor) (rest : ProcessorAction (Unit {0}))
      → IsValid crypto origin s
      → IsQueued s
      → ((t : BlockProcessor)
          → IsSuccessor s t
          → Ends (λ _ u. IsSuccessor t u) (IsSuccessor t) (rest t))
      → (r : Option PendingBlock) → get n s.pending_map ≡ r
      → Ends {E = ProcessorError} {A = Unit {0}}
          (λ _ t. IsSuccessor s t)
          (IsSuccessor s)
          (elim r [
            | none ↦ (ok tt, s)
            | some pending ↦
                continue
                  (logged crypto (process_block crypto pending.block (taken n s)))
                  (λ _. rest)
          ])
  round-IsSuccessor n s rest v q keeps none same = done (IsSuccessor-refl s v q)
  round-IsSuccessor n s rest v q keeps (some pending) same =
      Ends-continue _ _
        (logged-IsSuccessor n pending s v q same _
          (process_block-Ends crypto pending.block (taken n s)))
        λ _ t e. Ends-weaken (keeps t e) (λ _ u. IsSuccessor-trans e) (λ u. IsSuccessor-trans e)

  drain-IsSuccessor :
      (fuel n : ℕ) (s : BlockProcessor)
      → IsValid crypto origin s
      → IsQueued s
      → Ends (λ _ t. IsSuccessor s t) (IsSuccessor s) (drain crypto fuel n s)
  unfolding drain
  drain-IsSuccessor zero n s v q = done (IsSuccessor-refl s v q)
  drain-IsSuccessor (suc fuel) n s v q =
      round-IsSuccessor n s (drain crypto fuel (wrapping_add_u64 n 1)) v q
        (λ t e. drain-IsSuccessor fuel (wrapping_add_u64 n 1) t e.valid e.queued)
        (get n s.pending_map) refl

  pub try_drain-IsSuccessor :
      (s : BlockProcessor)
      → IsValid crypto origin s
      → IsQueued s
      → Ends (λ _ t. IsSuccessor s t) (IsSuccessor s) (try_drain crypto s)
  unfolding try_drain
  try_drain-IsSuccessor s v q =
      drain-IsSuccessor (length s.pending_map) (wrapping_add_u64 s.chain_head.number 1) s v q

  -- The processor with a received block in its queue.
  abbrev queue : Block → ℕ → BlockProcessor → BlockProcessor
  queue block peer_id s = record s {
    pending_map =
        insert block.header.number (record { block = block; peer_id = peer_id }) s.pending_map;
  }

  queue-IsSuccessor :
      (block : Block) (peer_id : ℕ) (s : BlockProcessor)
      → IsValid crypto origin s
      → IsQueued s
      → s.chain_head.number < block.header.number
      → IsSuccessor s (queue block peer_id (count_received s))
  queue-IsSuccessor block peer_id s v q above = record {
    valid = record { chain = v.chain; shared = v.shared; settled = v.settled };
    queued = λ n pending h.
        elim (get-insert_cases block.header.number n _ pending s.pending_map h) [
          | inl (at, same) ↦
              (omega (arith, above, at), ap (λ x. x.block.header.number) (sym same) ∙ at)
          | inr (_, old) ↦ q n pending old
        ];
    extends = record { head_grows = omega arith; same_prefix = λ n h. refl };
  }

  counted-IsSuccessor :
      (s : BlockProcessor) → IsValid crypto origin s → IsQueued s → IsSuccessor s (count_received s)
  counted-IsSuccessor s v q = record {
    valid = record { chain = v.chain; shared = v.shared; settled = v.settled };
    queued = q;
    extends = record { head_grows = omega arith; same_prefix = λ n h. refl };
  }

  stale-IsSuccessor :
      (s t : BlockProcessor) → IsValid crypto origin s → IsQueued s → Rejected s t → IsSuccessor s t
  stale-IsSuccessor s t v q r = record {
    valid = Rejected-IsValid crypto origin r v;
    queued = rw (r.same_pending, r.same_head) q;
    extends = Rejected-Extends crypto origin r;
  }

  pub handle_new_block-IsSuccessor :
      (block : Block) (peer_id : ℕ) (s : BlockProcessor)
      → IsValid crypto origin s
      → IsQueued s
      → Ends (λ _ t. IsSuccessor s t) (IsSuccessor s) (handle_new_block crypto block peer_id s)
  unfolding handle_new_block modify
  handle_new_block-IsSuccessor block peer_id s v q =
      let counted = counted-IsSuccessor s v q in
      Ends-known_bind (modify count_received) (λ _. _) s (count_received s) tt refl
        (Ends-pure_bind _ (λ _. _) (count_received s)
          (Ends-weaken (reject_if-Ends _ _ (count_received s)) (λ _ _ h. h)
            (λ t r.
              IsSuccessor-trans counted
                (stale-IsSuccessor (count_received s) t counted.valid counted.queued r)))
          λ _ fresh.
            let e = queue-IsSuccessor block peer_id s v q (ground (arith, fresh)) in
            Ends-known_bind (modify (queue block peer_id)) (λ _. _) (count_received s) _ tt refl
              (Ends-weaken (try_drain-IsSuccessor _ e.valid e.queued) (λ _ _. IsSuccessor-trans e)
                (λ _. IsSuccessor-trans e)))
