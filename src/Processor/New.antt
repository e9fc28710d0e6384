-- ===== src/Processor/New.antt =====
-- processor/src/block_processor.rs: the processor that `new` makes.
use rust_eth_playground.Prelude.{
  ℕ, suc, ◌≡◌, ◌<◌, ◌^◌, refl, sym, subst, ap, ◌∙◌, List, [], ◌∷◌, none, some, nat_eq, bytes_eq,
  get, insert, arith, ok, HashMap, inl, inr, get-insert_cases, get-insert_same, Option,
}
use rust_eth_playground.Types.Primitives.{Address, Account, ChainHead}
use rust_eth_playground.Types.Transaction.{Block}
use rust_eth_playground.Signing.{Crypto}
use rust_eth_playground.Rlp.Layout.{encode-rlp}
use rust_eth_playground.Codec.Blocks.{account_to_item}
use rust_eth_playground.Signing.Total.{header_hash}
use rust_eth_playground.Execution.Provider.{
  InMemoryProvider, empty_provider, set_account, journal_account,
}
use rust_eth_playground.Execution.Insert.{insert_block-Inserted}
use rust_eth_playground.Processor.State.{
  BlockProcessor, PendingBlock, zero_metrics, set_accounts, new_processor,
}
use rust_eth_playground.Processor.Valid.{IsChain, IsValid, IsQueued}

-- Setting the accounts never fails, leaves the blocks as they are, and opens no journal.
set_accounts-blocks :
    (accounts : List (Address × Account)) (p : InMemoryProvider)
    → p.journal ≡ none
    → (q : InMemoryProvider) × (set_accounts accounts p ≡ ok q)
      × (q.blocks ≡ p.blocks)
      × (q.blocks_by_hash ≡ p.blocks_by_hash)
      × (q.journal ≡ none)
unfolding set_accounts set_account journal_account
set_accounts-blocks [] p h = (p, refl, refl, refl, h)
set_accounts-blocks ((address, account) ∷ rest) p h =
    rw (encode-rlp (account_to_item account) [])
      (set_accounts-blocks rest (set_account address account p) (rw h refl))

empty-IsQueued : (s : BlockProcessor) → s.pending_map ≡ [] → IsQueued s
unfolding get
empty-IsQueued s empty n pending h =
    let absurd : ◌≡◌ {A = Option PendingBlock} none (some pending) = rw empty at h in cc

abbrev fresh : HashMap Address Account → ℕ → ChainHead → InMemoryProvider → BlockProcessor
fresh accounts chain_id head p = record {
  pending_map = [];
  chain_id = chain_id;
  chain_head = head;
  provider = p;
  accounts = accounts;
  shared_head = head;
  metrics = zero_metrics;
}

module _ (crypto : Crypto) (genesis : Block) (head : ChainHead)
    (fits : genesis.header.number < 2 ^ 64) (at : head.number ≡ genesis.header.number)
    (hashed : head.hash ≡ header_hash crypto genesis.header) where
  genesis-IsChain :
      (p : InMemoryProvider)
      → p.blocks ≡ insert genesis.header.number genesis []
      → p.blocks_by_hash ≡ insert (header_hash crypto genesis.header) genesis.header.number []
      → IsChain crypto genesis.header.number head p
  unfolding get
  genesis-IsChain p blocks by_hash =
      let only : (n : ℕ) (b : Block)
          → get n p.blocks ≡ some b
          → (genesis.header.number ≡ n) × (genesis ≡ b) =
        λ n b h. elim (get-insert_cases genesis.header.number n genesis b [] (rw blocks at h)) [
          | inl same ↦ same
          | inr (_, old) ↦ cc
        ] in
      let stored : get genesis.header.number p.blocks ≡ some genesis =
        rw blocks (get-insert_same genesis.header.number genesis []) in
      record {
        head_fits = rw at fits;
        head_stored = (genesis, rw at stored, sym hashed);
        keyed = λ n b h. ap (λ x. x.header.number) (sym (only n b h).1) ∙ (only n b h).0;
        bounded = λ n b h. omega (arith, (only n b h).0, at);
        linked = λ n b above h.
            let absurd : ⊥ = omega (arith, (only (suc n) b h).0, above) in elim absurd [ ];
        indexed = λ hash n h.
            elim (get-insert_cases (header_hash crypto genesis.header) hash genesis.header.number n
              [] (rw by_hash at h)) [
                | inl (same, number) ↦
                    (genesis, subst (λ k. get k p.blocks ≡ some genesis) number stored, same)
                | inr (_, old) ↦ cc
              ];
      }

  pub new_processor-IsValid :
      (accounts : HashMap Address Account) (chain_id : ℕ)
      → (s : BlockProcessor) × (new_processor crypto genesis accounts chain_id head ≡ ok s)
        × IsValid crypto genesis.header.number s
        × IsQueued s
  unfolding new_processor get
  new_processor-IsValid accounts chain_id =
      let (p, run, i) = insert_block-Inserted crypto genesis empty_provider in
      let (q, set, blocks, by_hash, settled) = set_accounts-blocks accounts p i.same_journal in
      (
        fresh accounts chain_id head q,
        rw (run, set) refl,
        record {
          chain = genesis-IsChain q (blocks ∙ i.new_blocks) (by_hash ∙ i.new_blocks_by_hash);
          shared = refl;
          settled = settled;
        },
        empty-IsQueued (fresh accounts chain_id head q) refl,
      )
