-- ===== src/Execution/Cached/Coherent.antt =====
-- core/execution/src/in_memory.rs behind cached.rs: the in-memory provider is a provider to cache.
use rust_eth_playground.Prelude.{
  ℕ, ◌≡◌, refl, sym, ◌∙◌, ap, subst, some, HashMap, get, insert, ok, ok_or, nat_eq, bytes_eq,
  get-insert_cases, get-insert_same, get-insert, bytes_beq, bytes_beq_iff, Bool-cases, inl, inr,
  ok-injective, >>=-eq-ok, ok_or-eq-ok,
}
use rust_eth_playground.Types.Primitives.{B256}
use rust_eth_playground.Types.Transaction.{Block}
use rust_eth_playground.Signing.{Crypto}
use rust_eth_playground.Signing.Total.{header_hash}
use rust_eth_playground.Execution.Provider
use rust_eth_playground.Execution.Provider.{InMemoryProvider, empty_provider, insert_block}
use rust_eth_playground.Execution.Insert.{insert_block-Inserted}
use rust_eth_playground.Execution.Cached.{FullProvider}
use rust_eth_playground.Execution.Cached.Refines.{IsCoherent}

-- The reads of the in-memory provider.
abbrev pub in_memory_reads : InMemoryProvider → FullProvider
in_memory_reads p = record {
  get_block_by_number = λ number. Provider.get_block_by_number number p;
  get_block_by_hash = λ hash. Provider.get_block_by_hash hash p;
  get_header_by_number = λ number. Provider.get_header_by_number number p;
  get_header_by_hash = λ hash. Provider.get_header_by_hash hash p;
  get_account = λ address. Provider.get_account address p;
  get_storage = λ address slot. Provider.get_storage address slot p;
  get_transaction = λ hash. Provider.get_transaction hash p;
  get_block_transactions = λ number. Provider.get_block_transactions number p;
  get_receipt = λ hash. Provider.get_receipt hash p;
}

-- Each block is filed under its own number, and that number under the hash of its header.
pub record IsFiled (crypto : Crypto) (p : InMemoryProvider) : Type 0 where
  pub own_number :
      (number : ℕ) (block : Block) → get number p.blocks ≡ some block → block.header.number ≡ number
  pub own_hash :
      (number : ℕ) (block : Block)
      → get number p.blocks ≡ some block
      → get (header_hash crypto block.header) p.blocks_by_hash ≡ some number

-- No block of another number has the hash of this block.
abbrev pub HasFreshHash : Crypto → Block → InMemoryProvider → Type 0
HasFreshHash crypto block p =
    (number : ℕ) (other : Block)
    → get number p.blocks ≡ some other
    → header_hash crypto other.header ≡ header_hash crypto block.header
    → number ≡ block.header.number

get-insert_known :
    (h k : B256) (n number : ℕ) (m : HashMap B256 ℕ)
    → (h ≡ k → n ≡ number)
    → get k m ≡ some number
    → get k (insert h n m) ≡ some number
get-insert_known h k n number m same there = elim (Bool-cases (bytes_beq h k)) [
  | inl equal ↦ rw (get-insert h k n m, equal) (ap some (same ((bytes_beq_iff h k).0 equal)))
  | inr apart ↦ rw (get-insert h k n m, apart) there
]

module _ (crypto : Crypto) where
  pub empty_provider-IsFiled : IsFiled crypto empty_provider
  unfolding get
  empty_provider-IsFiled = record {
    own_number = λ number block h. cc;
    own_hash = λ number block h. cc;
  }

  -- Inserting a block into a provider that files each block under its own number, and that number
  -- under the hash of the block's header, leaves such a provider, if no block with another number
  -- has the hash of the new one.
  pub insert_block-IsFiled :
      (block : Block) (p : InMemoryProvider)
      → HasFreshHash crypto block p
      → IsFiled crypto p
      → IsFiled crypto (insert_block crypto block p).1
  insert_block-IsFiled block p apart filed =
      let (q, run, i) = insert_block-Inserted crypto block p in
      subst (λ t. IsFiled crypto t) (sym (ap (λ r. r.1) run))
        (record {
          own_number = λ number b there.
              elim (get-insert_cases block.header.number number block b p.blocks
                (subst (λ m. get number m ≡ some b) i.new_blocks there)) [
                  | inl (same, same_block) ↦ ap (λ t. t.header.number) (sym same_block) ∙ same
                  | inr (_, old) ↦ filed.own_number number b old
                ];
          own_hash = λ number b there.
              let from =
                get-insert_cases block.header.number number block b p.blocks
                  (subst (λ m. get number m ≡ some b) i.new_blocks there) in
              subst (λ m. get (header_hash crypto b.header) m ≡ some number)
                (sym i.new_blocks_by_hash)
                (elim from [
                  | inl (same, same_block) ↦
                      subst
                        (λ h.
                          get h (
                            insert (header_hash crypto block.header) block.header.number
                              p.blocks_by_hash)
                          ≡ some number)
                        (ap (λ t. header_hash crypto t.header) same_block)
                        (get-insert_same (header_hash crypto block.header) block.header.number
                            p.blocks_by_hash
                          ∙ ap some same)
                  | inr (_, old) ↦
                      get-insert_known (header_hash crypto block.header)
                        (header_hash crypto b.header) block.header.number number p.blocks_by_hash
                        (λ same. sym (apart number b old (sym same))) (filed.own_hash number b old)
                ]);
        })

  -- A provider whose blocks are filed may be cached: what it finds under a hash it finds under the
  -- number, and the other way round.
  pub in_memory_reads-IsCoherent :
      (p : InMemoryProvider) → IsFiled crypto p → IsCoherent crypto (in_memory_reads p)
  unfolding Provider.get_block_by_hash Provider.get_block_by_number Provider.get_header_by_hash
      Provider.get_header_by_number
  in_memory_reads-IsCoherent p filed = record {
    block_under_number = λ hash block found.
        let (number, _, there) = >>=-eq-ok (ok_or (get hash p.blocks_by_hash) _) _ found in
        let here = ok_or-eq-ok (get number p.blocks) _ there in
        ap (λ n. Provider.get_block_by_number n p) (filed.own_number number block here) ∙ there;
    header_under_hash = λ number header found.
        let (block, there, same) = >>=-eq-ok (ok_or (get number p.blocks) _) _ found in
        let here = ok_or-eq-ok (get number p.blocks) _ there in
        subst (λ h. Provider.get_header_by_hash (header_hash crypto h) p ≡ ok h) (ok-injective same)
          (rw (filed.own_hash number block here, here) refl);
  }
