-- ===== src/Processor/Valid.antt =====
-- processor/src/block_processor.rs: the chain that a processor keeps, and its queue.
use rust_eth_playground.Prelude.{
  ℕ, suc, ◌+◌, ◌≡◌, ◌≤◌, ◌<◌, ◌^◌, refl, subst, ◌∙◌, none, some, nat_eq, bytes_eq, get, arith, ok,
  ok_or, ok_or-eq-ok, >>=-eq-ok,
}
use rust_eth_playground.Types.Primitives.{B256, ChainHead}
use rust_eth_playground.Types.Transaction.{Block}
use rust_eth_playground.Signing.{Crypto}
use rust_eth_playground.Signing.Total.{header_hash}
use rust_eth_playground.Execution.Types.{header_not_found}
use rust_eth_playground.Execution.Provider.{
  InMemoryProvider, get_block_by_hash, get_block_by_number,
}
use rust_eth_playground.Processor.State.{PendingBlock, BlockProcessor}
use rust_eth_playground.Processor.Steps.{Rejected, Committed}

-- Every queued block is filed under its number, above the head.
abbrev pub IsQueued : BlockProcessor → Type 0
IsQueued s =
    (n : ℕ) (pending : PendingBlock)
    → get n s.pending_map ≡ some pending
    → (s.chain_head.number < n) × (pending.block.header.number ≡ n)

module _ (crypto : Crypto) (origin : ℕ) where
  -- The stored blocks are one chain, from the block of number `origin` to the head.
  pub record IsChain (head : ChainHead) (p : InMemoryProvider) : Type 0 where
    pub head_fits : head.number < 2 ^ 64
    pub head_stored :
        (b : Block) × (get head.number p.blocks ≡ some b)
        × (header_hash crypto b.header ≡ head.hash)
    pub keyed : (n : ℕ) (b : Block) → get n p.blocks ≡ some b → b.header.number ≡ n
    pub bounded : (n : ℕ) (b : Block) → get n p.blocks ≡ some b → n ≤ head.number
    pub linked :
        (n : ℕ) (b : Block)
        → origin ≤ n
        → get (suc n) p.blocks ≡ some b
        → (parent : Block) × (get n p.blocks ≡ some parent)
          × (b.header.parent_hash ≡ header_hash crypto parent.header)
    pub indexed :
        (hash : B256) (n : ℕ)
        → get hash p.blocks_by_hash ≡ some n
        → (b : Block) × (get n p.blocks ≡ some b) × (header_hash crypto b.header ≡ hash)

  -- A processor between two messages: its blocks are a chain that ends at its head, the shared
  -- head is its head, and no journal is open.
  pub record IsValid (s : BlockProcessor) : Type 0 where
    pub chain : IsChain s.chain_head s.provider
    pub shared : s.shared_head ≡ s.chain_head
    pub settled : s.provider.journal ≡ none

  -- The head has not gone back, and the blocks up to it are what they were.
  pub record Extends (s t : BlockProcessor) : Type 0 where
    pub head_grows : s.chain_head.number ≤ t.chain_head.number
    pub same_prefix :
        (n : ℕ) → n ≤ s.chain_head.number → get n t.provider.blocks ≡ get n s.provider.blocks

  pub Extends-refl : (s : BlockProcessor) → Extends s s
  Extends-refl s = record { head_grows = omega arith; same_prefix = λ n h. refl }

  pub Extends-trans : {s t u : BlockProcessor} → Extends s t → Extends t u → Extends s u
  Extends-trans e f = record {
    head_grows = omega (arith, e.head_grows, f.head_grows);
    same_prefix = λ n h. f.same_prefix n (omega (arith, h, e.head_grows)) ∙ e.same_prefix n h;
  }

  -- A refused block keeps all of it.
  pub Rejected-IsValid : {s t : BlockProcessor} → Rejected s t → IsValid s → IsValid t
  Rejected-IsValid {s} {t} r v = record {
    chain = rw (r.same_head) (same_blocks-IsChain v.chain);
    shared = rw (r.same_shared_head, r.same_head) v.shared;
    settled = rw (r.same_provider.same_journal) v.settled;
  }
    where
      same_blocks-IsChain : IsChain s.chain_head s.provider → IsChain s.chain_head t.provider
      same_blocks-IsChain c = record {
        head_fits = c.head_fits;
        head_stored = rw (r.same_provider.same_blocks) c.head_stored;
        keyed = rw (r.same_provider.same_blocks) c.keyed;
        bounded = rw (r.same_provider.same_blocks) c.bounded;
        linked = rw (r.same_provider.same_blocks) c.linked;
        indexed = rw (r.same_provider.same_blocks, r.same_provider.same_blocks_by_hash) c.indexed;
      }

  pub Rejected-Extends : {s t : BlockProcessor} → Rejected s t → Extends s t
  Rejected-Extends r = record {
    head_grows = rw (r.same_head) (omega arith);
    same_prefix = λ n h. rw (r.same_provider.same_blocks) refl;
  }

  found_by_hash :
      (hash : B256) (p : InMemoryProvider) (b : Block)
      → get_block_by_hash hash p ≡ ok b
      → (n : ℕ) × (get hash p.blocks_by_hash ≡ some n) × (get n p.blocks ≡ some b)
  unfolding get_block_by_hash get_block_by_number
  found_by_hash hash p b h =
      let (n, e, f) = >>=-eq-ok (ok_or (get hash p.blocks_by_hash) (header_not_found hash)) _ h in
      (n, ok_or-eq-ok _ _ e, ok_or-eq-ok _ _ f)

  -- The block that a processor commits is the child of its head.
  pub record IsChild (block : Block) (head : ChainHead) (p : InMemoryProvider) : Type 0 where
    pub number_next : block.header.number ≡ head.number + 1
    pub number_fits : block.header.number < 2 ^ 64
    pub parent : Block
    pub parent_stored : get head.number p.blocks ≡ some parent
    pub parent_hash_matches : block.header.parent_hash ≡ header_hash crypto parent.header

  pub Committed-IsChild :
      (block : Block) (s t : BlockProcessor)
      → IsChain s.chain_head s.provider
      → Committed crypto block s t
      → IsChild block s.chain_head s.provider
  Committed-IsChild block s t v c =
      let (n, _, stored) =
        found_by_hash block.header.parent_hash s.provider c.parent c.parent_found in
      let at_key : c.parent.header.number ≡ n = v.keyed n c.parent stored in
      let at_head : n ≡ s.chain_head.number = omega (
        arith, at_key, c.follows.number_follows, c.follows.number_fits, c.next_number, v.head_fits,
      ) in
      record {
        number_next = omega (arith, at_key, at_head, c.follows.number_follows);
        number_fits = c.follows.number_fits;
        parent = c.parent;
        parent_stored = subst (λ k. get k s.provider.blocks ≡ some c.parent) at_head stored;
        parent_hash_matches = c.follows.parent_hash_matches;
      }
