-- ===== src/Processor/Extend.antt =====
-- processor/src/block_processor.rs: a committed block makes the chain one longer.
use rust_eth_playground.Prelude.{
  ℕ, suc, ◌+◌, ◌≡◌, ◌≤◌, sym, subst, ap, ◌∙◌, some, nat_eq, bytes_eq, get, insert, get-insert_same,
  arith, get-insert_cases, get-insert_other, inl, inr,
}
use rust_eth_playground.Types.Primitives.{B256, ChainHead}
use rust_eth_playground.Types.Transaction.{Block}
use rust_eth_playground.Signing.{Crypto}
use rust_eth_playground.Signing.Total.{header_hash}
use rust_eth_playground.Execution.Provider.{InMemoryProvider}
use rust_eth_playground.Processor.State.{BlockProcessor}
use rust_eth_playground.Processor.Steps.{Committed}
use rust_eth_playground.Processor.Valid.{IsChain, IsValid, Extends, IsChild, Committed-IsChild}

module _ (crypto : Crypto) (origin : ℕ) (block : Block) (head new_head : ChainHead)
    (p q : InMemoryProvider) (chain : IsChain crypto origin head p)
    (child : IsChild crypto origin block head p)
    (new_number : new_head.number ≡ block.header.number)
    (new_hash : new_head.hash ≡ header_hash crypto block.header)
    (new_blocks : q.blocks ≡ insert block.header.number block p.blocks)
    (new_blocks_by_hash : q.blocks_by_hash
      ≡ insert (header_hash crypto block.header) block.header.number p.blocks_by_hash) where
  pub kept : (n : ℕ) → n ≤ head.number → get n q.blocks ≡ get n p.blocks
  kept n h = rw new_blocks (
      get-insert_other block.header.number n block p.blocks
        λ same. omega (arith, same, h, child.number_next))

  block_stored : get block.header.number q.blocks ≡ some block
  block_stored = rw new_blocks (get-insert_same block.header.number block p.blocks)

  keyed : (n : ℕ) (b : Block) → get n q.blocks ≡ some b → b.header.number ≡ n
  keyed n b h =
      elim (get-insert_cases block.header.number n block b p.blocks (rw new_blocks at h)) [
        | inl (at_new, same) ↦ ap (λ x. x.header.number) (sym same) ∙ at_new
        | inr (_, old) ↦ chain.keyed n b old
      ]

  bounded : (n : ℕ) (b : Block) → get n q.blocks ≡ some b → n ≤ block.header.number
  bounded n b h =
      elim (get-insert_cases block.header.number n block b p.blocks (rw new_blocks at h)) [
        | inl (at_new, same) ↦ omega (arith, at_new)
        | inr (_, old) ↦ omega (arith, chain.bounded n b old, child.number_next)
      ]

  linked :
      (n : ℕ) (b : Block)
      → origin ≤ n
      → get (suc n) q.blocks ≡ some b
      → (parent : Block) × (get n q.blocks ≡ some parent)
        × (b.header.parent_hash ≡ header_hash crypto parent.header)
  linked n b above h =
      elim (get-insert_cases block.header.number (suc n) block b p.blocks (rw new_blocks at h)) [
        | inl (at_new, same) ↦
            let at_head : head.number ≡ n = omega (arith, at_new, child.number_next) in
            (
              child.parent,
              kept n (omega (arith, at_head))
                  ∙ subst (λ k. get k p.blocks ≡ some child.parent) at_head child.parent_stored,
              ap (λ x. x.header.parent_hash) (sym same) ∙ child.parent_hash_matches,
            )
        | inr (_, old) ↦
            let (parent, stored, matches) = chain.linked n b above old in
            (parent, kept n (omega (arith, chain.bounded (suc n) b old)) ∙ stored, matches)
      ]

  indexed :
      (hash : B256) (n : ℕ)
      → get hash q.blocks_by_hash ≡ some n
      → (b : Block) × (get n q.blocks ≡ some b) × (header_hash crypto b.header ≡ hash)
  indexed hash n h =
      elim (get-insert_cases (header_hash crypto block.header) hash block.header.number n
        p.blocks_by_hash (rw new_blocks_by_hash at h)) [
          | inl (same_hash, at_new) ↦
              (block, subst (λ k. get k q.blocks ≡ some block) at_new block_stored, same_hash)
          | inr (_, old) ↦
              let (b, stored, matches) = chain.indexed hash n old in
              (b, kept n (chain.bounded n b stored) ∙ stored, matches)
        ]

  pub child-IsChain : IsChain crypto origin new_head q
  child-IsChain = record {
    head_fits = rw new_number child.number_fits;
    head_stored = (block, rw new_number block_stored, sym new_hash);
    keyed = keyed;
    bounded = λ n b h. rw new_number (bounded n b h);
    linked = linked;
    indexed = indexed;
  }

module _ (crypto : Crypto) (origin : ℕ) (block : Block) (s t : BlockProcessor)
    (valid : IsValid crypto origin s) (c : Committed crypto block s t) where
  abbrev child : IsChild crypto origin block s.chain_head s.provider
  child = Committed-IsChild crypto origin block s t valid.chain c

  pub Committed-IsValid : IsValid crypto origin t
  Committed-IsValid = record {
    chain =
        child-IsChain crypto origin block s.chain_head t.chain_head s.provider t.provider
          valid.chain child (ap (λ h. h.number) c.new_head) (ap (λ h. h.hash) c.new_head)
          c.new_blocks c.new_blocks_by_hash;
    shared = c.new_shared_head;
    settled = c.journal_ended;
  }

  pub Committed-number : t.chain_head.number ≡ s.chain_head.number + 1
  Committed-number = ap (λ h. h.number) c.new_head ∙ child.number_next

  pub Committed-Extends : Extends crypto origin s t
  Committed-Extends = record {
    head_grows = omega (arith, Committed-number);
    same_prefix =
        kept crypto origin block s.chain_head t.chain_head s.provider t.provider valid.chain child
          (ap (λ h. h.number) c.new_head) (ap (λ h. h.hash) c.new_head) c.new_blocks
          c.new_blocks_by_hash;
  }
