-- ===== src/Execution/Insert.antt =====
-- core/execution/src/in_memory.rs: inserting a block.
use rust_eth_playground.Prelude.{
  ℕ, ◌≡◌, refl, ap, List, [], ◌∷◌, bytes_eq, nat_eq, insert, ok, get-insert_same,
}
use rust_eth_playground.Types.Transaction.{SignedTransaction, Block}
use rust_eth_playground.Signing.{Crypto}
use rust_eth_playground.Signing.Total.{
  header_hash, hash_header-header_hash, signed_transaction_hash_total,
}
use rust_eth_playground.Execution.Provider.{
  InMemoryProvider, index_transactions, insert_block, insert_transaction, get_block_by_hash,
  get_block_by_number,
}

-- A provider that agrees with another on all but the transactions.
pub record SameButTransactions (p q : InMemoryProvider) : Type 0 where
  pub same_blocks : q.blocks ≡ p.blocks
  pub same_blocks_by_hash : q.blocks_by_hash ≡ p.blocks_by_hash
  pub same_receipts : q.receipts ≡ p.receipts
  pub same_state : q.state ≡ p.state
  pub same_storage : q.storage ≡ p.storage
  pub same_journal : q.journal ≡ p.journal

-- What an insertion of a block makes of a provider.
pub record Inserted (crypto : Crypto) (block : Block) (p q : InMemoryProvider) : Type 0 where
  pub new_blocks : q.blocks ≡ insert block.header.number block p.blocks
  pub new_blocks_by_hash :
      q.blocks_by_hash
      ≡ insert (header_hash crypto block.header) block.header.number p.blocks_by_hash
  pub same_receipts : q.receipts ≡ p.receipts
  pub same_state : q.state ≡ p.state
  pub same_storage : q.storage ≡ p.storage
  pub same_journal : q.journal ≡ p.journal

module _ (crypto : Crypto) where
  index_transactions-SameButTransactions :
      (ts : List SignedTransaction) (number : ℕ) (p : InMemoryProvider)
      → (q : InMemoryProvider) × (index_transactions crypto ts number p ≡ (ok tt, q))
        × SameButTransactions p q
  unfolding index_transactions insert_transaction
  index_transactions-SameButTransactions [] number p = (
    p,
    refl,
    record {
      same_blocks = refl;
      same_blocks_by_hash = refl;
      same_receipts = refl;
      same_state = refl;
      same_storage = refl;
      same_journal = refl;
    },
  )
  index_transactions-SameButTransactions (t ∷ ts) number p =
      let (h, hashed) = signed_transaction_hash_total crypto t in
      let (q, run, same) =
        index_transactions-SameButTransactions ts number (insert_transaction h t number p) in
      (
        q,
        rw (index_transactions, hashed) run,
        record {
          same_blocks = same.same_blocks;
          same_blocks_by_hash = same.same_blocks_by_hash;
          same_receipts = same.same_receipts;
          same_state = same.same_state;
          same_storage = same.same_storage;
          same_journal = same.same_journal;
        },
      )

  -- Inserting a block never fails: the block is filed under its number, its number under the
  -- hash of its header, and accounts, receipts, storage and journal stay as they were.
  pub insert_block-Inserted :
      (block : Block) (p : InMemoryProvider)
      → (q : InMemoryProvider) × (insert_block crypto block p ≡ (ok tt, q))
        × Inserted crypto block p q
  unfolding insert_block
  insert_block-Inserted block p =
      let (q, run, same) =
        index_transactions-SameButTransactions block.transactions block.header.number (record p {
          blocks_by_hash =
              insert (header_hash crypto block.header) block.header.number p.blocks_by_hash;
        }) in
      (
        record q { blocks = insert block.header.number block q.blocks },
        rw (insert_block, hash_header-header_hash crypto block.header, run) refl,
        record {
          new_blocks = ap (λ m. insert block.header.number block m) same.same_blocks;
          new_blocks_by_hash = same.same_blocks_by_hash;
          same_receipts = same.same_receipts;
          same_state = same.same_state;
          same_storage = same.same_storage;
          same_journal = same.same_journal;
        },
      )

  -- A block that has been inserted is found again, by its number and by the hash of its header.
  pub get_block_by_hash-insert_block :
      (block : Block) (p : InMemoryProvider)
      → (get_block_by_hash (header_hash crypto block.header) (insert_block crypto block p).1
          ≡ ok block)
        × (get_block_by_number block.header.number (insert_block crypto block p).1 ≡ ok block)
  unfolding get_block_by_hash get_block_by_number
  get_block_by_hash-insert_block block p =
      let (q, run, i) = insert_block-Inserted block p in
      rw
        (
          run,
          i.new_blocks_by_hash,
          i.new_blocks,
          get-insert_same (header_hash crypto block.header) block.header.number p.blocks_by_hash,
          get-insert_same block.header.number block p.blocks,
        )
        (refl, refl)
