-- ===== src/Processor/Steps.antt =====
-- processor/src/block_processor.rs: what each step of `process_block` leaves of the processor.
use rust_eth_playground.Prelude.{
  ◌≡◌, ◌<◌, refl, Bool, true, false, none, nat_eq, bytes_eq, insert, Result, ok, err, panic,
  wrapping_add_u64, wrapping_add_u128, arith,
}
use rust_eth_playground.Prelude.Action.{◌>>=◌, lift, modify}
use rust_eth_playground.Prelude.Ends.{Ends, done, failed, panicked, Ends-pure_bind, Ends-map}
use rust_eth_playground.Types.Primitives.{Header}
use rust_eth_playground.Types.Transaction.{Block}
use rust_eth_playground.Signing.{Crypto}
use rust_eth_playground.Signing.Total.{header_hash}
use rust_eth_playground.Execution.Types.{ExecutionError}
use rust_eth_playground.Execution.Provider.{get_block_by_hash}
use rust_eth_playground.Execution.Journal.{SameProvider, SameProvider-refl}
use rust_eth_playground.Execution.Accept.{Follows}
use rust_eth_playground.Processor.State.{ProcessorError, BlockProcessor, count_rejected_validation}
use rust_eth_playground.Processor.Process.{
  reject, reject_if, find_parent, check_parent, check_head, found_parent,
}

-- A processor that has refused a block: only the counters may differ.
pub record Rejected (s t : BlockProcessor) : Type 0 where
  pub same_head : t.chain_head ≡ s.chain_head
  pub same_shared_head : t.shared_head ≡ s.shared_head
  pub same_pending : t.pending_map ≡ s.pending_map
  pub same_chain_id : t.chain_id ≡ s.chain_id
  pub same_accounts : t.accounts ≡ s.accounts
  pub same_provider : SameProvider s.provider t.provider

-- A processor that has committed a block.
pub record Committed (crypto : Crypto) (block : Block) (s t : BlockProcessor) : Type 0 where
  pub parent : Block
  pub parent_found : get_block_by_hash block.header.parent_hash s.provider ≡ ok parent
  pub follows : Follows crypto block.header parent.header
  pub later : parent.header.timestamp < block.header.timestamp
  pub next_number : block.header.number ≡ wrapping_add_u64 s.chain_head.number 1
  pub new_head : t.chain_head ≡ record {
    number = block.header.number;
    hash = header_hash crypto block.header;
    total_difficulty = wrapping_add_u128 s.chain_head.total_difficulty block.header.gas_used;
  }
  pub new_shared_head : t.shared_head ≡ t.chain_head
  pub same_pending : t.pending_map ≡ s.pending_map
  pub same_chain_id : t.chain_id ≡ s.chain_id
  pub new_blocks : t.provider.blocks ≡ insert block.header.number block s.provider.blocks
  pub new_blocks_by_hash :
      t.provider.blocks_by_hash
      ≡ insert (header_hash crypto block.header) block.header.number s.provider.blocks_by_hash
  pub journal_ended : t.provider.journal ≡ none

pub Rejected-count : (s : BlockProcessor) → Rejected s (count_rejected_validation s)
Rejected-count s = record {
  same_head = refl;
  same_shared_head = refl;
  same_pending = refl;
  same_chain_id = refl;
  same_accounts = refl;
  same_provider = SameProvider-refl s.provider;
}

pub Rejected-refl : (s : BlockProcessor) → Rejected s s
Rejected-refl s = record {
  same_head = refl;
  same_shared_head = refl;
  same_pending = refl;
  same_chain_id = refl;
  same_accounts = refl;
  same_provider = SameProvider-refl s.provider;
}

pub reject_if-Ends :
    (b : Bool) (e : ProcessorError) (s : BlockProcessor)
    → Ends (λ u t. (b ≡ false) × (t ≡ s)) (Rejected s) (reject_if b e s)
unfolding reject_if reject modify lift ◌>>=◌
reject_if-Ends true e s = failed (Rejected-count s)
reject_if-Ends false e s = done (refl, refl)

pub find_parent-Ends :
    (block : Block) (s : BlockProcessor)
    → Ends
        (λ parent t. (get_block_by_hash block.header.parent_hash s.provider ≡ ok parent) × (t ≡ s))
        (Rejected s)
        (find_parent block s)
unfolding find_parent lift reject modify ◌>>=◌
find_parent-Ends block s = go (get_block_by_hash block.header.parent_hash s.provider) refl
  where
    go :
        (r : Result ExecutionError Block)
        → get_block_by_hash block.header.parent_hash s.provider ≡ r
        → Ends
            (λ parent t.
              (get_block_by_hash block.header.parent_hash s.provider ≡ ok parent) × (t ≡ s))
            (Rejected s)
            (found_parent block.header.number r s)
    go (ok parent) same = done (same, refl)
    go (err e) same = failed (Rejected-count s)
    go panic same = panicked

pub check_parent-Ends :
    (header : Header) (parent : Block) (s : BlockProcessor)
    → Ends
        (λ u t. (parent.header.timestamp < header.timestamp) × (t ≡ s))
        (Rejected s)
        (check_parent header parent s)
unfolding check_parent
check_parent-Ends header parent s =
    Ends-pure_bind (reject_if _ _) (λ _. reject_if _ _) s (reject_if-Ends _ _ s)
      λ u _. Ends-map (reject_if-Ends _ _ s) λ u t (later, same). (ground (arith, later), same)

pub check_head-Ends :
    (header : Header) (s : BlockProcessor)
    → Ends
        (λ u t. (header.number ≡ wrapping_add_u64 s.chain_head.number 1) × (t ≡ s))
        (Rejected s)
        (check_head header s)
unfolding check_head
check_head-Ends header s =
    Ends-map (reject_if-Ends _ _ s) λ u t (next, same). (ground (arith, next), same)
