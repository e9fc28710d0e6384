-- ===== src/BlockBuilder/Follows.antt =====
-- block-builder/src/block_builder.rs: each block follows the head, and moves it.
use rust_eth_playground.Prelude.{
  ℕ, ◌+◌, ◌*◌, ◌^◌, ◌≡◌, ◌≤◌, ◌<◌, refl, sym, ap, subst, ◌∙◌, HashMap, bytes_eq, u64_mod, Result,
  ok, err, panic, ok_or, map_err, checked_add, >>=-eq-ok, ok-injective, arith,
}
use rust_eth_playground.Prelude.Ends.{Ends, done, failed, panicked, Ends-ok}
use rust_eth_playground.Types.Primitives.{Address, B256}
use rust_eth_playground.Types.Transaction.{Block}
use rust_eth_playground.Signing.{Crypto, hash_header}
use rust_eth_playground.Signing.Sign.{SigningKeys, IsSound}
use rust_eth_playground.Signing.Total.{header_hash, hash_header-header_hash}
use rust_eth_playground.Execution.Validator.{strict_validate_header}
use rust_eth_playground.Execution.Accept.{strict_validate_header_iff}
use rust_eth_playground.BlockBuilder.{
  BlockSpec, AccountSnapshot, BuilderError, overflow, hashing, BuilderState, BlockBuilder,
  header_on, move_head, timestamp_of, build_transactions, next_block, finished, generate_block,
}
use rust_eth_playground.BlockBuilder.Built.{
  IsBuilt, Pairwise, gas_limits, build_transactions-gas_limits,
}

-- A block whose header is on the head of a builder.
pub record IsHeaded (spec : BlockSpec) (b : BlockBuilder) (block : Block) : Type 0 where
  pub number_follows : block.header.number ≡ b.state.current_number + 1
  pub number_fits : block.header.number < 2 ^ 64
  pub on_head : block.header.parent_hash ≡ b.state.current_hash
  pub timestamp_known :
      block.header.timestamp ≡ b.state.genesis_timestamp + 12 * block.header.number
  pub timestamp_fits : block.header.timestamp < 2 ^ 64
  pub gas_limit_known : block.header.gas_limit ≡ b.genesis_gas_limit
  pub gas_summed : block.header.gas_used ≡ gas_limits spec.transactions

-- A block on the head of a builder, from specs.
pub record IsNext (crypto : Crypto) (keys : SigningKeys) (spec : BlockSpec)
    (snapshots : HashMap Address AccountSnapshot) (b : BlockBuilder) (block : Block) : Type 0 where
  pub headed : IsHeaded spec b block
  pub transactions_built :
      Pairwise (IsBuilt crypto keys b.state snapshots) spec.transactions block.transactions

timestamp_known :
    (number timestamp : ℕ) (state : BuilderState)
    → timestamp_of number state ≡ ok timestamp
    → (timestamp ≡ state.genesis_timestamp + 12 * number) × (timestamp < 2 ^ 64)
unfolding timestamp_of
timestamp_known number timestamp state h = ground arith

number_known :
    (current number : ℕ)
    → ok_or (checked_add u64_mod current 1) overflow ≡ ok number
    → (number ≡ current + 1) × (number < 2 ^ 64)
number_known current number h = ground arith

module _ (crypto : Crypto) (keys : SigningKeys) (spec : BlockSpec)
    (snapshots : HashMap Address AccountSnapshot) (b : BlockBuilder) where
  next_block-IsHeaded :
      (made : Block × B256)
      → next_block crypto keys spec snapshots b ≡ ok made
      → IsHeaded spec b made.0 × (made.1 ≡ header_hash crypto made.0.header)
  unfolding next_block
  next_block-IsHeaded made h =
      let (built, b₁, h₁) =
        >>=-eq-ok (build_transactions crypto keys b.state snapshots spec.transactions 0) _ h in
      let (number, b₂, h₂) =
        >>=-eq-ok (ok_or (checked_add u64_mod b.state.current_number 1) overflow) _ h₁ in
      let (timestamp, b₃, h₃) = >>=-eq-ok (timestamp_of number b.state) _ h₂ in
      let header = header_on b built.0 number timestamp in
      let (hash, b₄, h₄) = >>=-eq-ok (map_err hashing (hash_header crypto header)) _ h₃ in
      let hashed : hash ≡ header_hash crypto header =
        ok-injective (sym b₄ ∙ rw (hash_header-header_hash crypto header) refl) in
      let gas =
        build_transactions-gas_limits crypto keys b.state snapshots spec.transactions 0 built b₁ in
      let (follows, number_fits) = number_known b.state.current_number number b₂ in
      let (time, time_fits) = timestamp_known number timestamp b.state b₃ in
      subst (λ m. IsHeaded spec b m.0 × (m.1 ≡ header_hash crypto m.0.header)) (ok-injective h₄)
        (
          record {
            number_follows = follows;
            number_fits = number_fits;
            on_head = refl;
            timestamp_known = time;
            timestamp_fits = time_fits;
            gas_limit_known = refl;
            gas_summed = omega (arith, gas);
          },
          hashed,
        )

  -- What is known of a success of `next_block` is known of one of `generate_block`.
  generate_block-Ends :
      (P : Block → Type 0)
      → ((made : Block × B256) → next_block crypto keys spec snapshots b ≡ ok made → P made.0)
      → Ends
          (λ block next.
            P block
            × (next
                ≡ move_head block.header.number
                    (header_hash crypto block.header)
                    block.header.timestamp
                    b))
          (λ next. next ≡ b)
          (generate_block crypto keys spec snapshots b)
  unfolding generate_block
  generate_block-Ends P known = go (next_block crypto keys spec snapshots b) refl
    where
      go :
          (r : Result BuilderError (Block × B256))
          → next_block crypto keys spec snapshots b ≡ r
          → Ends
              (λ block next.
                P block
                × (next
                    ≡ move_head block.header.number
                        (header_hash crypto block.header)
                        block.header.timestamp
                        b))
              (λ next. next ≡ b)
              (finished b r)
      go (ok (block, hash)) same = done (
        known (block, hash) same,
        ap (λ h. move_head block.header.number h block.header.timestamp b)
            (next_block-IsHeaded (block, hash) same).1,
      )
      go (err e) same = failed refl
      go panic same = panicked

module _ (crypto : Crypto) (keys : SigningKeys) (sound : IsSound crypto keys) (spec : BlockSpec)
    (snapshots : HashMap Address AccountSnapshot) (b : BlockBuilder)
    (fits : 2 * b.state.chain_id + 36 < 2 ^ 64) where
  -- What a success leaves of a builder.
  abbrev pub IsMoved : Block → BlockBuilder → Type 0
  IsMoved block next =
      IsNext crypto keys spec snapshots b block
      × (next
          ≡ move_head block.header.number (header_hash crypto block.header) block.header.timestamp
              b)

generate_block-IsHeaded :
    (crypto : Crypto) (keys : SigningKeys) (spec : BlockSpec)
    (snapshots : HashMap Address AccountSnapshot) (b : BlockBuilder)
    → Ends
        (λ block next.
          IsHeaded spec b block
          × (next
              ≡ move_head block.header.number
                  (header_hash crypto block.header)
                  block.header.timestamp
                  b))
        (λ next. next ≡ b)
        (generate_block crypto keys spec snapshots b)
generate_block-IsHeaded crypto keys spec snapshots b =
    generate_block-Ends crypto keys spec snapshots b (IsHeaded spec b)
      λ made h. (next_block-IsHeaded crypto keys spec snapshots b made h).0

module _ (crypto : Crypto) (keys : SigningKeys) where
  -- Of two blocks that a builder generates one after the other, the strict validator accepts the
  -- header of the second under that of the first, if the gas limits of the specs of the second add
  -- up to no more than the gas limit of the builder. Nothing is assumed of the crates.
  pub generate_block_twice :
      (first second : BlockSpec) (snapshots later : HashMap Address AccountSnapshot)
      (b : BlockBuilder) (parent child : Block)
      → (generate_block crypto keys first snapshots b).0 ≡ ok parent
      → (generate_block crypto keys second later (generate_block crypto keys first snapshots b).1).0
        ≡ ok child
      → gas_limits second.transactions ≤ b.genesis_gas_limit
      → strict_validate_header crypto child.header parent.header ≡ ok tt
  generate_block_twice first second snapshots later b parent child made again within =
      let (p, moved) = Ends-ok (generate_block-IsHeaded crypto keys first snapshots b) made in
      let head =
        move_head parent.header.number (header_hash crypto parent.header) parent.header.timestamp
          b in
      let (c, _) =
        Ends-ok (generate_block-IsHeaded crypto keys second later head) (
          subst (λ next. (generate_block crypto keys second later next).0 ≡ ok child) moved
            again) in
      (strict_validate_header_iff crypto child.header parent.header).1 (record {
        parent_hash_matches = c.on_head;
        number_follows = c.number_follows;
        number_fits = c.number_fits;
        gas_within_limit = omega (arith, c.gas_summed, c.gas_limit_known, within);
      })
