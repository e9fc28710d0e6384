-- ===== src/Execution/Cached/Refines.antt =====
-- core/execution/src/cached.rs: the cached provider answers as the provider that it wraps.
use rust_eth_playground.Prelude.{
  ℕ, ◌≤◌, ◌≡◌, refl, sym, ◌∙◌, ap, subst, max, List, [], ◌∷◌, map, length, Result, ok, err, panic,
  nat_eq, bytes_eq, arith,
}
use rust_eth_playground.Types.Primitives.{Address, B256, Header}
use rust_eth_playground.Types.Transaction.{Block}
use rust_eth_playground.Signing.{Crypto}
use rust_eth_playground.Signing.Total.{header_hash, hash_header-header_hash}
use rust_eth_playground.Execution.Types.{ExecutionError}
use rust_eth_playground.Execution.Cached.{
  FullProvider, CachedProvider, KeyOrder, new_cached, lookup_or, cached_get_block_by_hash,
  cached_get_block_by_number, cached_get_header_by_hash, cached_get_header_by_number,
  cached_get_account, Read, inner_read, cached_read, cached_reads, block_by_number, block_by_hash,
  header_by_number, header_by_hash, account, balance, nonce, storage, transaction,
  block_transactions, receipt,
}
use rust_eth_playground.Execution.Cached.Memory.{
  IsKeyOrder, Repeats, Repeats-empty, lookup_or-Repeats, Repeats-empty, lookup_or-bound,
}

-- What a provider promises across its reads: a block that is found under a hash is found under its
-- number, and a header that is found under a number is found under its hash.
pub record IsCoherent (crypto : Crypto) (p : FullProvider) : Type 0 where
  pub block_under_number :
      (hash : B256) (block : Block)
      → p.get_block_by_hash hash ≡ ok block
      → p.get_block_by_number block.header.number ≡ ok block
  pub header_under_hash :
      (number : ℕ) (header : Header)
      → p.get_header_by_number number ≡ ok header
      → p.get_header_by_hash (header_hash crypto header) ≡ ok header

-- A cached provider around `inner` whose caches repeat what `inner` gives and are bounded.
pub record IsCache (inner : FullProvider) (capacity : ℕ) (c : CachedProvider) : Type 0 where
  pub same_inner : c.inner ≡ inner
  pub same_capacity : c.capacity ≡ capacity
  pub blocks_repeat : Repeats inner.get_block_by_number c.block_cache
  pub headers_repeat : Repeats inner.get_header_by_hash c.header_cache
  pub accounts_repeat : Repeats inner.get_account c.account_cache
  pub blocks_bounded : length c.block_cache ≤ max 1 capacity
  pub headers_bounded : length c.header_cache ≤ max 1 capacity
  pub accounts_bounded : length c.account_cache ≤ max 1 capacity

module _ (crypto : Crypto) (order : KeyOrder) (fair : IsKeyOrder order) (inner : FullProvider)
    (capacity : ℕ) where
  -- The right result, and again such a cached provider.
  abbrev Reads :
      {A : Type 0} → Result ExecutionError A → Result ExecutionError A × CachedProvider → Type 0
  Reads r (s, c) = (s ≡ r) × IsCache inner capacity c

  blocks-Reads :
      (c : CachedProvider) (number : ℕ) (r : Result ExecutionError Block)
      → IsCache inner capacity c
      → r ≡ inner.get_block_by_number number
      → Reads r (
        (lookup_or order c.capacity number r c.block_cache).0,
        record c { block_cache = (lookup_or order c.capacity number r c.block_cache).1 },
      )
  blocks-Reads c number r h same =
      let (right, repeats) =
        lookup_or-Repeats order inner.get_block_by_number c.capacity number r c.block_cache same
          h.blocks_repeat in
      (
        right,
        record {
          same_inner = h.same_inner;
          same_capacity = h.same_capacity;
          blocks_repeat = repeats;
          headers_repeat = h.headers_repeat;
          accounts_repeat = h.accounts_repeat;
          blocks_bounded =
              subst (λ n. length (lookup_or order n number r c.block_cache).1 ≤ max 1 capacity)
                (sym h.same_capacity)
                (lookup_or-bound order fair capacity number r c.block_cache h.blocks_bounded);
          headers_bounded = h.headers_bounded;
          accounts_bounded = h.accounts_bounded;
        },
      )

  headers-Reads :
      (c : CachedProvider) (hash : B256) (r : Result ExecutionError Header)
      → IsCache inner capacity c
      → r ≡ inner.get_header_by_hash hash
      → Reads r (
        (lookup_or order c.capacity hash r c.header_cache).0,
        record c { header_cache = (lookup_or order c.capacity hash r c.header_cache).1 },
      )
  headers-Reads c hash r h same =
      let (right, repeats) =
        lookup_or-Repeats order inner.get_header_by_hash c.capacity hash r c.header_cache same
          h.headers_repeat in
      (
        right,
        record {
          same_inner = h.same_inner;
          same_capacity = h.same_capacity;
          blocks_repeat = h.blocks_repeat;
          headers_repeat = repeats;
          accounts_repeat = h.accounts_repeat;
          blocks_bounded = h.blocks_bounded;
          headers_bounded =
              subst (λ n. length (lookup_or order n hash r c.header_cache).1 ≤ max 1 capacity)
                (sym h.same_capacity)
                (lookup_or-bound order fair capacity hash r c.header_cache h.headers_bounded);
          accounts_bounded = h.accounts_bounded;
        },
      )

  cached_get_account-Reads :
      (c : CachedProvider) (address : Address)
      → IsCache inner capacity c
      → Reads (inner.get_account address) (cached_get_account crypto order address c)
  unfolding cached_get_account
  cached_get_account-Reads c address h =
      let same : c.inner.get_account address ≡ inner.get_account address =
        ap (λ p. FullProvider.get_account p address) h.same_inner in
      let (right, repeats) =
        lookup_or-Repeats order inner.get_account c.capacity address (c.inner.get_account address)
          c.account_cache same h.accounts_repeat in
      (
        right ∙ same,
        record {
          same_inner = h.same_inner;
          same_capacity = h.same_capacity;
          blocks_repeat = h.blocks_repeat;
          headers_repeat = h.headers_repeat;
          accounts_repeat = repeats;
          blocks_bounded = h.blocks_bounded;
          headers_bounded = h.headers_bounded;
          accounts_bounded =
              subst
                (λ n.
                  length (lookup_or order n address (c.inner.get_account address) c.account_cache).1
                  ≤ max 1 capacity)
                (sym h.same_capacity)
                (lookup_or-bound order fair capacity address (c.inner.get_account address)
                  c.account_cache h.accounts_bounded);
        },
      )

  cached_get_block_by_number-Reads :
      (c : CachedProvider) (number : ℕ)
      → IsCache inner capacity c
      → Reads (inner.get_block_by_number number) (cached_get_block_by_number crypto order number c)
  unfolding cached_get_block_by_number
  cached_get_block_by_number-Reads c number h =
      let same = ap (λ p. FullProvider.get_block_by_number p number) h.same_inner in
      let (right, kept) = blocks-Reads c number (c.inner.get_block_by_number number) h same in
      (right ∙ same, kept)

  cached_get_header_by_hash-Reads :
      (c : CachedProvider) (hash : B256)
      → IsCache inner capacity c
      → Reads (inner.get_header_by_hash hash) (cached_get_header_by_hash crypto order hash c)
  unfolding cached_get_header_by_hash
  cached_get_header_by_hash-Reads c hash h =
      let same = ap (λ p. FullProvider.get_header_by_hash p hash) h.same_inner in
      let (right, kept) = headers-Reads c hash (c.inner.get_header_by_hash hash) h same in
      (right ∙ same, kept)

  module _ (coherent : IsCoherent crypto inner) where
    cached_get_block_by_hash-Reads :
        (c : CachedProvider) (hash : B256)
        → IsCache inner capacity c
        → Reads (inner.get_block_by_hash hash) (cached_get_block_by_hash crypto order hash c)
    unfolding cached_get_block_by_hash
    cached_get_block_by_hash-Reads c hash h =
        go (inner.get_block_by_hash hash) refl
          (ap (λ p. FullProvider.get_block_by_hash p hash) h.same_inner)
      where
        go :
            (r : Result ExecutionError Block)
            → inner.get_block_by_hash hash ≡ r
            → c.inner.get_block_by_hash hash ≡ r
            → Reads r (cached_get_block_by_hash crypto order hash c)
        go (ok block) eq read =
            rw (cached_get_block_by_hash, read)
              (blocks-Reads c block.header.number (ok block) h
                (sym (coherent.block_under_number hash block eq)))
        go (err e) eq read = rw (cached_get_block_by_hash, read) (refl, h)
        go panic eq read = rw (cached_get_block_by_hash, read) (refl, h)

    cached_get_header_by_number-Reads :
        (c : CachedProvider) (number : ℕ)
        → IsCache inner capacity c
        → Reads
            (inner.get_header_by_number number)
            (cached_get_header_by_number crypto order number c)
    unfolding cached_get_header_by_number
    cached_get_header_by_number-Reads c number h =
        go (inner.get_header_by_number number) refl
          (ap (λ p. FullProvider.get_header_by_number p number) h.same_inner)
      where
        go :
            (r : Result ExecutionError Header)
            → inner.get_header_by_number number ≡ r
            → c.inner.get_header_by_number number ≡ r
            → Reads r (cached_get_header_by_number crypto order number c)
        go (ok header) eq read =
            rw (cached_get_header_by_number, read, hash_header-header_hash crypto header)
              (headers-Reads c (header_hash crypto header) (ok header) h
                (sym (coherent.header_under_hash number header eq)))
        go (err e) eq read = rw (cached_get_header_by_number, read) (refl, h)
        go panic eq read = rw (cached_get_header_by_number, read) (refl, h)

    cached_read-Reads :
        (r : Read) (c : CachedProvider)
        → IsCache inner capacity c
        → Reads (inner_read r inner) (cached_read crypto order r c)
    unfolding cached_read inner_read
    cached_read-Reads (block_by_number number) c h =
        let (right, kept) = cached_get_block_by_number-Reads c number h in rw right (refl, kept)
    cached_read-Reads (block_by_hash hash) c h =
        let (right, kept) = cached_get_block_by_hash-Reads c hash h in rw right (refl, kept)
    cached_read-Reads (header_by_number number) c h =
        let (right, kept) = cached_get_header_by_number-Reads c number h in rw right (refl, kept)
    cached_read-Reads (header_by_hash hash) c h =
        let (right, kept) = cached_get_header_by_hash-Reads c hash h in rw right (refl, kept)
    cached_read-Reads (account address) c h =
        let (right, kept) = cached_get_account-Reads c address h in rw right (refl, kept)
    cached_read-Reads (balance address) c h =
        let (right, kept) = cached_get_account-Reads c address h in rw right (refl, kept)
    cached_read-Reads (nonce address) c h =
        let (right, kept) = cached_get_account-Reads c address h in rw right (refl, kept)
    cached_read-Reads (storage address slot) c h =
        (ap (inner_read (storage address slot)) h.same_inner, h)
    cached_read-Reads (transaction hash) c h = (ap (inner_read (transaction hash)) h.same_inner, h)
    cached_read-Reads (block_transactions number) c h =
        (ap (inner_read (block_transactions number)) h.same_inner, h)
    cached_read-Reads (receipt hash) c h = (ap (inner_read (receipt hash)) h.same_inner, h)

    cached_reads-IsCache :
        (reads : List Read) (c : CachedProvider)
        → IsCache inner capacity c
        → ((cached_reads crypto order reads c).0 ≡ map (λ r. inner_read r inner) reads)
          × IsCache inner capacity (cached_reads crypto order reads c).1
    unfolding cached_reads
    cached_reads-IsCache [] c h = (refl, h)
    cached_reads-IsCache (r ∷ rs) c h =
        let (right, kept) = cached_read-Reads r c h in
        let (answers, last) = cached_reads-IsCache rs (cached_read crypto order r c).1 kept in
        rw (right, answers) (refl, last)

    -- Any reads, one after the other, of a new cached provider give what the wrapped provider
    -- gives for each, errors included, and leave each cache with no more entries than the
    -- capacity, or one entry when that is 0. The wrapped provider finds a block that it has under
    -- a hash under its number too, and a header under its hash; and the first key of a hash map is
    -- one of its keys.
    pub cached_reads-map :
        (reads : List Read)
        → ((cached_reads crypto order reads (new_cached inner capacity)).0
            ≡ map (λ r. inner_read r inner) reads)
          × IsCache inner capacity (cached_reads crypto order reads (new_cached inner capacity)).1
    cached_reads-map reads = cached_reads-IsCache reads (new_cached inner capacity) (record {
      same_inner = refl;
      same_capacity = refl;
      blocks_repeat = Repeats-empty _;
      headers_repeat = Repeats-empty _;
      accounts_repeat = Repeats-empty _;
      blocks_bounded = omega arith;
      headers_bounded = omega arith;
      accounts_bounded = omega arith;
    })
