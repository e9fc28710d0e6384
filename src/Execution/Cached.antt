-- ===== src/Execution/Cached.antt =====
-- core/execution/src/cached.rs and providers.rs: a provider that caches the blocks, headers and
-- accounts that it has read from the provider it wraps.
pub mod Memory
pub mod Refines
pub mod Coherent
use rust_eth_playground.Prelude.{
  ℕ, Option, none, some, List, [], ◌∷◌, map, length, leb, if◌then◌else◌, HashMap, get, insert,
  remove, Eq, nat_eq, bytes_eq, Result, ok, err, panic, ◌>>=◌, map_err,
}
use rust_eth_playground.Prelude.Action.{continue}
use rust_eth_playground.Types.Primitives.{Address, B256, Account, Header}
use rust_eth_playground.Types.Transaction.{SignedTransaction, Block}
use rust_eth_playground.Signing.{Crypto, hash_header}
use rust_eth_playground.Execution.Types.{Receipt, ExecutionError, rlp}

-- The reads of the five traits, on a provider that reads do not change.
pub record FullProvider : Type 0 where
  pub get_block_by_number : ℕ → Result ExecutionError Block
  pub get_block_by_hash : B256 → Result ExecutionError Block
  pub get_header_by_number : ℕ → Result ExecutionError Header
  pub get_header_by_hash : B256 → Result ExecutionError Header
  pub get_account : Address → Result ExecutionError Account
  pub get_storage : Address → B256 → Result ExecutionError B256
  pub get_transaction : B256 → Result ExecutionError SignedTransaction
  pub get_block_transactions : ℕ → Result ExecutionError (List SignedTransaction)
  pub get_receipt : B256 → Result ExecutionError Receipt

pub record CachedProvider : Type 0 where
  pub inner : FullProvider
  pub block_cache : HashMap ℕ Block
  pub header_cache : HashMap B256 Header
  pub account_cache : HashMap Address Account
  pub capacity : ℕ

-- `CachedProvider::new`.
abbrev pub new_cached : FullProvider → ℕ → CachedProvider
new_cached inner capacity = record {
  inner = inner;
  block_cache = [];
  header_cache = [];
  account_cache = [];
  capacity = capacity;
}

-- `keys().next()` of a hash map, in an order that the standard library does not fix.
pub record KeyOrder : Type 1 where
  pub first_key : {K V : Type 0} → HashMap K V → Option K

-- `?` on a read: what follows a value.
abbrev after :
    {A B S : Type 0}
    → Result ExecutionError A
    → S
    → (A → Result ExecutionError B × S)
    → Result ExecutionError B × S
after (ok a) s next = next a
after (err e) s next = (err e, s)
after panic s next = (panic, s)

module _ (order : KeyOrder) {K V : Type 0} ⦃e : Eq K⦄ where
  -- The key that makes room, when the cache is full.
  unfoldable pub evicted : ℕ → HashMap K V → Option K
  evicted capacity cache = if leb capacity (length cache) then order.first_key cache else none

  abbrev pub without : Option K → HashMap K V → HashMap K V
  without none cache = cache
  without (some key) cache = remove key cache

  -- The code that each cached method has: the value of the cache, or else a value that is read
  -- and then cached in the place of an evicted one.
  unfoldable pub lookup_or :
      ℕ → K → Result ExecutionError V → HashMap K V → Result ExecutionError V × HashMap K V
  lookup_or capacity key read cache = elim (get key cache) [
    | some value ↦ (ok value, cache)
    | none ↦
        after read cache
          λ value. (ok value, insert key value (without (evicted capacity cache) cache))
  ]

abbrev with_blocks : {A : Type 0} → CachedProvider → A × HashMap ℕ Block → A × CachedProvider
with_blocks c (a, cache) = (a, record c { block_cache = cache })

abbrev with_headers : {A : Type 0} → CachedProvider → A × HashMap B256 Header → A × CachedProvider
with_headers c (a, cache) = (a, record c { header_cache = cache })

abbrev with_accounts :
    {A : Type 0} → CachedProvider → A × HashMap Address Account → A × CachedProvider
with_accounts c (a, cache) = (a, record c { account_cache = cache })

-- A read of any of the five traits, with the two reads that the traits derive, and its value.
pub data Read : Type 0 where
  block_by_number : ℕ → Read
  block_by_hash : B256 → Read
  header_by_number : ℕ → Read
  header_by_hash : B256 → Read
  account : Address → Read
  balance : Address → Read
  nonce : Address → Read
  storage : Address → B256 → Read
  transaction : B256 → Read
  block_transactions : ℕ → Read
  receipt : B256 → Read

pub data Answer : Type 0 where
  a_block : Block → Answer
  a_header : Header → Answer
  an_account : Account → Answer
  a_number : ℕ → Answer
  a_word : B256 → Answer
  a_transaction : SignedTransaction → Answer
  some_transactions : List SignedTransaction → Answer
  a_receipt : Receipt → Answer

abbrev pub answer : {A B : Type 0} → (A → B) → Result ExecutionError A → Result ExecutionError B
answer f r = r >>= λ a. ok (f a)

abbrev answered :
    {A B S : Type 0} → (A → B) → Result ExecutionError A × S → Result ExecutionError B × S
answered f (r, s) = (answer f r, s)

-- What a provider answers.
unfoldable pub inner_read : Read → FullProvider → Result ExecutionError Answer
inner_read (block_by_number number) p = answer a_block (p.get_block_by_number number)
inner_read (block_by_hash hash) p = answer a_block (p.get_block_by_hash hash)
inner_read (header_by_number number) p = answer a_header (p.get_header_by_number number)
inner_read (header_by_hash hash) p = answer a_header (p.get_header_by_hash hash)
inner_read (account address) p = answer an_account (p.get_account address)
inner_read (balance address) p = answer (λ a. a_number a.balance) (p.get_account address)
inner_read (nonce address) p = answer (λ a. a_number a.nonce) (p.get_account address)
inner_read (storage address slot) p = answer a_word (p.get_storage address slot)
inner_read (transaction hash) p = answer a_transaction (p.get_transaction hash)
inner_read (block_transactions number) p =
    answer some_transactions (p.get_block_transactions number)
inner_read (receipt hash) p = answer a_receipt (p.get_receipt hash)

module _ (crypto : Crypto) (order : KeyOrder) where
  -- The block comes from the wrapped provider first, for its number is the key.
  unfoldable pub cached_get_block_by_hash :
      B256 → CachedProvider → Result ExecutionError Block × CachedProvider
  cached_get_block_by_hash hash c = after (c.inner.get_block_by_hash hash) c λ block.
      with_blocks c (lookup_or order c.capacity block.header.number (ok block) c.block_cache)

  unfoldable pub cached_get_block_by_number :
      ℕ → CachedProvider → Result ExecutionError Block × CachedProvider
  cached_get_block_by_number number c =
      with_blocks c
        (lookup_or order c.capacity number (c.inner.get_block_by_number number) c.block_cache)

  unfoldable pub cached_get_header_by_hash :
      B256 → CachedProvider → Result ExecutionError Header × CachedProvider
  cached_get_header_by_hash hash c =
      with_headers c
        (lookup_or order c.capacity hash (c.inner.get_header_by_hash hash) c.header_cache)

  unfoldable pub cached_get_header_by_number :
      ℕ → CachedProvider → Result ExecutionError Header × CachedProvider
  cached_get_header_by_number number c = after (c.inner.get_header_by_number number) c λ header.
      after (map_err rlp (hash_header crypto header)) c λ header_hash.
        with_headers c (lookup_or order c.capacity header_hash (ok header) c.header_cache)

  unfoldable pub cached_get_account :
      Address → CachedProvider → Result ExecutionError Account × CachedProvider
  cached_get_account address c =
      with_accounts c
        (lookup_or order c.capacity address (c.inner.get_account address) c.account_cache)

  unfoldable pub cached_read : Read → CachedProvider → Result ExecutionError Answer × CachedProvider
  cached_read (block_by_number number) c = answered a_block (cached_get_block_by_number number c)
  cached_read (block_by_hash hash) c = answered a_block (cached_get_block_by_hash hash c)
  cached_read (header_by_number number) c = answered a_header (cached_get_header_by_number number c)
  cached_read (header_by_hash hash) c = answered a_header (cached_get_header_by_hash hash c)
  cached_read (account address) c = answered an_account (cached_get_account address c)
  cached_read (balance address) c =
      answered (λ a. a_number a.balance) (cached_get_account address c)
  cached_read (nonce address) c = answered (λ a. a_number a.nonce) (cached_get_account address c)
  cached_read (storage address slot) c = (inner_read (storage address slot) c.inner, c)
  cached_read (transaction hash) c = (inner_read (transaction hash) c.inner, c)
  cached_read (block_transactions number) c = (inner_read (block_transactions number) c.inner, c)
  cached_read (receipt hash) c = (inner_read (receipt hash) c.inner, c)

  -- Reads one after the other.
  unfoldable pub cached_reads :
      List Read → CachedProvider → List (Result ExecutionError Answer) × CachedProvider
  cached_reads [] c = ([], c)
  cached_reads (r ∷ rs) c =
      let (a, next) = cached_read r c in
      let (answers, last) = cached_reads rs next in (a ∷ answers, last)
