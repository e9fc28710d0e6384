-- ===== src/Examples/Cached.antt =====
-- The theorems on the cached provider around an in-memory provider with one block.
use rust_eth_playground.Prelude.{
  ◌≡◌, refl, [], ◌∷◌, List, none, some, HashMap, Option, get, map, nat_eq, bytes_eq, Eq, beq_refl,
}
use rust_eth_playground.Signing.Total.{header_hash}
use rust_eth_playground.Execution.Provider.{empty_provider, InMemoryProvider, insert_block}
use rust_eth_playground.Execution.Cached.{
  KeyOrder, Read, block_by_number, block_by_hash, header_by_number, header_by_hash, account,
  balance, cached_reads, new_cached, inner_read,
}
use rust_eth_playground.Execution.Cached.Memory.{IsKeyOrder}
use rust_eth_playground.Execution.Cached.Refines.{IsCache, IsCoherent, cached_reads-map}
use rust_eth_playground.Execution.Cached.Coherent.{
  in_memory_reads, IsFiled, HasFreshHash, empty_provider-IsFiled, insert_block-IsFiled,
  in_memory_reads-IsCoherent,
}
use rust_eth_playground.Examples.Data.{crypto, alice, bob, genesis}

abbrev key_of_first : {K V : Type 0} → HashMap K V → Option K
key_of_first [] = none
key_of_first ((k, v) ∷ m) = some k

abbrev order : KeyOrder
order = record { first_key = λ m. key_of_first m }

get-first :
    {K V : Type 0} ⦃e : Eq K⦄ (entry : K × V) (m : HashMap K V)
    → get entry.0 (entry ∷ m) ≡ some entry.1
unfolding get
get-first (k, v) m = rw (beq_refl k) refl

order-IsKeyOrder : IsKeyOrder order
order-IsKeyOrder = record { first_present = λ entry m. (entry.0, entry.1, refl, get-first entry m) }

genesis-HasFreshHash : HasFreshHash crypto genesis empty_provider
unfolding get
genesis-HasFreshHash number other there same = cc

abbrev stored : InMemoryProvider
stored = (insert_block crypto genesis empty_provider).1

insert_block-IsFiled_example : IsFiled crypto stored
insert_block-IsFiled_example =
    insert_block-IsFiled crypto genesis empty_provider genesis-HasFreshHash
      (empty_provider-IsFiled crypto)

stored-IsFiled : IsFiled crypto stored
stored-IsFiled =
    insert_block-IsFiled crypto genesis empty_provider genesis-HasFreshHash
      (empty_provider-IsFiled crypto)

in_memory_reads_example : IsCoherent crypto (in_memory_reads stored)
in_memory_reads_example = in_memory_reads-IsCoherent crypto stored stored-IsFiled

stored-IsCoherent : IsCoherent crypto (in_memory_reads stored)
stored-IsCoherent = in_memory_reads-IsCoherent crypto stored stored-IsFiled

abbrev some_reads : List Read
some_reads =
    block_by_number 0
    ∷ header_by_number 0
    ∷ block_by_hash (header_hash crypto genesis.header)
    ∷ header_by_hash (header_hash crypto genesis.header)
    ∷ account alice
    ∷ balance bob
    ∷ []

cached_reads_example :
    ((cached_reads crypto order some_reads (new_cached (in_memory_reads stored) 1)).0
      ≡ map (λ r. inner_read r (in_memory_reads stored)) some_reads)
    × IsCache
        (in_memory_reads stored)
        1
        (cached_reads crypto order some_reads (new_cached (in_memory_reads stored) 1)).1
cached_reads_example =
    cached_reads-map crypto order order-IsKeyOrder (in_memory_reads stored) 1 stored-IsCoherent
      some_reads
