-- ===== src/Examples/Trie.antt =====
-- The theorems on the Merkle trie at keys of one byte, and at a key that another one begins with.
use rust_eth_playground.Prelude.{◌≡◌, [], ◌∷◌, some, ok, arith}
use rust_eth_playground.Trie.Node.{MerkleTrie, leaf, trie_insert}
use rust_eth_playground.Trie.Lookup.{IsUniform}
use rust_eth_playground.Trie.Insert.{replaced}
use rust_eth_playground.Trie.Keys.{lookup_key, IsKeyed, trie_insert-replaced}

abbrev one_key : MerkleTrie
one_key = record { root = some (leaf (1 ∷ 2 ∷ []) (9 ∷ [])) }

one_key-IsKeyed : IsKeyed 1 one_key.root
unfolding IsUniform
one_key-IsKeyed = omega arith

trie_insert-replaced_example :
    (new : MerkleTrie) × (trie_insert (0x13 ∷ []) (8 ∷ []) one_key ≡ ok new)
    × IsKeyed 1 new.root
    × (lookup_key (0x12 ∷ []) new.root
        ≡ replaced (0x13 ∷ []) (8 ∷ []) (0x12 ∷ []) (lookup_key (0x12 ∷ []) one_key.root))
trie_insert-replaced_example =
    trie_insert-replaced 1 one_key (0x13 ∷ []) (8 ∷ []) (0x12 ∷ []) (omega arith) one_key-IsKeyed
      (omega arith) (omega arith)
