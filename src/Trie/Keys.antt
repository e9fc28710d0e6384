-- ===== src/Trie/Keys.antt =====
-- core/rlp-codec/src/trie.rs: `insert` on whole keys.
use rust_eth_playground.Prelude.{
  ℕ, false, ◌*◌, ◌≡◌, ◌<◌, refl, ◌∙◌, Option, none, some, [], ◌∷◌, length, Bytes, bytes_beq, ◌==◌,
  All, arith, ok, IsByte,
}
use rust_eth_playground.Trie.Node.{
  TrieNode, MerkleTrie, trie_insert, recursive_insert, bytes_to_nibbles,
}
use rust_eth_playground.Trie.Lookup.{lookup, IsUniform, AreNibbles, IsPath}
use rust_eth_playground.Trie.Insert.{replaced}
use rust_eth_playground.Trie.Map.{node-Updates}

-- The value of a key.
unfoldable pub lookup_key : Bytes → Option TrieNode → Option Bytes
lookup_key key none = none
lookup_key key (some node) = lookup node (bytes_to_nibbles key)

-- A trie whose keys have `n` bytes.
abbrev pub IsKeyed : ℕ → Option TrieNode → Type 0
IsKeyed n none = Unit
IsKeyed n (some node) = IsUniform (2 * n) node

abbrev pub IsKey : ℕ → Bytes → Type 0
IsKey n key = (length key ≡ n) × All IsByte key

length-bytes_to_nibbles : (key : Bytes) → length (bytes_to_nibbles key) ≡ 2 * length key
unfolding bytes_to_nibbles
length-bytes_to_nibbles [] = omega arith
length-bytes_to_nibbles (b ∷ key) = omega (arith, length-bytes_to_nibbles key)

bytes_to_nibbles-AreNibbles : (key : Bytes) → All IsByte key → AreNibbles (bytes_to_nibbles key)
unfolding bytes_to_nibbles
bytes_to_nibbles-AreNibbles [] h = tt
bytes_to_nibbles-AreNibbles (b ∷ key) h =
    (omega (arith, h.0), (omega arith, bytes_to_nibbles-AreNibbles key h.1))

bytes_beq-bytes_to_nibbles :
    (a b : Bytes) → bytes_beq (bytes_to_nibbles a) (bytes_to_nibbles b) ≡ bytes_beq a b
unfolding bytes_to_nibbles
bytes_beq-bytes_to_nibbles [] [] = refl
bytes_beq-bytes_to_nibbles [] (y ∷ b) = refl
bytes_beq-bytes_to_nibbles (x ∷ a) [] = refl
bytes_beq-bytes_to_nibbles (x ∷ a) (y ∷ b) = ground (arith, bytes_beq-bytes_to_nibbles a b)

key-IsPath : (n : ℕ) (key : Bytes) → IsKey n key → IsPath (2 * n) (bytes_to_nibbles key)
key-IsPath n key h =
    (omega (arith, length-bytes_to_nibbles key, h.0), bytes_to_nibbles-AreNibbles key h.1)

recursive_insert-replaced :
    (n : ℕ) (root : Option TrieNode) (key value other : Bytes)
    → IsKeyed n root
    → IsKey n key
    → IsKey n other
    → IsUniform (2 * n) (recursive_insert root (bytes_to_nibbles key) value)
      × (lookup (recursive_insert root (bytes_to_nibbles key) value) (bytes_to_nibbles other)
          ≡ replaced key value other (lookup_key other root))
unfolding recursive_insert lookup_key IsUniform lookup
recursive_insert-replaced n none key value other keyed k o =
    (key-IsPath n key k, rw (bytes_beq-bytes_to_nibbles key other) refl)
recursive_insert-replaced n (some node) key value other keyed k o =
    let u = node-Updates node (2 * n) (bytes_to_nibbles key) value keyed (key-IsPath n key k) in
    (
      u.uniform,
      u.looked_up (bytes_to_nibbles other) (key-IsPath n other o).0
          ∙ rw (bytes_beq-bytes_to_nibbles key other) refl,
    )

-- Inserting a key of `n` bytes, at least one, into a trie whose keys have `n` bytes never fails,
-- and gives such a trie in which the key has the new value and every other key of `n` bytes has
-- the value, or the lack of one, that it had.
pub trie_insert-replaced :
    (n : ℕ) (trie : MerkleTrie) (key value other : Bytes)
    → 0 < n
    → IsKeyed n trie.root
    → IsKey n key
    → IsKey n other
    → (new : MerkleTrie) × (trie_insert key value trie ≡ ok new)
      × IsKeyed n new.root
      × (lookup_key other new.root ≡ replaced key value other (lookup_key other trie.root))
unfolding trie_insert lookup_key
trie_insert-replaced n trie key value other some_bytes keyed k o =
    let (uniform, looked_up) = recursive_insert-replaced n trie.root key value other keyed k o in
    let long : (length key == 0) ≡ false = ground (arith, k.0) in
    (
      record { root = some (recursive_insert trie.root (bytes_to_nibbles key) value) },
      rw long refl,
      uniform,
      looked_up,
    )
