-- ===== src/Trie/Update.antt =====
-- core/rlp-codec/src/trie.rs: inserting through extensions and branches.
use rust_eth_playground.Prelude.{
  ℕ, suc, false, ◌+◌, ◌≡◌, ◌≢◌, refl, subst, ◌∙◌, Option, none, some, [], ◌∷◌, ◌++◌, length, Bytes,
  if◌then◌else◌, ◌==◌, ==_iff, arith, Bool-cases, inl, inr, length-append,
}
use rust_eth_playground.Trie.Node.{TrieNode, leaf, extension, continuation}
use rust_eth_playground.Trie.Diverge.{
  strip, same_after, bytes_beq-append, strip-append, strip_more, strip-length,
}
use rust_eth_playground.Trie.Lookup.{lookup, IsUniform, AreNibbles, IsPath}
use rust_eth_playground.Trie.Fork.{fork, in_fork, lookup-fork, fork-IsUniform}
use rust_eth_playground.Trie.Insert.{
  Updates, AreNibbles-split, continuation-looked_up, continuation-IsUniform,
}

abbrev below : TrieNode → Option Bytes → Option Bytes
below child none = none
below child (some rest) = lookup child rest

lookup-extension :
    (shared : Bytes) (child : TrieNode) (k : Bytes)
    → lookup (extension shared child) k ≡ below child (strip shared k)
unfolding lookup
lookup-extension shared child k = go (strip shared k)
  where
    go :
        (o : Option Bytes)
        → (elim o [ none ↦ none | some rest ↦ lookup child rest ]) ≡ below child o
    go none = refl
    go (some rest) = refl

module _ (a : ℕ) (left : Bytes) (child : TrieNode) (b : ℕ) (right value : Bytes)
    (differ : a ≢ b) where
  beside_leaf :
      (n : ℕ) (rest : Bytes)
      → in_fork b (leaf right value) a (continuation left child) (some (n ∷ rest)) ≡ (
          if same_after (b ∷ right) (some (n ∷ rest))
          then some value
          else below child (strip_more (a ∷ left) (some (n ∷ rest))))
  unfolding lookup
  beside_leaf n rest = elim (Bool-cases (a == n)) [
    | inl here ↦
        let elsewhere : (b == n) ≡ false = ground (arith, ==_iff a n, ==_iff b n) in
        rw (here, elsewhere, continuation-looked_up left child rest)
          (lookup-extension left child rest)
    | inr elsewhere ↦ ground (arith, elsewhere)
  ]

  in_fork-replaced :
      (o : Option Bytes)
      → in_fork b (leaf right value) a (continuation left child) o
        ≡ (if same_after (b ∷ right) o then some value else below child (strip_more (a ∷ left) o))
  in_fork-replaced none = refl
  in_fork-replaced (some []) = refl
  in_fork-replaced (some (n ∷ rest)) = beside_leaf n rest

  pub split_extension-Updates :
      (n m : ℕ) (shared : Bytes)
      → n ≡ length (shared ++ (a ∷ left)) + m
      → AreNibbles (shared ++ (a ∷ left))
      → IsUniform m child
      → IsPath n (shared ++ (b ∷ right))
      → Updates n
          (shared ++ (b ∷ right))
          value
          (extension (shared ++ (a ∷ left)) child)
          (fork shared b (leaf right value) a (continuation left child))
  unfolding IsUniform
  split_extension-Updates n m shared total small u path =
      let (shared_small, left_small) = AreNibbles-split shared (a ∷ left) small in
      let (_, right_small) = AreNibbles-split shared (b ∷ right) path.1 in
      let sum : length shared + suc (length left + m) ≡ n =
        omega (arith, length-append shared (a ∷ left), total) in
      let right_length : length right ≡ length left + m =
        omega (arith, length-append shared (b ∷ right), path.0, sum) in
      let continues = continuation-IsUniform left m child left_small.1 u in
      record {
        uniform =
            subst (λ i. IsUniform i (fork shared b (leaf right value) a (continuation left child)))
              sum
              (fork-IsUniform b (leaf right value) a (continuation left child) right_small.0
                left_small.0 (length left + m) (right_length, right_small.1) continues shared
                shared_small);
        looked_up = λ k _.
            lookup-fork b (leaf right value) a (continuation left child) right_small.0 left_small.0
              (length left + m) (right_length, right_small.1) continues shared k
            ∙ in_fork-replaced (strip shared k)
            ∙ rw
                (
                  bytes_beq-append shared (b ∷ right) k,
                  lookup-extension (shared ++ (a ∷ left)) child k,
                  strip-append shared (a ∷ left) k,
                )
                refl;
      }

-- A path that goes on below an extension.
pub through-Updates :
    (n m : ℕ) (shared rest value : Bytes) (child new : TrieNode)
    → n ≡ length shared + m
    → AreNibbles shared
    → Updates m rest value child new
    → Updates n (shared ++ rest) value (extension shared child) (extension shared new)
unfolding IsUniform
through-Updates n m shared rest value child new total small u = record {
  uniform = (m, total, small, u.uniform);
  looked_up = λ k sized.
      lookup-extension shared new k
      ∙ go k sized (strip shared k) refl
      ∙ rw (bytes_beq-append shared rest k, lookup-extension shared child k) refl;
}
  where
    go :
        (k : Bytes)
        → length k ≡ n
        → (o : Option Bytes) → strip shared k ≡ o
        → below new o ≡ (if same_after rest o then some value else below child o)
    go k sized none found = refl
    go k sized (some back) found =
        u.looked_up back (omega (arith, strip-length shared k back found, sized, total))
