-- ===== src/Trie/Lookup.antt =====
-- core/rlp-codec/src/trie.rs: what a trie holds, as a map from paths to values.
use rust_eth_playground.Prelude.{
  ℕ, zero, suc, ◌+◌, ◌≡◌, Option, none, some, [], ◌∷◌, length, Bytes, bytes_beq, if◌then◌else◌, ◌<◌,
  All,
}
use rust_eth_playground.Trie.Node.{
  TrieNode, Children, leaf, extension, branch, no_slot, vacant, occupied,
}
use rust_eth_playground.Trie.Diverge.{strip}

-- The value at the end of a path.
unfoldable mutual
  pub lookup : TrieNode → Bytes → Option Bytes
  lookup (leaf remaining value) path = if bytes_beq remaining path then some value else none
  lookup (extension shared child) path = elim (strip shared path) [
    | none ↦ none
    | some rest ↦ lookup child rest
  ]
  lookup (branch children value) path = elim path [
    | [] ↦ value
    | n ∷ rest ↦ lookup_child children n rest
  ]

  pub lookup_child : Children → ℕ → Bytes → Option Bytes
  lookup_child no_slot i path = none
  lookup_child (vacant rest) i path = elim i [ zero ↦ none | suc j ↦ lookup_child rest j path ]
  lookup_child (occupied node rest) i path = elim i [
    | zero ↦ lookup node path
    | suc j ↦ lookup_child rest j path
  ]

-- A path of `n` nibbles.
abbrev pub AreNibbles : Bytes → Type 0
AreNibbles path = All (λ x. x < 16) path

abbrev pub IsPath : ℕ → Bytes → Type 0
IsPath n path = (length path ≡ n) × AreNibbles path

-- Every path below a node has `n` nibbles, and a branch has sixteen slots.
unfoldable mutual
  pub IsUniform : ℕ → TrieNode → Type 0
  IsUniform n (leaf remaining value) = IsPath n remaining
  IsUniform n (extension shared child) =
      (m : ℕ) × (n ≡ length shared + m) × AreNibbles shared × IsUniform m child
  IsUniform n (branch children value) = (m : ℕ) × (n ≡ suc m) × AreUniform m 16 children

  pub AreUniform : ℕ → ℕ → Children → Type 0
  AreUniform n slots no_slot = slots ≡ 0
  AreUniform n slots (vacant rest) = (s : ℕ) × (slots ≡ suc s) × AreUniform n s rest
  AreUniform n slots (occupied node rest) =
      (s : ℕ) × (slots ≡ suc s) × IsUniform n node × AreUniform n s rest
