-- ===== src/Trie/Fork.antt =====
-- core/rlp-codec/src/trie.rs: a branch of two slots below a shared path.
use rust_eth_playground.Prelude.{
  ℕ, zero, suc, ◌+◌, ◌≡◌, ◌<◌, refl, ◌∙◌, Option, none, some, [], ◌∷◌, length, Bytes, if◌then◌else◌,
  ◌==◌, arith,
}
use rust_eth_playground.Trie.Node.{
  TrieNode, Children, branch, no_slot, vacant, occupied, set_child, vacant_slots, no_children,
  under_prefix,
}
use rust_eth_playground.Trie.Diverge.{strip}
use rust_eth_playground.Trie.Lookup.{lookup, lookup_child, IsUniform, AreUniform, AreNibbles}

lookup_child-vacant_slots : (n i : ℕ) (path : Bytes) → lookup_child (vacant_slots n) i path ≡ none
unfolding lookup_child
lookup_child-vacant_slots zero i path = refl
lookup_child-vacant_slots (suc n) zero path = refl
lookup_child-vacant_slots (suc n) (suc i) path = lookup_child-vacant_slots n i path

vacant_slots-AreUniform : (m n : ℕ) → AreUniform m n (vacant_slots n)
unfolding AreUniform
vacant_slots-AreUniform m zero = refl
vacant_slots-AreUniform m (suc n) = (n, refl, vacant_slots-AreUniform m n)

pub set_child-AreUniform :
    (m slots i : ℕ) (node : TrieNode) (cs : Children)
    → AreUniform m slots cs
    → IsUniform m node
    → AreUniform m slots (set_child cs i node)
unfolding set_child AreUniform
set_child-AreUniform m slots i node no_slot h u = h
set_child-AreUniform m slots zero node (vacant rest) h u = (h.0, h.1, u, h.2)
set_child-AreUniform m slots (suc i) node (vacant rest) h u =
    (h.0, h.1, set_child-AreUniform m h.0 i node rest h.2 u)
set_child-AreUniform m slots zero node (occupied old rest) h u = (h.0, h.1, u, h.3)
set_child-AreUniform m slots (suc i) node (occupied old rest) h u =
    (h.0, h.1, h.2, set_child-AreUniform m h.0 i node rest h.3 u)

pub lookup_child-set_child :
    (m slots i j : ℕ) (node : TrieNode) (cs : Children) (path : Bytes)
    → AreUniform m slots cs
    → i < slots
    → lookup_child (set_child cs i node) j path
      ≡ (if i == j then lookup node path else lookup_child cs j path)
unfolding set_child lookup_child AreUniform
lookup_child-set_child m slots i j node no_slot path h below =
    let no_room : ⊥ = omega (arith, h, below) in elim no_room [ ]
lookup_child-set_child m slots zero zero node (vacant rest) path h below = refl
lookup_child-set_child m slots zero (suc j) node (vacant rest) path h below = ground arith
lookup_child-set_child m slots (suc i) zero node (vacant rest) path h below = ground arith
lookup_child-set_child m slots (suc i) (suc j) node (vacant rest) path h below =
    lookup_child-set_child m h.0 i j node rest path h.2 (omega (arith, h.1, below)) ∙ ground arith
lookup_child-set_child m slots zero zero node (occupied old rest) path h below = refl
lookup_child-set_child m slots zero (suc j) node (occupied old rest) path h below = ground arith
lookup_child-set_child m slots (suc i) zero node (occupied old rest) path h below = ground arith
lookup_child-set_child m slots (suc i) (suc j) node (occupied old rest) path h below =
    lookup_child-set_child m h.0 i j node rest path h.3 (omega (arith, h.1, below)) ∙ ground arith

-- Two nodes in the slots `i` and `j` below a shared path.
abbrev pub fork : Bytes → ℕ → TrieNode → ℕ → TrieNode → TrieNode
fork shared i inner j outer =
    under_prefix shared (branch (set_child (set_child no_children i inner) j outer) none)

abbrev pub in_fork : ℕ → TrieNode → ℕ → TrieNode → Option Bytes → Option Bytes
in_fork i inner j outer none = none
in_fork i inner j outer (some []) = none
in_fork i inner j outer (some (n ∷ rest)) =
    if j == n then lookup outer rest else if i == n then lookup inner rest else none

lookup-under_prefix :
    (shared : Bytes) (children : Children) (path : Bytes)
    → lookup (under_prefix shared (branch children none)) path
      ≡ elim (strip shared path) [ none ↦ none | some rest ↦ lookup (branch children none) rest ]
unfolding lookup
lookup-under_prefix [] children path = refl
lookup-under_prefix (x ∷ shared) children path = refl

module _ (i : ℕ) (inner : TrieNode) (j : ℕ) (outer : TrieNode) (i_fits : i < 16) (j_fits : j < 16)
    (m : ℕ) (inner_uniform : IsUniform m inner) (outer_uniform : IsUniform m outer) where
  one_child-AreUniform : AreUniform m 16 (set_child no_children i inner)
  one_child-AreUniform =
      set_child-AreUniform m 16 i inner no_children (vacant_slots-AreUniform m 16) inner_uniform

  in_fork-branch :
      (o : Option Bytes)
      → (elim o [
        | none ↦ none
        | some rest ↦ lookup (branch (set_child (set_child no_children i inner) j outer) none) rest
      ])
        ≡ in_fork i inner j outer o
  unfolding lookup
  in_fork-branch none = refl
  in_fork-branch (some []) = refl
  in_fork-branch (some (n ∷ rest)) =
      lookup_child-set_child m 16 j n outer (set_child no_children i inner) rest
        one_child-AreUniform j_fits
      ∙ rw
          (
            lookup_child-set_child m 16 i n inner no_children rest (vacant_slots-AreUniform m 16)
                i_fits,
            lookup_child-vacant_slots 16 n rest,
          )
          refl

  pub lookup-fork :
      (shared path : Bytes)
      → lookup (fork shared i inner j outer) path ≡ in_fork i inner j outer (strip shared path)
  lookup-fork shared path =
      lookup-under_prefix shared (set_child (set_child no_children i inner) j outer) path
      ∙ in_fork-branch (strip shared path)

  pub fork-IsUniform :
      (shared : Bytes)
      → AreNibbles shared
      → IsUniform (length shared + suc m) (fork shared i inner j outer)
  unfolding IsUniform
  fork-IsUniform [] h = (
    m,
    omega arith,
    set_child-AreUniform m 16 j outer (set_child no_children i inner) one_child-AreUniform
        outer_uniform,
  )
  fork-IsUniform (x ∷ shared) h = (
    suc m,
    refl,
    h,
    (
      m,
      refl,
      set_child-AreUniform m 16 j outer (set_child no_children i inner) one_child-AreUniform
          outer_uniform,
    ),
  )
