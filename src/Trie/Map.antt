-- ===== src/Trie/Map.antt =====
-- core/rlp-codec/src/trie.rs: a trie whose keys have the same length is a map from them to values.
use rust_eth_playground.Prelude.{
  ℕ, zero, suc, true, false, ◌+◌, ◌≡◌, ◌<◌, refl, ap, sym, subst, ◌∙◌, Option, [], ◌∷◌, ◌++◌,
  length, drop, Bytes, if◌then◌else◌, ◌==◌, arith, length-append, drop-append_length,
}
use rust_eth_playground.Trie.Node.{
  TrieNode, Children, leaf, extension, branch, no_slot, vacant, occupied, shared_prefix_len,
  split_extension, insert_node, insert_child,
}
use rust_eth_playground.Trie.Diverge.{Diverge, front, shorter, apart, diverge}
use rust_eth_playground.Trie.Lookup.{
  lookup, lookup_child, IsUniform, AreUniform, AreNibbles, IsPath,
}
use rust_eth_playground.Trie.Insert.{
  replaced, Updates, AreNibbles-split, split_extension-fork, insert_into_leaf-Updates,
}
use rust_eth_playground.Trie.Update.{split_extension-Updates, through-Updates}

-- The node that replaces an extension.
abbrev over_extension : ℕ → Bytes → TrieNode → Bytes → Bytes → TrieNode
over_extension p shared child path value =
    if p == length shared
    then extension shared (insert_node child (drop (length shared) path) value)
    else split_extension p shared child path value

extension-Updates :
    (n m : ℕ) (shared path value : Bytes) (child : TrieNode)
    → n ≡ length shared + m
    → AreNibbles shared
    → IsUniform m child
    → IsPath n path
    → ((rest : Bytes) → IsPath m rest → Updates m rest value child (insert_node child rest value))
    → Diverge shared path
    → Updates n path value
        (extension shared child)
        (over_extension (shared_prefix_len shared path) shared child path value)
extension-Updates n m shared path value child total small u whole below_it
      (front rest split known) =
    let (_, rest_small) = AreNibbles-split shared rest (subst AreNibbles split whole.1) in
    let sized : length rest ≡ m =
      omega (arith, ap length split, length-append shared rest, whole.0, total) in
    let made =
      through-Updates n m shared rest value child (insert_node child rest value) total small
        (below_it rest (sized, rest_small)) in
    let full : (length shared == length shared) ≡ true = ground arith in
    subst
      (λ p.
        Updates n path value (extension shared child) (over_extension p shared child path value))
      (sym known)
      (subst
        (λ q.
          Updates n q value (extension shared child)
            (over_extension (length shared) shared child q value))
        (sym split) (rw (full, drop-append_length shared rest) made))
extension-Updates n m shared path value child total small u whole below_it (shorter a rest split) =
    let longer : ⊥ =
      omega (arith, ap length split, length-append path (a ∷ rest), whole.0, total) in
    elim longer [ ]
extension-Updates n m shared path value child total small u whole below_it
      (apart prefix a left b right split split' differ known) =
    let made =
      split_extension-Updates a left child b right value differ n m prefix
        (total ∙ ap (λ s. length s + m) split) (subst AreNibbles split small) u
        (subst (IsPath n) split' whole) in
    let partial : (length prefix == length (prefix ++ (a ∷ left))) ≡ false =
      ground (arith, length-append prefix (a ∷ left)) in
    subst
      (λ p.
        Updates n path value (extension shared child) (over_extension p shared child path value))
      (sym known)
      (subst
        (λ s.
          Updates n path value (extension s child)
            (over_extension (length prefix) s child path value))
        (sym split)
        (subst
          (λ q.
            Updates n q value (extension (prefix ++ (a ∷ left)) child)
              (over_extension (length prefix) (prefix ++ (a ∷ left)) child q value))
          (sym split') (rw (partial, split_extension-fork prefix a left b right value child) made)))

-- What an insertion makes of the slots of a branch.
record ChangesSlot (m slots i : ℕ) (rest value : Bytes) (old new : Children) : Type 0 where
  uniform : AreUniform m slots new
  looked_up :
      (j : ℕ) (k : Bytes)
      → length k ≡ m
      → lookup_child new j k
        ≡ (if i == j then replaced rest value k (lookup_child old j k) else lookup_child old j k)

branch-Updates :
    (n m i : ℕ) (rest value : Bytes) (old new : Children) (v : Option Bytes)
    → n ≡ suc m
    → ChangesSlot m 16 i rest value old new
    → Updates n (i ∷ rest) value (branch old v) (branch new v)
unfolding lookup IsUniform
branch-Updates n m i rest value old new v sum c = record {
  uniform = (m, sum, c.uniform);
  looked_up = go;
}
  where
    go :
        (k : Bytes)
        → length k ≡ n
        → lookup (branch new v) k ≡ replaced (i ∷ rest) value k (lookup (branch old v) k)
    go [] sized = let short : ⊥ = omega (arith, sized, sum) in elim short [ ]
    go (j ∷ k) sized = c.looked_up j k (omega (arith, sized, sum)) ∙ ground arith

module _ (m : ℕ) (rest value : Bytes) where
  -- The update of one slot.
  abbrev Looked : ℕ → Children → Children → Type 0
  Looked i old new =
      (j : ℕ) (k : Bytes)
      → length k ≡ m
      → lookup_child new j k
        ≡ (if i == j then replaced rest value k (lookup_child old j k) else lookup_child old j k)

  leaf-Looked : (more : Children) → Looked zero (vacant more) (occupied (leaf rest value) more)
  unfolding lookup_child lookup
  leaf-Looked more zero k sized = refl
  leaf-Looked more (suc j) k sized = ground arith

  vacant-Looked :
      (i : ℕ) (old new : Children) → Looked i old new → Looked (suc i) (vacant old) (vacant new)
  unfolding lookup_child
  vacant-Looked i old new h zero k sized = ground arith
  vacant-Looked i old new h (suc j) k sized = h j k sized ∙ ground arith

  node-Looked :
      (old new : TrieNode) (more : Children)
      → Updates m rest value old new
      → Looked zero (occupied old more) (occupied new more)
  unfolding lookup_child
  node-Looked old new more u zero k sized = u.looked_up k sized
  node-Looked old new more u (suc j) k sized = ground arith

  occupied-Looked :
      (i : ℕ) (node : TrieNode) (old new : Children)
      → Looked i old new
      → Looked (suc i) (occupied node old) (occupied node new)
  unfolding lookup_child
  occupied-Looked i node old new h zero k sized = ground arith
  occupied-Looked i node old new h (suc j) k sized = h j k sized ∙ ground arith

mutual
  unfolding insert_node insert_child IsUniform AreUniform lookup_child lookup

  pub node-Updates :
      (node : TrieNode) (n : ℕ) (path value : Bytes)
      → IsUniform n node
      → IsPath n path
      → Updates n path value node (insert_node node path value)
  node-Updates (leaf remaining old_value) n path value u whole =
      insert_into_leaf-Updates n remaining old_value path value u whole
  node-Updates (extension shared child) n path value u whole =
      extension-Updates n u.0 shared path value child u.1 u.2 u.3 whole
        (λ rest p. node-Updates child u.0 rest value u.3 p) (diverge shared path)
  node-Updates (branch children v) n [] value u whole =
      let short : ⊥ = omega (arith, whole.0, u.1) in elim short [ ]
  node-Updates (branch children v) n (i ∷ rest) value u whole =
      branch-Updates n u.0 i rest value children (insert_child children i rest value) v u.1 (
        child-Updates children u.0 16 i rest value u.2 whole.1.0
          (omega (arith, whole.0, u.1), whole.1.1))

  child-Updates :
      (cs : Children) (m slots i : ℕ) (rest value : Bytes)
      → AreUniform m slots cs
      → i < slots
      → IsPath m rest
      → ChangesSlot m slots i rest value cs (insert_child cs i rest value)
  child-Updates no_slot m slots i rest value u below_slots path =
      let full : ⊥ = omega (arith, u, below_slots) in elim full [ ]
  child-Updates (vacant more) m slots zero rest value u below_slots path = record {
    uniform = (u.0, u.1, path, u.2);
    looked_up = leaf-Looked m rest value more;
  }
  child-Updates (vacant more) m slots (suc i) rest value u below_slots path =
      let c = child-Updates more m u.0 i rest value u.2 (omega (arith, u.1, below_slots)) path in
      record {
        uniform = (u.0, u.1, c.uniform);
        looked_up = vacant-Looked m rest value i more (insert_child more i rest value) c.looked_up;
      }
  child-Updates (occupied node more) m slots zero rest value u below_slots path =
      let c = node-Updates node m rest value u.2 path in
      record {
        uniform = (u.0, u.1, c.uniform, u.3);
        looked_up = node-Looked m rest value node (insert_node node rest value) more c;
      }
  child-Updates (occupied node more) m slots (suc i) rest value u below_slots path =
      let c = child-Updates more m u.0 i rest value u.3 (omega (arith, u.1, below_slots)) path in
      record {
        uniform = (u.0, u.1, u.2, c.uniform);
        looked_up =
            occupied-Looked m rest value i node more (insert_child more i rest value) c.looked_up;
      }
