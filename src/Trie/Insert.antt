-- ===== src/Trie/Insert.antt =====
-- core/rlp-codec/src/trie.rs: inserting into a trie whose paths all have the same length, as those
-- of account addresses have, is an update of the map that it holds.
use rust_eth_playground.Prelude.{
  ℕ, suc, true, false, ◌+◌, ◌≡◌, ◌≢◌, refl, ap, sym, subst, ◌∙◌, Option, none, some, [], ◌∷◌, ◌++◌,
  length, Bytes, bytes_beq, bytes_beq_iff, if◌then◌else◌, ◌==◌, ==_iff, arith, Bool-cases, inl, inr,
  length-append, take-append_length, drop-append_length, append-nil,
}
use rust_eth_playground.Trie.Node.{
  TrieNode, leaf, extension, shared_prefix_len, split_leaf, insert_into_leaf, put_leaf,
  split_extension, continuation,
}
use rust_eth_playground.Trie.Diverge.{
  Diverge, front, shorter, apart, diverge, strip, same_after, bytes_beq-append,
}
use rust_eth_playground.Trie.Lookup.{lookup, IsUniform, AreNibbles, IsPath}
use rust_eth_playground.Trie.Fork.{fork, in_fork, lookup-fork, fork-IsUniform}

-- A map with the value of one path replaced.
abbrev pub replaced : Bytes → Bytes → Bytes → Option Bytes → Option Bytes
replaced path value k now = if bytes_beq path k then some value else now

-- What an insertion makes of a node: the map is updated at the path alone, and the node stays one
-- for paths of that length.
pub record Updates (n : ℕ) (path value : Bytes) (old new : TrieNode) : Type 0 where
  pub uniform : IsUniform n new
  pub looked_up : (k : Bytes) → length k ≡ n → lookup new k ≡ replaced path value k (lookup old k)

pub AreNibbles-split : (xs ys : Bytes) → AreNibbles (xs ++ ys) → AreNibbles xs × AreNibbles ys
AreNibbles-split [] ys h = (tt, h)
AreNibbles-split (x ∷ xs) ys h =
    let (front_small, back_small) = AreNibbles-split xs ys h.1 in ((h.0, front_small), back_small)

-- A leaf beside another.
leaves-looked_up :
    (a : ℕ) (left old_value : Bytes) (b : ℕ) (right value : Bytes) (o : Option Bytes)
    → a ≢ b
    → in_fork a (leaf left old_value) b (leaf right value) o ≡ (
        if same_after (b ∷ right) o
        then some value
        else if same_after (a ∷ left) o
        then some old_value
        else none)
unfolding lookup
leaves-looked_up a left old_value b right value none differ = refl
leaves-looked_up a left old_value b right value (some []) differ = refl
leaves-looked_up a left old_value b right value (some (n ∷ rest)) differ =
    ground (arith, ==_iff a n, ==_iff b n)

split_leaf-Updates :
    (n : ℕ) (shared : Bytes) (a : ℕ) (left : Bytes) (b : ℕ) (right old_value value : Bytes)
    → a ≢ b
    → IsPath n (shared ++ (a ∷ left))
    → IsPath n (shared ++ (b ∷ right))
    → Updates n
        (shared ++ (b ∷ right))
        value
        (leaf (shared ++ (a ∷ left)) old_value)
        (fork shared a (leaf left old_value) b (leaf right value))
unfolding IsUniform lookup
split_leaf-Updates n shared a left b right old_value value differ old_path path =
    let (shared_small, left_small) = AreNibbles-split shared (a ∷ left) old_path.1 in
    let (_, right_small) = AreNibbles-split shared (b ∷ right) path.1 in
    let left_length : length shared + suc (length left) ≡ n =
      omega (arith, length-append shared (a ∷ left), old_path.0) in
    let right_length : length right ≡ length left =
      omega (arith, length-append shared (b ∷ right), path.0, left_length) in
    record {
      uniform =
          subst (λ i. IsUniform i (fork shared a (leaf left old_value) b (leaf right value)))
            left_length
            (fork-IsUniform a (leaf left old_value) b (leaf right value) left_small.0 right_small.0
              (length left) (refl, left_small.1) (right_length, right_small.1) shared shared_small);
      looked_up = λ k _.
          lookup-fork a (leaf left old_value) b (leaf right value) left_small.0 right_small.0
            (length left) (refl, left_small.1) (right_length, right_small.1) shared k
          ∙ leaves-looked_up a left old_value b right value (strip shared k) differ
          ∙ rw (bytes_beq-append shared (a ∷ left) k, bytes_beq-append shared (b ∷ right) k) refl;
    }

module _ (shared : Bytes) (a : ℕ) (left : Bytes) (b : ℕ) (right value : Bytes) where
  parted : (x : ℕ) (xs : Bytes) → (length (shared ++ (x ∷ xs)) == length shared) ≡ false
  parted x xs = ground (arith, length-append shared (x ∷ xs))

  split_leaf-fork :
      (old_value : Bytes)
      → split_leaf (length shared) (shared ++ (a ∷ left)) old_value (shared ++ (b ∷ right)) value
        ≡ fork shared a (leaf left old_value) b (leaf right value)
  unfolding split_leaf put_leaf
  split_leaf-fork old_value =
      rw
        (
          parted a left,
          parted b right,
          take-append_length shared (b ∷ right),
          drop-append_length shared (a ∷ left),
          drop-append_length shared (b ∷ right),
        )
        refl

  pub split_extension-fork :
      (child : TrieNode)
      → split_extension (length shared) (shared ++ (a ∷ left)) child (shared ++ (b ∷ right)) value
        ≡ fork shared b (leaf right value) a (continuation left child)
  unfolding split_extension put_leaf
  split_extension-fork child =
      rw
        (
          take-append_length shared (a ∷ left),
          drop-append_length shared (a ∷ left),
          drop-append_length shared (b ∷ right),
        )
        refl

overwritten-Updates :
    (n : ℕ) (remaining old_value path value : Bytes)
    → IsPath n path
    → path ≡ remaining
    → Updates n path value (leaf remaining old_value) (leaf path value)
unfolding IsUniform lookup
overwritten-Updates n remaining old_value path value new_path same = record {
  uniform = new_path;
  looked_up = λ k _.
      subst
        (λ r.
          (if bytes_beq path k then some value else none)
          ≡ replaced path value k (if bytes_beq r k then some old_value else none))
        same (ground arith);
}

parted-Updates :
    (n : ℕ) (remaining old_value path value : Bytes)
    → IsPath n remaining
    → IsPath n path
    → path ≢ remaining
    → Diverge remaining path
    → Updates n path value
        (leaf remaining old_value)
        (split_leaf (shared_prefix_len remaining path) remaining old_value path value)
parted-Updates n remaining old_value path value old_path new_path differ (front [] split known) =
    elim (differ (split ∙ append-nil remaining)) [ ]
parted-Updates n remaining old_value path value old_path new_path differ
      (front (x ∷ rest) split known) =
    let longer : ⊥ =
      omega (arith, ap length split, length-append remaining (x ∷ rest), old_path.0, new_path.0) in
    elim longer [ ]
parted-Updates n remaining old_value path value old_path new_path differ (shorter a rest split) =
    let longer : ⊥ =
      omega (arith, ap length split, length-append path (a ∷ rest), old_path.0, new_path.0) in
    elim longer [ ]
parted-Updates n remaining old_value path value old_path new_path differ
      (apart shared a left b right split split' ne known) =
    let made =
      split_leaf-Updates n shared a left b right old_value value ne
        (subst (IsPath n) split old_path) (subst (IsPath n) split' new_path) in
    let whole =
      subst (λ t. Updates n (shared ++ (b ∷ right)) value (leaf (shared ++ (a ∷ left)) old_value) t)
        (sym (split_leaf-fork shared a left b right value old_value)) made in
    subst
      (λ p.
        Updates n path value (leaf remaining old_value)
          (split_leaf p remaining old_value path value))
      (sym known)
      (subst
        (λ r.
          Updates n path value (leaf r old_value)
            (split_leaf (length shared) r old_value path value))
        (sym split)
        (subst
          (λ q.
            Updates n q value (leaf (shared ++ (a ∷ left)) old_value)
              (split_leaf (length shared) (shared ++ (a ∷ left)) old_value q value))
          (sym split') whole))

pub insert_into_leaf-Updates :
    (n : ℕ) (remaining old_value path value : Bytes)
    → IsPath n remaining
    → IsPath n path
    → Updates n path value
        (leaf remaining old_value)
        (insert_into_leaf remaining old_value path value)
unfolding insert_into_leaf
insert_into_leaf-Updates n remaining old_value path value old_path new_path =
    elim (Bool-cases (bytes_beq path remaining)) [
      | inl same ↦ rw same (
          overwritten-Updates n remaining old_value path value new_path
            ((bytes_beq_iff path remaining).0 same))
      | inr differ ↦ rw differ (
          parted-Updates n remaining old_value path value old_path new_path
            (λ e.
              let wrong : true ≡ false = sym ((bytes_beq_iff path remaining).1 e) ∙ differ in cc)
            (diverge remaining path))
    ]

-- The leaf of a new path beside what was below an extension.
pub continuation-looked_up :
    (left : Bytes) (child : TrieNode) (k : Bytes)
    → lookup (continuation left child) k ≡ lookup (extension left child) k
unfolding lookup
continuation-looked_up [] child k = refl
continuation-looked_up (x ∷ left) child k = refl

pub continuation-IsUniform :
    (left : Bytes) (m : ℕ) (child : TrieNode)
    → AreNibbles left
    → IsUniform m child
    → IsUniform (length left + m) (continuation left child)
unfolding IsUniform
continuation-IsUniform [] m child small u = subst (λ i. IsUniform i child) (omega arith) u
continuation-IsUniform (x ∷ left) m child small u = (m, refl, small, u)
