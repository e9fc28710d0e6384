-- ===== src/Trie/Node.antt =====
-- core/rlp-codec/src/trie.rs: the nodes, and insertion.
use rust_eth_playground.Prelude.{
  ℕ, zero, suc, ◌/◌, ◌%◌, ◌==◌, Option, none, some, [], ◌∷◌, length, take, drop, Bytes, bytes_beq,
  if◌then◌else◌, Result, ok, ◌>>◌, raise_if,
}
use rust_eth_playground.Rlp.Item.{RlpError}

-- `TrieNode`; `Children` is its `[Option<TrieNode>; 16]`, slot by slot.
mutual
  pub data TrieNode : Type 0 where
    leaf : Bytes → Bytes → TrieNode
    extension : Bytes → TrieNode → TrieNode
    branch : Children → Option Bytes → TrieNode

  pub data Children : Type 0 where
    no_slot : Children
    vacant : Children → Children
    occupied : TrieNode → Children → Children

pub data TrieError : Type 0 where
  invalid_key : TrieError
  encode : RlpError → TrieError

abbrev pub vacant_slots : ℕ → Children
vacant_slots zero = no_slot
vacant_slots (suc n) = vacant (vacant_slots n)

-- `[const { None }; 16]`.
abbrev pub no_children : Children
no_children = vacant_slots 16

-- `children[i] = Some(node)`. An index past the slots panics in Rust; here it changes nothing.
unfoldable pub set_child : Children → ℕ → TrieNode → Children
set_child no_slot i node = no_slot
set_child (vacant rest) zero node = occupied node rest
set_child (vacant rest) (suc i) node = vacant (set_child rest i node)
set_child (occupied old rest) zero node = occupied node rest
set_child (occupied old rest) (suc i) node = occupied old (set_child rest i node)

unfoldable pub bytes_to_nibbles : Bytes → Bytes
bytes_to_nibbles [] = []
bytes_to_nibbles (b ∷ bs) = b / 16 ∷ b % 16 ∷ bytes_to_nibbles bs

-- `a.iter().zip(b).take_while(|(a, b)| a == b).count()`.
unfoldable pub shared_prefix_len : Bytes → Bytes → ℕ
shared_prefix_len [] ys = 0
shared_prefix_len (x ∷ xs) [] = 0
shared_prefix_len (x ∷ xs) (y ∷ ys) =
    let rest = shared_prefix_len xs ys in if x == y then suc rest else 0

-- A slot set to a leaf under the nibble at the front, and to what follows it.
unfoldable pub put_leaf : Bytes → Bytes → Children → Children
put_leaf [] value children = children
put_leaf (n ∷ rest) value children = set_child children n (leaf rest value)

-- `value` of a branch that a key ends at.
abbrev pub value_at_end : Bytes → Bytes → Option Bytes
value_at_end [] value = some value
value_at_end (n ∷ rest) value = none

-- An extension over the shared nibbles, or the branch itself where none is shared.
abbrev pub under_prefix : Bytes → TrieNode → TrieNode
under_prefix [] node = node
under_prefix (n ∷ rest) node = extension (n ∷ rest) node

-- The three ways to split a leaf, by what remains of the old and of the new key after `p` nibbles.
-- Both cannot be empty, since the keys differ.
unfoldable pub split_leaf : ℕ → Bytes → Bytes → Bytes → Bytes → TrieNode
split_leaf p remaining old_value nibbles new_value =
    if length remaining == p
    then branch (put_leaf (drop p nibbles) new_value no_children) (some old_value)
    else (if length nibbles == p
        then branch (put_leaf (drop p remaining) old_value no_children) (some new_value)
        else under_prefix (take p nibbles) (
            branch
              (put_leaf (drop p nibbles) new_value
                (put_leaf (drop p remaining) old_value no_children))
              none))

unfoldable pub insert_into_leaf : Bytes → Bytes → Bytes → Bytes → TrieNode
insert_into_leaf remaining old_value nibbles new_value =
    if bytes_beq nibbles remaining
    then leaf nibbles new_value
    else split_leaf (shared_prefix_len remaining nibbles) remaining old_value nibbles new_value

-- What is left of an extension below the slot that its first nibble names.
abbrev pub continuation : Bytes → TrieNode → TrieNode
continuation [] old_child = old_child
continuation (n ∷ rest) old_child = extension (n ∷ rest) old_child

abbrev pub put_continuation : Bytes → TrieNode → Children → Children
put_continuation [] old_child children = children
put_continuation (n ∷ rest) old_child children = set_child children n (continuation rest old_child)

unfoldable pub split_extension : ℕ → Bytes → TrieNode → Bytes → Bytes → TrieNode
split_extension p shared old_child nibbles new_value = under_prefix (take p shared) (
    branch
      (put_continuation (drop p shared) old_child (put_leaf (drop p nibbles) new_value no_children))
      (value_at_end (drop p nibbles) new_value))

-- `recursive_insert` at an occupied slot, and in the slots of a branch.
unfoldable mutual
  pub insert_node : TrieNode → Bytes → Bytes → TrieNode
  insert_node (leaf remaining old_value) nibbles new_value =
      insert_into_leaf remaining old_value nibbles new_value
  insert_node (extension shared old_child) nibbles new_value =
      if shared_prefix_len shared nibbles == length shared
      then extension shared (insert_node old_child (drop (length shared) nibbles) new_value)
      else split_extension (shared_prefix_len shared nibbles) shared old_child nibbles new_value
  insert_node (branch children value) nibbles new_value = elim nibbles [
    | [] ↦ branch children (some new_value)
    | n ∷ rest ↦ branch (insert_child children n rest new_value) value
  ]

  pub insert_child : Children → ℕ → Bytes → Bytes → Children
  insert_child no_slot i nibbles new_value = no_slot
  insert_child (vacant rest) i nibbles new_value = elim i [
    | zero ↦ occupied (leaf nibbles new_value) rest
    | suc j ↦ vacant (insert_child rest j nibbles new_value)
  ]
  insert_child (occupied node rest) i nibbles new_value = elim i [
    | zero ↦ occupied (insert_node node nibbles new_value) rest
    | suc j ↦ occupied node (insert_child rest j nibbles new_value)
  ]

-- `recursive_insert`.
unfoldable pub recursive_insert : Option TrieNode → Bytes → Bytes → TrieNode
recursive_insert none nibbles new_value = leaf nibbles new_value
recursive_insert (some node) nibbles new_value = insert_node node nibbles new_value

-- `MerkleTrie`, whose one field is its root.
pub record MerkleTrie : Type 0 where
  pub root : Option TrieNode

abbrev pub new_trie : MerkleTrie
new_trie = record { root = none }

-- `MerkleTrie::insert`.
unfoldable pub trie_insert : Bytes → Bytes → MerkleTrie → Result TrieError MerkleTrie
trie_insert key new_value trie = do
  raise_if (length key == 0) invalid_key
  ok (record { root = some (recursive_insert trie.root (bytes_to_nibbles key) new_value) })
