-- ===== src/Trie/Hash.antt =====
-- core/rlp-codec/src/trie.rs: the encoding of nodes and the root hash. The hash function of the
-- crate `sha3` is the parameter `keccak256`.
use rust_eth_playground.Prelude.{
  ℕ, ◌+◌, ◌*◌, ◌%◌, ◌==◌, Bool, true, false, Option, none, some, [], ◌∷◌, ◌++◌, length, ltb, Bytes,
  if◌then◌else◌, as_u8, Result, ok, ◌>>=◌, map_err,
}
use rust_eth_playground.Rlp.Item.{RlpItem, list_of}
use rust_eth_playground.Rlp.Encoder.{add_rlp_list_prefix, encode}
use rust_eth_playground.Codec.Scalars.{vec_to_item, array_to_item}
use rust_eth_playground.Trie.Node.{
  TrieNode, Children, leaf, extension, branch, no_slot, vacant, occupied, TrieError, MerkleTrie,
}

pub data NodeRef : Type 0 where
  inlined : Bytes → NodeRef
  hashed : Bytes → NodeRef

-- `chunks(2)` of an even number of nibbles, packed as `(pair[0] << 4) | pair[1]`.
unfoldable pub pack_pairs : Bytes → Bytes
pack_pairs [] = []
pack_pairs (high ∷ []) = []
pack_pairs (high ∷ low ∷ rest) = as_u8 (high * 16 + low) ∷ pack_pairs rest

-- The flag nibble of the hex prefix: 0 or 2 with an even path, 1 or 3 with an odd one.
abbrev hp_flag : Bool → ℕ
hp_flag false = 0
hp_flag true = 2

unfoldable pub hp_encode_odd : Bytes → ℕ → Bytes
hp_encode_odd [] flag = []
hp_encode_odd (n ∷ rest) flag = as_u8 ((flag + 1) * 16 + n) ∷ pack_pairs rest

unfoldable pub hp_encode : Bytes → Bool → Bytes
unfolding hp_encode_odd pack_pairs
hp_encode nibbles is_leaf =
    if length nibbles % 2 == 0
    then hp_flag is_leaf * 16 ∷ pack_pairs nibbles
    else hp_encode_odd nibbles (hp_flag is_leaf)

-- `encode(&x.to_rlp_item(), &mut buffer)?` in the trie's functions.
abbrev pub encode_item : RlpItem → Bytes → Result TrieError Bytes
encode_item item buffer = map_err TrieError.encode (encode item buffer)

module _ (keccak256 : Bytes → Bytes) where
  -- The end of `encode_node`: short nodes stand in their parent as they are.
  unfoldable pub node_ref : Bytes → NodeRef
  node_ref written = if ltb (length written) 32 then inlined written else hashed (keccak256 written)

  -- A child in the payload of a branch.
  unfoldable pub put_child : NodeRef → Bytes → Result TrieError Bytes
  put_child (inlined x) encoded_items = ok (encoded_items ++ x)
  put_child (hashed x) encoded_items = encode_item (array_to_item x) encoded_items

  unfoldable pub put_value : Option Bytes → Bytes → Result TrieError Bytes
  put_value none encoded_items = encode_item (vec_to_item []) encoded_items
  put_value (some x) encoded_items = encode_item (vec_to_item x) encoded_items

  unfoldable pub encode_extension : Bytes → NodeRef → Result TrieError Bytes
  encode_extension shared (inlined x) =
      encode_item (vec_to_item (hp_encode shared false)) [] >>= λ encoded.
      ok (add_rlp_list_prefix [] (length (encoded ++ x)) ++ (encoded ++ x))
  encode_extension shared (hashed x) =
      encode_item (list_of (vec_to_item (hp_encode shared false) ∷ array_to_item x ∷ [])) []

  -- `encode_node`, and the loop over the children of a branch.
  unfoldable mutual
    pub encode_node : TrieNode → Result TrieError NodeRef
    encode_node (leaf remaining value) =
        encode_item (list_of (vec_to_item (hp_encode remaining true) ∷ vec_to_item value ∷ [])) []
        >>= λ written. ok (node_ref written)
    encode_node (extension shared child) = encode_node child >>= λ child_ref.
        encode_extension shared child_ref >>= λ written. ok (node_ref written)
    encode_node (branch children value) = encode_children children [] >>= λ slots.
        put_value value slots >>= λ encoded_items.
        ok (node_ref (add_rlp_list_prefix [] (length encoded_items) ++ encoded_items))

    pub encode_children : Children → Bytes → Result TrieError Bytes
    encode_children no_slot encoded_items = ok encoded_items
    encode_children (vacant rest) encoded_items =
        encode_item (vec_to_item []) encoded_items >>= λ written. encode_children rest written
    encode_children (occupied node rest) encoded_items = encode_node node >>= λ child_ref.
        put_child child_ref encoded_items >>= λ written. encode_children rest written

  -- The hash that stands for a node reference at the root.
  abbrev root_of : NodeRef → Bytes
  root_of (inlined x) = keccak256 x
  root_of (hashed x) = x

  unfoldable pub root_hash : MerkleTrie → Result TrieError Bytes
  root_hash trie = elim trie.root [
    | none ↦ ok (keccak256 (0x80 ∷ []))
    | some node ↦ encode_node node >>= λ reference. ok (root_of reference)
  ]
