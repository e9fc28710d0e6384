-- ===== src/Signing.antt =====
-- core/rlp-codec/src/signing.rs: wire forms and hashes of transactions and headers, and sender
-- recovery. The crates `sha3` and `k256` are the parameter `Crypto`.
pub mod Total
pub mod Sign
use rust_eth_playground.Prelude.{
  ℕ, Bool, not, Option, List, [], ◌∷◌, ◌++◌, map, drop, ltb, Bytes, u64_mod, Result, ok, panic,
  ◌>>=◌, ◌>>◌, raise_if, ok_or, map_err, checked_mul, checked_sub,
}
use rust_eth_playground.Types.Primitives.{Address, B256, Header, try_from}
use rust_eth_playground.Types.Transaction.{
  Transaction, legacy, eip1559, eip4844, LegacyFields, Eip1559Fields, Eip4844Fields, tx_type,
  SignedTransaction,
}
use rust_eth_playground.Rlp.Item.{RlpItem, list_of, RlpError}
use rust_eth_playground.Rlp.Encoder.{encode}
use rust_eth_playground.Codec.Scalars.{u64_to_item, u128_to_item, vec_to_item, array_to_item}
use rust_eth_playground.Codec.Transactions.{access_list_item_to_item, to_item}
use rust_eth_playground.Codec.Blocks.{header_to_item}

-- The hash of a byte string; whether 64 bytes are a signature; and the uncompressed public key
-- that a hash, a signature and a recovery id stand for, with its leading tag byte.
pub record Crypto : Type 0 where
  pub keccak256 : Bytes → B256
  pub is_signature : Bytes → Bool
  pub recover_from_prehash : B256 → Bytes → ℕ → Option Bytes

pub data SigningError : Type 0 where
  invalid_private_key : SigningError
  signing_failed : SigningError
  recovery_failed : SigningError
  invalid_signature : SigningError
  payload_encoding : RlpError → SigningError

-- The fields of a signature, at the end of a wire form.
abbrev signature_fields : SignedTransaction → List RlpItem
signature_fields t = u64_to_item t.v ∷ array_to_item t.r ∷ array_to_item t.s ∷ []

-- The fields of the payload of each variant, in the order of the wire.
unfoldable pub legacy_payload : LegacyFields → List RlpItem
legacy_payload f =
    u64_to_item f.nonce
    ∷ u128_to_item f.gas_price
    ∷ u64_to_item f.gas_limit
    ∷ to_item f.to
    ∷ u128_to_item f.value
    ∷ vec_to_item f.input
    ∷ []

unfoldable pub eip1559_payload : Eip1559Fields → List RlpItem
eip1559_payload f =
    u64_to_item f.nonce
    ∷ u128_to_item f.max_priority_fee_per_gas
    ∷ u128_to_item f.max_fee_per_gas
    ∷ u64_to_item f.gas_limit
    ∷ to_item f.to
    ∷ u128_to_item f.value
    ∷ vec_to_item f.input
    ∷ list_of (map access_list_item_to_item f.access_list)
    ∷ []

unfoldable pub eip4844_payload : Eip4844Fields → List RlpItem
eip4844_payload f =
    u64_to_item f.nonce
    ∷ u128_to_item f.max_priority_fee_per_gas
    ∷ u128_to_item f.max_fee_per_gas
    ∷ u64_to_item f.gas_limit
    ∷ to_item f.to
    ∷ u128_to_item f.value
    ∷ vec_to_item f.input
    ∷ list_of (map access_list_item_to_item f.access_list)
    ∷ u128_to_item f.max_fee_per_blob_gas
    ∷ list_of (map array_to_item f.blob_versioned_hashes)
    ∷ []

-- A byte in front of the encoded list, as in the typed wire forms.
unfoldable pub encode_typed : Transaction → List RlpItem → Result RlpError Bytes
encode_typed tx fields = do
  type_byte ← map_err RlpError.transaction (tx_type tx)
  encode (list_of fields) (type_byte ∷ [])

-- `legacy_to_wire`; `unreachable!` on the other variants.
unfoldable pub legacy_to_wire : Transaction → SignedTransaction → Result RlpError Bytes
legacy_to_wire (legacy f) t = encode (list_of (legacy_payload f ++ signature_fields t)) []
legacy_to_wire (eip1559 f) t = panic
legacy_to_wire (eip4844 f) t = panic

-- `typed_to_wire`; `unreachable!` on a legacy transaction.
unfoldable pub typed_to_wire : Transaction → SignedTransaction → Result RlpError Bytes
unfolding encode_typed
typed_to_wire (legacy f) t = panic
typed_to_wire (eip1559 f) t = encode_typed (eip1559 f) (eip1559_payload f ++ signature_fields t)
typed_to_wire (eip4844 f) t = encode_typed (eip4844 f) (eip4844_payload f ++ signature_fields t)

-- The match of `signed_transaction_hash` on the variant.
unfoldable pub to_wire : Transaction → SignedTransaction → Result RlpError Bytes
unfolding legacy_to_wire typed_to_wire
to_wire (legacy f) t = legacy_to_wire (legacy f) t
to_wire (eip1559 f) t = typed_to_wire (eip1559 f) t
to_wire (eip4844 f) t = typed_to_wire (eip4844 f) t

-- `legacy_to_encoded_bytes`.
unfoldable pub legacy_to_encoded_bytes : Transaction → ℕ → Result RlpError Bytes
legacy_to_encoded_bytes (legacy f) chain_id =
    encode
      (list_of (legacy_payload f ++ (u64_to_item chain_id ∷ u64_to_item 0 ∷ u64_to_item 0 ∷ []))) []
legacy_to_encoded_bytes (eip1559 f) chain_id = panic
legacy_to_encoded_bytes (eip4844 f) chain_id = panic

-- `typed_to_encoded_bytes`.
unfoldable pub typed_to_encoded_bytes : Transaction → ℕ → Result RlpError Bytes
unfolding encode_typed
typed_to_encoded_bytes (legacy f) chain_id = panic
typed_to_encoded_bytes (eip1559 f) chain_id =
    encode_typed (eip1559 f) (u64_to_item chain_id ∷ eip1559_payload f)
typed_to_encoded_bytes (eip4844 f) chain_id =
    encode_typed (eip4844 f) (u64_to_item chain_id ∷ eip4844_payload f)

-- The bytes that a signature covers: the match that opens `sign` and `recover_sender`.
unfoldable pub signing_payload : Transaction → ℕ → Result RlpError Bytes
unfolding legacy_to_encoded_bytes typed_to_encoded_bytes
signing_payload (legacy f) chain_id = legacy_to_encoded_bytes (legacy f) chain_id
signing_payload (eip1559 f) chain_id = typed_to_encoded_bytes (eip1559 f) chain_id
signing_payload (eip4844 f) chain_id = typed_to_encoded_bytes (eip4844 f) chain_id

-- The recovery id that `v` stands for; a legacy `v` carries the chain id.
unfoldable pub recovery_id_of : Transaction → ℕ → ℕ → Result SigningError ℕ
recovery_id_of (legacy f) v chain_id = do
  doubled ← ok_or (checked_mul u64_mod chain_id 2) invalid_signature
  shifted ← ok_or (checked_sub v doubled) invalid_signature
  ok_or (checked_sub shifted 35) invalid_signature
recovery_id_of (eip1559 f) v chain_id = ok v
recovery_id_of (eip4844 f) v chain_id = ok v

module _ (crypto : Crypto) where
  open crypto use {keccak256, is_signature, recover_from_prehash}

  unfoldable pub signed_transaction_hash : SignedTransaction → Result SigningError B256
  signed_transaction_hash t = do
    written ← map_err payload_encoding (to_wire t.transaction t)
    ok (keccak256 written)

  unfoldable pub hash_header : Header → Result RlpError B256
  hash_header h = do written ← encode (header_to_item h) []; ok (keccak256 written)

  unfoldable pub recover_sender : SignedTransaction → ℕ → Result SigningError Address
  recover_sender t chain_id = do
    payload ← map_err payload_encoding (signing_payload t.transaction chain_id)
    recovery_id ← recovery_id_of t.transaction t.v chain_id
    raise_if (ltb 1 recovery_id) invalid_signature
    raise_if (not (is_signature (t.r ++ t.s))) signing_failed
    public_key ←
        ok_or (recover_from_prehash (keccak256 payload) (t.r ++ t.s) recovery_id) recovery_failed
    map_err (λ _. recovery_failed) (try_from 20 (drop 12 (keccak256 (drop 1 public_key))))
