-- ===== src/Examples/Signing.antt =====
-- The theorem on signing at a transfer, with keys that sign everything alike.
use rust_eth_playground.Prelude.{◌≡◌, refl, some, ◌∷◌, replicate, true, ok, arith}
use rust_eth_playground.Types.Transaction.{legacy, SignedTransaction}
use rust_eth_playground.Signing.{recover_sender}
use rust_eth_playground.Signing.Sign.{SigningKeys, sign, IsSound, recover_sender-sign}
use rust_eth_playground.Examples.Data.{crypto, alice, transfer_fields}

abbrev pub keys : SigningKeys
keys = record {
  is_key = λ _. true;
  sign_prehash_recoverable = λ _ _. some (replicate 64 3, 0);
  public_key = λ _. 4 ∷ replicate 64 1;
}

pub keys-IsSound : IsSound crypto keys
keys-IsSound = record {
  signature_recovers = λ key hash signature recovery_id made. (refl, ground arith, refl);
  hash_length = λ m. refl;
}

abbrev signed_transfer : SignedTransaction
signed_transfer = record {
  transaction = legacy transfer_fields;
  v = 37;
  r = replicate 32 3;
  s = replicate 32 3;
}

signed : sign crypto keys (legacy transfer_fields) (replicate 32 5) 1 ≡ ok signed_transfer
unfolding rust_eth_playground.Signing.hash_header rust_eth_playground.Rlp.Encoder.encode
    rust_eth_playground.Codec.Blocks.header_to_item rust_eth_playground.Codec.Scalars.array_to_item
    rust_eth_playground.Codec.Scalars.uint_to_item rust_eth_playground.Codec.Scalars.vec_to_item
    rust_eth_playground.Codec.Transactions.access_list_item_to_item
    rust_eth_playground.Codec.Transactions.to_item rust_eth_playground.Rlp.BigEndian.strip_zeros
    rust_eth_playground.Rlp.BigEndian.to_be rust_eth_playground.Rlp.Encoder.add_rlp_list_prefix
    rust_eth_playground.Rlp.Encoder.encode_bytes rust_eth_playground.Rlp.Encoder.encode_length
    rust_eth_playground.Rlp.Encoder.encode_length_loop rust_eth_playground.Signing.legacy_payload
    rust_eth_playground.Signing.eip1559_payload rust_eth_playground.Signing.eip4844_payload
    rust_eth_playground.Signing.encode_typed rust_eth_playground.Signing.signing_payload
    rust_eth_playground.Signing.legacy_to_encoded_bytes
    rust_eth_playground.Signing.typed_to_encoded_bytes rust_eth_playground.Signing.Sign.v_of
    rust_eth_playground.Signing.Sign.sign
signed = refl

recover_sender-sign_example : recover_sender crypto signed_transfer 1 ≡ ok alice
recover_sender-sign_example =
    recover_sender-sign crypto keys keys-IsSound (legacy transfer_fields) (replicate 32 5) 1
      signed_transfer (omega arith) signed
