-- ===== src/Signing/Sign.antt =====
-- core/rlp-codec/src/signing.rs: `sign`, and that the sender is recovered from what it signs.
use rust_eth_playground.Prelude.{
  ℕ, ◌+◌, ◌*◌, ◌≡◌, ◌≤◌, ◌<◌, ◌^◌, ◌%◌, refl, subst, Bool, true, false, not, ◌&&◌, Option, some,
  length, take, drop, ltb, ◌==◌, Bytes, u64_mod, Result, ok, ◌>>=◌, ◌>>◌, raise_if, ok_or, map_err,
  checked_mul, arith, >>=-eq-ok, ok_or-eq-ok, ==_iff, length-drop, take-append-drop, le→ltb_false,
  ok-injective,
}
use rust_eth_playground.Types.Primitives.{Address, B256, try_from}
use rust_eth_playground.Types.Transaction.{Transaction, legacy, eip1559, eip4844, SignedTransaction}
use rust_eth_playground.Signing.{
  Crypto, SigningError, payload_encoding, invalid_private_key, signing_failed, invalid_signature,
  signing_payload, recovery_id_of, recover_sender,
}

-- The signing keys of `k256`: which 32 bytes are a key, the signature of a hash with its recovery
-- id, and the uncompressed public key.
pub record SigningKeys : Type 0 where
  pub is_key : Bytes → Bool
  pub sign_prehash_recoverable : Bytes → B256 → Option (Bytes × ℕ)
  pub public_key : Bytes → Bytes

-- `v`: the recovery id, and for a legacy transaction the chain id with it. The last two additions
-- wrap.
unfoldable pub v_of : Transaction → ℕ → ℕ → Result SigningError ℕ
v_of (legacy f) recovery_id chain_id = do
  doubled ← ok_or (checked_mul u64_mod chain_id 2) invalid_signature
  ok ((recovery_id + doubled + 35) % u64_mod)
v_of (eip1559 f) recovery_id chain_id = ok recovery_id
v_of (eip4844 f) recovery_id chain_id = ok recovery_id

module _ (crypto : Crypto) (keys : SigningKeys) where
  unfoldable pub sign : Transaction → Bytes → ℕ → Result SigningError SignedTransaction
  sign tx key chain_id = do
    payload ← map_err payload_encoding (signing_payload tx chain_id)
    raise_if (not (length key == 32 && keys.is_key key)) invalid_private_key
    (signature, recovery_id) ←
        ok_or (keys.sign_prehash_recoverable key (crypto.keccak256 payload)) signing_failed
    v ← v_of tx recovery_id chain_id
    ok (record { transaction = tx; v = v; r = take 32 signature; s = drop 32 signature })

  -- The address of a key.
  abbrev pub address_of_key : Bytes → Address
  address_of_key key = drop 12 (crypto.keccak256 (drop 1 (keys.public_key key)))

  -- What the crates document: a signature recovers the key that made it, with a recovery id of 0
  -- or 1, and a hash has 32 bytes.
  pub record IsSound : Type 0 where
    pub signature_recovers :
        (key : Bytes) (hash : B256) (signature : Bytes) (recovery_id : ℕ)
        → keys.sign_prehash_recoverable key hash ≡ some (signature, recovery_id)
        → (crypto.is_signature signature ≡ true)
          × (recovery_id ≤ 1)
          × (crypto.recover_from_prehash hash signature recovery_id ≡ some (keys.public_key key))
    pub hash_length : (m : Bytes) → length (crypto.keccak256 m) ≡ 32

recovery_id_of-v_of :
    (tx : Transaction) (recovery_id chain_id v : ℕ)
    → recovery_id ≤ 1
    → 2 * chain_id + 36 < 2 ^ 64
    → v_of tx recovery_id chain_id ≡ ok v
    → recovery_id_of tx v chain_id ≡ ok recovery_id
unfolding v_of recovery_id_of
recovery_id_of-v_of (legacy f) recovery_id chain_id v h fits e = ground arith
recovery_id_of-v_of (eip1559 f) recovery_id chain_id v h fits e = cc
recovery_id_of-v_of (eip4844 f) recovery_id chain_id v h fits e = cc

module _ (crypto : Crypto) (keys : SigningKeys) (sound : IsSound crypto keys) where
  address_fits :
      (m : Bytes) → try_from 20 (drop 12 (crypto.keccak256 m)) ≡ ok (drop 12 (crypto.keccak256 m))
  address_fits m =
      let twenty : (length (drop 12 (crypto.keccak256 m)) == 20) ≡ true =
        (==_iff _ 20).1 (omega (arith, length-drop 12 (crypto.keccak256 m), sound.hash_length m)) in
      rw twenty refl

  -- The sender recovered from a transaction that `sign` signed, under the same chain id, is the
  -- address of the signing key, for a chain id below 2^63 - 18, a hash of 32 bytes, and signatures
  -- that recover the key that made them with a recovery id of 0 or 1.
  pub recover_sender-sign :
      (tx : Transaction) (key : Bytes) (chain_id : ℕ) (signed : SignedTransaction)
      → 2 * chain_id + 36 < 2 ^ 64
      → sign crypto keys tx key chain_id ≡ ok signed
      → recover_sender crypto signed chain_id ≡ ok (address_of_key crypto keys key)
  unfolding sign recover_sender
  recover_sender-sign tx key chain_id signed fits h =
      let (payload, p, h₁) =
        >>=-eq-ok (map_err payload_encoding (signing_payload tx chain_id)) _ h in
      let (_, _, h₂) =
        >>=-eq-ok (raise_if (not (length key == 32 && keys.is_key key)) invalid_private_key) _ h₁ in
      let ((signature, recovery_id), made, h₃) =
        >>=-eq-ok
          (ok_or (keys.sign_prehash_recoverable key (crypto.keccak256 payload)) signing_failed) _
          h₂ in
      let (v, ve, h₄) = >>=-eq-ok (v_of tx recovery_id chain_id) _ h₃ in
      let (valid, small, recovers) =
        sound.signature_recovers key (crypto.keccak256 payload) signature recovery_id
          (ok_or-eq-ok _ _ made) in
      let low : ltb 1 recovery_id ≡ false = le→ltb_false 1 recovery_id small in
      subst (λ t. recover_sender crypto t chain_id ≡ ok (address_of_key crypto keys key))
        (ok-injective h₄)
        (rw
          (
            p,
            recovery_id_of-v_of tx recovery_id chain_id v small fits ve,
            low,
            take-append-drop 32 signature,
            valid,
            recovers,
            address_fits (drop 1 (keys.public_key key)),
          )
          refl)
