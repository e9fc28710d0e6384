-- ===== src/BlockBuilder/Built.antt =====
-- block-builder/src/block_builder.rs: the transactions of a block are signed by their senders, at
-- the nonces of the snapshots, and can be paid.
use rust_eth_playground.Prelude.{
  ℕ, ◌+◌, ◌*◌, ◌^◌, ◌≡◌, ◌≤◌, ◌<◌, sym, ap, subst, ◌∙◌, List, [], ◌∷◌, some, get_elem?, ltb, Bytes,
  HashMap, bytes_eq, get, u64_mod, Result, ok, err, panic, raise_if, ok_or, map_err, checked_add,
  >>=-eq-ok, ok_or-eq-ok, ok-injective, arith, not, length, ◌==◌, ◌&&◌,
}
use rust_eth_playground.Types.Primitives.{Address}
use rust_eth_playground.Types.Transaction.{Transaction, SignedTransaction, max_cost}
use rust_eth_playground.Signing.{
  signing_payload, payload_encoding, invalid_private_key, signing_failed, Crypto, recover_sender,
}
use rust_eth_playground.Signing.Sign.{
  SigningKeys, v_of, sign, IsSound, address_of_key, recover_sender-sign,
}
use rust_eth_playground.BlockBuilder.{
  TransactionSpec, AccountSnapshot, signing, overflow, BuilderState, gas_price, sender_probe,
  sender_address, transfer_of, build_signed_transaction, build_transactions, insufficient_balance,
}

map_err-eq-ok :
    {E F A : Type 0} (f : E → F) (r : Result E A) {a : A} → map_err f r ≡ ok a → r ≡ ok a
map_err-eq-ok f (ok b) h = cc
map_err-eq-ok f (err e) h = cc
map_err-eq-ok f panic h = cc

sign-same :
    (crypto : Crypto) (keys : SigningKeys) (tx : Transaction) (key : Bytes) (chain_id : ℕ)
    (t : SignedTransaction)
    → sign crypto keys tx key chain_id ≡ ok t
    → t.transaction ≡ tx
unfolding sign
sign-same crypto keys tx key chain_id t h =
    let (payload, _, h₁) = >>=-eq-ok (map_err payload_encoding (signing_payload tx chain_id)) _ h in
    let (_, _, h₂) =
      >>=-eq-ok (raise_if (not (length key == 32 && keys.is_key key)) invalid_private_key) _ h₁ in
    let (_, _, h₃) =
      >>=-eq-ok
        (ok_or (keys.sign_prehash_recoverable key (crypto.keccak256 payload)) signing_failed) _
        h₂ in
    let (_, _, h₄) = >>=-eq-ok (v_of tx _ chain_id) _ h₃ in
    ap (λ x. x.transaction) (sym (ok-injective h₄))

-- A transaction built for a spec: its sender is the address of the key that the spec names, its
-- nonce is that of the sender's snapshot, and the snapshot's balance covers its cost.
pub record IsBuilt (crypto : Crypto) (keys : SigningKeys) (state : BuilderState)
    (snapshots : HashMap Address AccountSnapshot) (spec : TransactionSpec) (t : SignedTransaction)
    : Type 0 where
  pub key : Bytes
  pub snapshot : AccountSnapshot
  pub named_key : get_elem? state.signing_keys spec.sender_index ≡ some key
  pub recovered : recover_sender crypto t state.chain_id ≡ ok (address_of_key crypto keys key)
  pub snapshot_found : get (address_of_key crypto keys key) snapshots ≡ some snapshot
  pub content : t.transaction ≡ transfer_of spec snapshot
  pub affordable : gas_price * spec.gas_limit + spec.value ≤ snapshot.balance

-- One of each for each spec, in their order.
abbrev pub Pairwise : {A B : Type 0} → (A → B → Type 0) → List A → List B → Type 0
Pairwise R [] [] = Unit
Pairwise R [] (b ∷ bs) = ⊥
Pairwise R (a ∷ as_) [] = ⊥
Pairwise R (a ∷ as_) (b ∷ bs) = R a b × Pairwise R as_ bs

abbrev pub gas_limits : List TransactionSpec → ℕ
gas_limits [] = 0
gas_limits (spec ∷ specs) = spec.gas_limit + gas_limits specs

gas_added :
    (gas limit sum : ℕ)
    → ok_or (checked_add u64_mod gas limit) overflow ≡ ok sum
    → sum ≡ gas + limit
gas_added gas limit sum h = ground arith

-- The gas of the transactions is the sum of the gas limits of their specs.
pub build_transactions-gas_limits :
    (crypto : Crypto) (keys : SigningKeys) (state : BuilderState)
    (snapshots : HashMap Address AccountSnapshot) (specs : List TransactionSpec) (gas : ℕ)
    (made : ℕ × List SignedTransaction)
    → build_transactions crypto keys state snapshots specs gas ≡ ok made
    → made.0 ≡ gas + gas_limits specs
unfolding build_transactions
build_transactions-gas_limits crypto keys state snapshots [] gas made h =
    omega (arith, ap (λ m. m.0) (ok-injective h))
build_transactions-gas_limits crypto keys state snapshots (spec ∷ specs) gas made h =
    let (sum, summed, h₁) =
      >>=-eq-ok (ok_or (checked_add u64_mod gas spec.gas_limit) overflow) _ h in
    let (t, _, h₂) = >>=-eq-ok (build_signed_transaction crypto keys state spec snapshots) _ h₁ in
    let (rest, found, h₃) =
      >>=-eq-ok (build_transactions crypto keys state snapshots specs sum) _ h₂ in
    omega (
      arith,
      build_transactions-gas_limits crypto keys state snapshots specs sum rest found,
      gas_added gas spec.gas_limit sum summed,
      ap (λ m. m.0) (ok-injective h₃),
    )

transfer_cost :
    (spec : TransactionSpec) (snapshot : AccountSnapshot) (cost : ℕ)
    → max_cost (transfer_of spec snapshot) ≡ ok cost
    → cost ≡ gas_price * spec.gas_limit + spec.value
unfolding max_cost
transfer_cost spec snapshot cost h = ground arith

module _ (crypto : Crypto) (keys : SigningKeys) (sound : IsSound crypto keys) (state : BuilderState)
    (fits : 2 * state.chain_id + 36 < 2 ^ 64) (snapshots : HashMap Address AccountSnapshot) where
  sender_address-of_key :
      (key : Bytes) (sender : Address)
      → sender_address crypto keys state key ≡ ok sender
      → sender ≡ address_of_key crypto keys key
  unfolding sender_address
  sender_address-of_key key sender h =
      let (signed, made, found) =
        >>=-eq-ok (map_err signing (sign crypto keys sender_probe key state.chain_id)) _ h in
      ok-injective (
        sym (map_err-eq-ok signing (recover_sender crypto signed state.chain_id) found)
        ∙ recover_sender-sign crypto keys sound sender_probe key state.chain_id signed fits
            (map_err-eq-ok signing (sign crypto keys sender_probe key state.chain_id) made))

  build_signed_transaction-IsBuilt :
      (spec : TransactionSpec) (t : SignedTransaction)
      → build_signed_transaction crypto keys state spec snapshots ≡ ok t
      → IsBuilt crypto keys state snapshots spec t
  unfolding build_signed_transaction
  build_signed_transaction-IsBuilt spec t h =
      let (key, k, h₁) = >>=-eq-ok (ok_or (get_elem? state.signing_keys spec.sender_index) _) _ h in
      let (sender, s, h₂) = >>=-eq-ok (sender_address crypto keys state key) _ h₁ in
      let (snapshot, found, h₃) = >>=-eq-ok (ok_or (get sender snapshots) _) _ h₂ in
      let (cost, c, h₄) =
        >>=-eq-ok (map_err (λ _. overflow) (max_cost (transfer_of spec snapshot))) _ h₃ in
      let (_, paid, h₅) =
        >>=-eq-ok
          (raise_if (ltb snapshot.balance cost) (insufficient_balance sender snapshot.balance cost))
          _ h₄ in
      let made = map_err-eq-ok signing _ h₅ in
      let price = transfer_cost spec snapshot cost (map_err-eq-ok (λ _. overflow) _ c) in
      record {
        key = key;
        snapshot = snapshot;
        named_key = ok_or-eq-ok _ _ k;
        recovered =
            recover_sender-sign crypto keys sound (transfer_of spec snapshot) key state.chain_id t
              fits made;
        snapshot_found =
            subst (λ a. get a snapshots ≡ some snapshot) (sender_address-of_key key sender s)
              (ok_or-eq-ok _ _ found);
        content = sign-same crypto keys (transfer_of spec snapshot) key state.chain_id t made;
        affordable = subst (λ n. n ≤ snapshot.balance) price (ground arith);
      }

  abbrev pub AreBuilt : List TransactionSpec → ℕ × List SignedTransaction → Type 0
  AreBuilt specs (total, ts) = Pairwise (IsBuilt crypto keys state snapshots) specs ts

  pub build_transactions-AreBuilt :
      (specs : List TransactionSpec) (gas : ℕ) (made : ℕ × List SignedTransaction)
      → build_transactions crypto keys state snapshots specs gas ≡ ok made
      → AreBuilt specs made
  unfolding build_transactions
  build_transactions-AreBuilt [] gas made h = subst (AreBuilt []) (ok-injective h) tt
  build_transactions-AreBuilt (spec ∷ specs) gas made h =
      let (sum, _, h₁) = >>=-eq-ok (ok_or (checked_add u64_mod gas spec.gas_limit) overflow) _ h in
      let (t, built, h₂) =
        >>=-eq-ok (build_signed_transaction crypto keys state spec snapshots) _ h₁ in
      let (rest, found, h₃) =
        >>=-eq-ok (build_transactions crypto keys state snapshots specs sum) _ h₂ in
      subst (AreBuilt (spec ∷ specs)) (ok-injective h₃) (
        build_signed_transaction-IsBuilt spec t built,
        build_transactions-AreBuilt specs sum rest found,
      )
