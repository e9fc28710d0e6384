-- ===== src/Codec/AccountBug.antt =====
-- core/rlp-codec/src/traits.rs: `Account::from_rlp_item` reads all three fields from the first one.
use rust_eth_playground.Prelude.{ℕ, ◌≡◌, ◌≢◌, subst, Bytes, ok, >>=-eq-ok, arith}
use rust_eth_playground.Types.Primitives.{Account}
use rust_eth_playground.Rlp.Item.{RlpItem, bytes, list}
use rust_eth_playground.Codec.Scalars.{
  index, uint_from_item, array_from_item, u64_from_item, expect_fields, u128_from_item,
  b256_from_item,
}
use rust_eth_playground.Codec.Transactions.{fields_of}
use rust_eth_playground.Codec.Blocks.{account_from_item}

-- What the first field must be for two of the three reads to succeed.
u128_and_b256 :
    (item : RlpItem) (a : ℕ) (b : Bytes)
    → u128_from_item item ≡ ok a
    → b256_from_item item ≡ ok b
    → ⊥
unfolding uint_from_item array_from_item
u128_and_b256 (bytes x) a b p q = ground (arith)
u128_and_b256 (list x) a b p q = cc

-- Decoding an account never succeeds, whatever the item: the balance and the code hash are both
-- read from the first field, which would have to be at most 16 bytes long and 32 bytes long.
pub account_from_item-ne-ok : (item : RlpItem) (a : Account) → account_from_item item ≢ ok a
unfolding account_from_item
account_from_item-ne-ok item a h =
    let (x, _, h₁) = >>=-eq-ok (fields_of item) _ h in
    let (_, _, h₂) = >>=-eq-ok (expect_fields 3 x) _ h₁ in
    let (i, pi, h₃) = >>=-eq-ok (index x 0) _ h₂ in
    let (balance, pb, h₄) = >>=-eq-ok (u128_from_item i) _ h₃ in
    let (j, _, h₅) = >>=-eq-ok (index x 0) _ h₄ in
    let (_, _, h₆) = >>=-eq-ok (u64_from_item j) _ h₅ in
    let (k, pk, h₇) = >>=-eq-ok (index x 0) _ h₆ in
    let (code_hash, pc, _) = >>=-eq-ok (b256_from_item k) _ h₇ in
    u128_and_b256 i balance code_hash pb
      (subst (λ t. b256_from_item t ≡ ok code_hash) (cc (pi, pk)) pc)
