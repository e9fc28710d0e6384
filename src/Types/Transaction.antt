-- ===== src/Types/Transaction.antt =====
-- core/types/src/transaction.rs, transaction_error.rs and block.rs: transactions, their prices and
-- their summary, and blocks. The feature `optimism` is off, as in every default build.
use rust_eth_playground.Prelude.{
  ℕ, ◌+◌, min, Bool, true, false, Option, none, some, List, [], ◌∷◌, ltb, Bytes, length, Result, ok,
  ◌>>=◌, ◌>>◌, raise_if, ok_or, checked_add, checked_mul, u64_mod, u128_mod, if◌then◌else◌,
}
use rust_eth_playground.Types.Primitives.{Address, B256, Header}

-- `DecodeError`, which `TransactionError` can wrap, is built by no code of the repository.
pub data TransactionError : Type 0 where
  insufficient_balance : ℕ → ℕ → TransactionError
  out_of_gas : ℕ → ℕ → TransactionError
  invalid_nonce : ℕ → ℕ → TransactionError
  overflow : TransactionError
  insufficient_max_fee : ℕ → ℕ → TransactionError

pub record AccessListItem : Type 0 where
  pub address : Address
  pub storage_keys : List B256

-- The fields of each variant.
pub record LegacyFields : Type 0 where
  pub nonce : ℕ
  pub gas_price : ℕ
  pub gas_limit : ℕ
  pub to : Option Address
  pub value : ℕ
  pub input : Bytes

pub record Eip1559Fields : Type 0 where
  pub nonce : ℕ
  pub max_priority_fee_per_gas : ℕ
  pub max_fee_per_gas : ℕ
  pub gas_limit : ℕ
  pub to : Option Address
  pub value : ℕ
  pub input : Bytes
  pub access_list : List AccessListItem

pub record Eip4844Fields : Type 0 where
  pub nonce : ℕ
  pub max_priority_fee_per_gas : ℕ
  pub max_fee_per_gas : ℕ
  pub max_fee_per_blob_gas : ℕ
  pub gas_limit : ℕ
  pub to : Option Address
  pub value : ℕ
  pub input : Bytes
  pub access_list : List AccessListItem
  pub blob_versioned_hashes : List B256

-- The field `data` of the source is called `input` here.
pub data Transaction : Type 0 where
  legacy : LegacyFields → Transaction
  eip1559 : Eip1559Fields → Transaction
  eip4844 : Eip4844Fields → Transaction

abbrev pub tx_type : Transaction → Result TransactionError ℕ
tx_type (legacy f) = ok 0
tx_type (eip1559 f) = ok 2
tx_type (eip4844 f) = ok 3

-- The fields that every variant has, as the or-patterns of the source bind them.
abbrev pub nonce_of : Transaction → ℕ
nonce_of (legacy f) = f.nonce
nonce_of (eip1559 f) = f.nonce
nonce_of (eip4844 f) = f.nonce

abbrev pub gas_limit_of : Transaction → ℕ
gas_limit_of (legacy f) = f.gas_limit
gas_limit_of (eip1559 f) = f.gas_limit
gas_limit_of (eip4844 f) = f.gas_limit

abbrev pub to_of : Transaction → Option Address
to_of (legacy f) = f.to
to_of (eip1559 f) = f.to
to_of (eip4844 f) = f.to

abbrev pub value_of : Transaction → ℕ
value_of (legacy f) = f.value
value_of (eip1559 f) = f.value
value_of (eip4844 f) = f.value

abbrev pub is_none {ℓ} : {A : Type ℓ} → Option A → Bool
is_none none = true
is_none (some a) = false

abbrev pub is_create : Transaction → Result TransactionError Bool
is_create tx = ok (is_none (to_of tx))

-- The branch of `effective_gas_price` for the variants with a maximal fee.
unfoldable pub capped_gas_price : ℕ → ℕ → ℕ → Result TransactionError ℕ
capped_gas_price max_fee max_priority_fee base_fee = do
  raise_if (ltb max_fee base_fee) (insufficient_max_fee base_fee max_fee)
  addition ← ok_or (checked_add u128_mod base_fee max_priority_fee) overflow
  ok (min max_fee addition)

unfoldable pub effective_gas_price : Transaction → ℕ → Result TransactionError ℕ
unfolding capped_gas_price
effective_gas_price (legacy f) base_fee = ok f.gas_price
effective_gas_price (eip1559 f) base_fee =
    capped_gas_price f.max_fee_per_gas f.max_priority_fee_per_gas base_fee
effective_gas_price (eip4844 f) base_fee =
    capped_gas_price f.max_fee_per_gas f.max_priority_fee_per_gas base_fee

-- The most that a unit of gas can cost: the price that `max_cost` multiplies.
abbrev pub fee_cap_of : Transaction → ℕ
fee_cap_of (legacy f) = f.gas_price
fee_cap_of (eip1559 f) = f.max_fee_per_gas
fee_cap_of (eip4844 f) = f.max_fee_per_gas

unfoldable pub max_cost : Transaction → Result TransactionError ℕ
max_cost tx = do
  multiplication ← ok_or (checked_mul u128_mod (fee_cap_of tx) (gas_limit_of tx)) overflow
  ok_or (checked_add u128_mod multiplication (value_of tx)) overflow

pub record TransactionSummary : Type 0 where
  pub total_value : ℕ
  pub total_gas_limit : ℕ
  pub create_count : ℕ
  pub tx_count : ℕ

-- The loop of `summarise_transactions`, from the totals so far.
unfoldable pub summarise_from :
    ℕ → ℕ → ℕ → ℕ → List Transaction → Result TransactionError TransactionSummary
summarise_from value gas creates count [] = ok (record {
  total_value = value;
  total_gas_limit = gas;
  create_count = creates;
  tx_count = count;
})
summarise_from value gas creates count (tx ∷ txs) = do
  value' ← ok_or (checked_add u128_mod (value_of tx) value) overflow
  gas' ← ok_or (checked_add u64_mod (gas_limit_of tx) gas) overflow
  create ← is_create tx
  summarise_from value' gas' (if create then creates + 1 else creates) count txs

unfoldable pub summarise_transactions :
    List Transaction → Result TransactionError TransactionSummary
unfolding summarise_from
summarise_transactions txs = summarise_from 0 0 0 (length txs) txs

pub record SignedTransaction : Type 0 where
  pub transaction : Transaction
  pub v : ℕ
  pub r : B256
  pub s : B256

pub record Block : Type 0 where
  pub header : Header
  pub transactions : List SignedTransaction
