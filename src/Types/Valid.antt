-- ===== src/Types/Valid.antt =====
-- core/types: which records of the model are values of the Rust types: integers within their
-- width, and byte arrays of their length.
use rust_eth_playground.Prelude.{◌<◌, ◌^◌, Option, none, some, All}
use rust_eth_playground.Types.Primitives.{Address, IsArray, IsHeader}
use rust_eth_playground.Types.Transaction.{
  AccessListItem, LegacyFields, Eip1559Fields, Eip4844Fields, Transaction, legacy, eip1559, eip4844,
  SignedTransaction, Block,
}

abbrev pub IsAccessListItem : AccessListItem → Type 0
IsAccessListItem a = IsArray 20 a.address × All (IsArray 32) a.storage_keys

abbrev pub IsRecipient : Option Address → Type 0
IsRecipient none = Unit
IsRecipient (some a) = IsArray 20 a

pub record IsLegacy (f : LegacyFields) : Type 0 where
  pub nonce_fits : f.nonce < 2 ^ 64
  pub gas_price_fits : f.gas_price < 2 ^ 128
  pub gas_limit_fits : f.gas_limit < 2 ^ 64
  pub to_array : IsRecipient f.to
  pub value_fits : f.value < 2 ^ 128

pub record IsEip1559 (f : Eip1559Fields) : Type 0 where
  pub nonce_fits : f.nonce < 2 ^ 64
  pub max_priority_fee_fits : f.max_priority_fee_per_gas < 2 ^ 128
  pub max_fee_fits : f.max_fee_per_gas < 2 ^ 128
  pub gas_limit_fits : f.gas_limit < 2 ^ 64
  pub to_array : IsRecipient f.to
  pub value_fits : f.value < 2 ^ 128
  pub access_list_valid : All IsAccessListItem f.access_list

pub record IsEip4844 (f : Eip4844Fields) : Type 0 where
  pub nonce_fits : f.nonce < 2 ^ 64
  pub max_priority_fee_fits : f.max_priority_fee_per_gas < 2 ^ 128
  pub max_fee_fits : f.max_fee_per_gas < 2 ^ 128
  pub max_blob_fee_fits : f.max_fee_per_blob_gas < 2 ^ 128
  pub gas_limit_fits : f.gas_limit < 2 ^ 64
  pub to_array : IsRecipient f.to
  pub value_fits : f.value < 2 ^ 128
  pub access_list_valid : All IsAccessListItem f.access_list
  pub hashes_valid : All (IsArray 32) f.blob_versioned_hashes

abbrev pub IsTransaction : Transaction → Type 0
IsTransaction (legacy f) = IsLegacy f
IsTransaction (eip1559 f) = IsEip1559 f
IsTransaction (eip4844 f) = IsEip4844 f

pub record IsSignedTransaction (t : SignedTransaction) : Type 0 where
  pub transaction_valid : IsTransaction t.transaction
  pub v_fits : t.v < 2 ^ 64
  pub r_array : IsArray 32 t.r
  pub s_array : IsArray 32 t.s

pub record IsBlock (b : Block) : Type 0 where
  pub header_valid : IsHeader b.header
  pub transactions_valid : All IsSignedTransaction b.transactions
