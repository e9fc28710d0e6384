-- ===== src/Types/Primitives.antt =====
-- core/types/src: addresses, hashes, blooms (macros.rs), accounts, headers and chain heads. A fixed
-- array of bytes is the list of its bytes, whose length is part of `IsArray`.
use rust_eth_playground.Prelude.{
  ℕ, ◌≡◌, ◌<◌, ◌^◌, [], ◌∷◌, ◌==◌, Bytes, length, replicate, All, IsByte, Result, ok, raise_if,
  ◌>>◌, not,
}

abbrev pub Address : Type 0
Address = Bytes

abbrev pub B256 : Type 0
B256 = Bytes

abbrev pub Bloom : Type 0
Bloom = Bytes

-- The values of `[u8; n]`.
abbrev pub IsArray : ℕ → Bytes → Type 0
IsArray n b = (length b ≡ n) × All IsByte b

abbrev pub zero_array : ℕ → Bytes
zero_array n = replicate n 0

-- The variant `BitOutOfRange` is of the bits of a bloom.
pub data ParseError : Type 0 where
  wrong_length : ℕ → ℕ → ParseError
  invalid_hex : ℕ → ℕ → ParseError
  odd_hex_length : ℕ → ParseError

-- `TryFrom<&[u8]>` of the three byte-array types.
abbrev pub try_from : ℕ → Bytes → Result ParseError Bytes
try_from size value =
    raise_if (not (length value == size)) (wrong_length size (length value)) >> ok value

pub record Account : Type 0 where
  pub balance : ℕ
  pub nonce : ℕ
  pub code_hash : B256

-- The hash of no code, of `impl Default for Account`.
abbrev pub empty_code_hash : B256
empty_code_hash =
    0xc5 ∷ 0xd2 ∷ 0x46 ∷ 0x01 ∷ 0x86 ∷ 0xf7 ∷ 0x23 ∷ 0x3c ∷ 0x92 ∷ 0x7e ∷ 0x7d ∷ 0xb2 ∷ 0xdc ∷ 0xc7
    ∷ 0x03 ∷ 0xc0 ∷ 0xe5 ∷ 0x00 ∷ 0xb6 ∷ 0x53 ∷ 0xca ∷ 0x82 ∷ 0x27 ∷ 0x3b ∷ 0x7b ∷ 0xfa ∷ 0xd8
    ∷ 0x04 ∷ 0x5d ∷ 0x85 ∷ 0xa4 ∷ 0x70 ∷ []

abbrev pub default_account : Account
default_account = record { balance = 0; nonce = 0; code_hash = empty_code_hash }

pub record Header : Type 0 where
  pub parent_hash : B256
  pub beneficiary : Address
  pub state_root : B256
  pub transactions_root : B256
  pub gas_limit : ℕ
  pub gas_used : ℕ
  pub timestamp : ℕ
  pub number : ℕ

pub record ChainHead : Type 0 where
  pub number : ℕ
  pub hash : B256
  pub total_difficulty : ℕ

-- The values of the Rust types.
pub record IsAccount (a : Account) : Type 0 where
  pub balance_fits : a.balance < 2 ^ 128
  pub nonce_fits : a.nonce < 2 ^ 64
  pub code_hash_array : IsArray 32 a.code_hash

pub record IsHeader (h : Header) : Type 0 where
  pub parent_hash_array : IsArray 32 h.parent_hash
  pub beneficiary_array : IsArray 20 h.beneficiary
  pub state_root_array : IsArray 32 h.state_root
  pub transactions_root_array : IsArray 32 h.transactions_root
  pub gas_limit_fits : h.gas_limit < 2 ^ 64
  pub gas_used_fits : h.gas_used < 2 ^ 64
  pub timestamp_fits : h.timestamp < 2 ^ 64
  pub number_fits : h.number < 2 ^ 64
