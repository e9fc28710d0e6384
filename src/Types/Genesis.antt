-- ===== src/Types/Genesis.antt =====
-- core/types/src/genesis.rs and constant.rs: the header of the genesis block.
use rust_eth_playground.Prelude.{ℕ, List}
use rust_eth_playground.Types.Primitives.{Address, B256, Header, zero_array}

-- `GAS_LIMIT_PER_BLOCK`.
abbrev pub gas_limit_per_block : ℕ
gas_limit_per_block = 30000000

pub record GenesisAccount : Type 0 where
  pub address : Address
  pub balance : ℕ

pub record GenesisConfig : Type 0 where
  pub chain_id : ℕ
  pub accounts : List GenesisAccount
  pub genesis_timestamp : ℕ

unfoldable pub genesis_header : GenesisConfig → Header
genesis_header config = record {
  parent_hash = zero_array 32;
  beneficiary = zero_array 20;
  state_root = zero_array 32;
  transactions_root = zero_array 32;
  gas_limit = gas_limit_per_block;
  gas_used = 0;
  timestamp = config.genesis_timestamp;
  number = 0;
}

unfoldable pub genesis_header_with_state_root : GenesisConfig → B256 → Header
genesis_header_with_state_root config state_root = record (genesis_header config) {
  state_root = state_root;
}
