-- ===== src/Examples/Data.antt =====
-- Test data: a hash that shows the length of its input, two accounts, and a block on a genesis.
use rust_eth_playground.Prelude.{◌%◌, [], ◌∷◌, none, some, Bytes, length, replicate, true}
use rust_eth_playground.Types.Primitives.{Address, B256, Account, ChainHead, zero_array}
use rust_eth_playground.Types.Transaction.{
  LegacyFields, Eip1559Fields, legacy, SignedTransaction, Block,
}
use rust_eth_playground.Signing.{Crypto}
use rust_eth_playground.Signing.Total.{header_hash}
use rust_eth_playground.Execution.Provider.{InMemoryProvider}
use rust_eth_playground.Execution.Executor.{ExecutionOutput, make_receipt, BlockWithSenders}

abbrev pub length_hash : Bytes → B256
length_hash m = length m % 256 ∷ replicate 31 7

abbrev pub crypto : Crypto
crypto = record {
  keccak256 = length_hash;
  is_signature = λ _. true;
  recover_from_prehash = λ _ _ _. some (4 ∷ replicate 64 1);
}

-- The address that `recover_sender` finds with that hash: its last twenty bytes.
abbrev pub alice : Address
alice = replicate 20 7

abbrev pub bob : Address
bob = replicate 20 9

abbrev pub alice_account : Account
alice_account = record { balance = 1000; nonce = 0; code_hash = zero_array 32 }

abbrev pub genesis : Block
genesis = record {
  header = record {
    parent_hash = zero_array 32;
    beneficiary = zero_array 20;
    state_root = zero_array 32;
    transactions_root = zero_array 32;
    gas_limit = 10;
    gas_used = 0;
    timestamp = 5;
    number = 0;
  };
  transactions = [];
}

abbrev pub transfer_fields : LegacyFields
transfer_fields = record {
  nonce = 0;
  gas_price = 8;
  gas_limit = 21;
  to = some bob;
  value = 100;
  input = [];
}

abbrev pub transfer : SignedTransaction
transfer = record {
  transaction = legacy transfer_fields;
  v = 37;
  r = replicate 32 1;
  s = replicate 32 2;
}

abbrev pub typed_fields : Eip1559Fields
typed_fields = record {
  nonce = 300;
  max_priority_fee_per_gas = 2;
  max_fee_per_gas = 9;
  gas_limit = 21000;
  to = none;
  value = 0;
  input = 1 ∷ 2 ∷ [];
  access_list = record { address = bob; storage_keys = zero_array 32 ∷ [] } ∷ [];
}

abbrev pub child : Block
child = record {
  header = record {
    parent_hash = header_hash crypto (genesis.header);
    beneficiary = zero_array 20;
    state_root = zero_array 32;
    transactions_root = zero_array 32;
    gas_limit = 10;
    gas_used = 3;
    timestamp = 6;
    number = 1;
  };
  transactions = transfer ∷ [];
}

-- A child of the genesis whose gas is over its limit.
abbrev pub greedy : Block
greedy = record { header = record (child.header) { gas_used = 11 }; transactions = [] }

abbrev pub child_with_senders : BlockWithSenders
child_with_senders = record { block = child; senders = alice ∷ [] }

-- The same transfer twice, so that the second one has a wrong nonce.
abbrev pub twice_with_senders : BlockWithSenders
twice_with_senders = record {
  block = record { header = child.header; transactions = transfer ∷ transfer ∷ [] };
  senders = alice ∷ alice ∷ [];
}

abbrev pub genesis_head : ChainHead
genesis_head = record {
  number = 0;
  hash = header_hash crypto (genesis.header);
  total_difficulty = 0;
}

-- A provider with the genesis and one account.
abbrev pub provider : InMemoryProvider
provider = record {
  blocks = (0, genesis) ∷ [];
  blocks_by_hash = (header_hash crypto (genesis.header), 0) ∷ [];
  transactions = [];
  receipts = [];
  state = (alice, alice_account) ∷ [];
  storage = [];
  journal = none;
}

-- What the execution of the child gives.
abbrev pub output : ExecutionOutput
output = record {
  gas_used = 21;
  receipts =
      make_receipt (header_hash crypto (child.header)) 1 0 (length_hash (replicate 95 0)) 21
        transfer alice 8
      ∷ [];
  logs_bloom = zero_array 256;
  state_root = length_hash (replicate 35 0);
}
