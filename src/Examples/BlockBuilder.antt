-- ===== src/Examples/BlockBuilder.antt =====
-- The theorems on the block builder at two blocks of one transfer each.
use rust_eth_playground.Prelude.{
  ◌≡◌, refl, sym, ap, subst, [], ◌∷◌, replicate, ok, arith, get, bytes_eq,
}
use rust_eth_playground.Prelude.Ends.{Ends}
use rust_eth_playground.Types.Primitives.{zero_array}
use rust_eth_playground.Types.Transaction.{SignedTransaction, Block}
use rust_eth_playground.Signing.Total.{header_hash}
use rust_eth_playground.Execution.Validator.{strict_validate_header}
use rust_eth_playground.BlockBuilder.{
  TransactionSpec, BlockSpec, AccountSnapshot, BlockBuilder, transfer_of, header_on, move_head,
  generate_block,
}
use rust_eth_playground.BlockBuilder.Follows.{generate_block_twice}
use rust_eth_playground.Examples.Data.{crypto, alice, bob}
use rust_eth_playground.Examples.Signing.{keys}

abbrev builder : BlockBuilder
builder = record {
  state = record {
    signing_keys = replicate 32 5 ∷ [];
    current_number = 0;
    current_hash = zero_array 32;
    genesis_timestamp = 5;
    current_timestamp = 5;
    chain_id = 1;
  };
  genesis_gas_limit = 50;
}

abbrev payment : TransactionSpec
payment = record { sender_index = 0; recipient = bob; value = 100; gas_limit = 21 }

abbrev payments : BlockSpec
payments = record { transactions = payment ∷ [] }

abbrev before : AccountSnapshot
before = record { address = alice; nonce = 0; balance = 100000000000 }

abbrev between : AccountSnapshot
between = record { address = alice; nonce = 1; balance = 70000000000 }

abbrev paid : AccountSnapshot → SignedTransaction
paid snapshot = record {
  transaction = transfer_of payment snapshot;
  v = 37;
  r = replicate 32 3;
  s = replicate 32 3;
}

abbrev first_block : Block
first_block = record { header = header_on builder 21 1 17; transactions = paid before ∷ [] }

abbrev moved : BlockBuilder
moved = move_head 1 (header_hash crypto first_block.header) 17 builder

abbrev second_block : Block
second_block = record { header = header_on moved 21 2 29; transactions = paid between ∷ [] }

first_made :
    generate_block crypto keys payments ((alice, before) ∷ []) builder ≡ (ok first_block, moved)
unfolding rust_eth_playground.Signing.hash_header rust_eth_playground.Rlp.Encoder.encode
    rust_eth_playground.Codec.Blocks.header_to_item rust_eth_playground.Codec.Scalars.array_to_item
    rust_eth_playground.Codec.Scalars.uint_to_item rust_eth_playground.Codec.Scalars.vec_to_item
    rust_eth_playground.Codec.Transactions.access_list_item_to_item
    rust_eth_playground.Codec.Transactions.to_item rust_eth_playground.Rlp.BigEndian.strip_zeros
    rust_eth_playground.Rlp.BigEndian.to_be rust_eth_playground.Rlp.Encoder.add_rlp_list_prefix
    rust_eth_playground.Rlp.Encoder.encode_bytes rust_eth_playground.Rlp.Encoder.encode_length
    rust_eth_playground.Rlp.Encoder.encode_length_loop rust_eth_playground.Rlp.Layout.rlp
    rust_eth_playground.Rlp.Layout.header rust_eth_playground.Rlp.BigEndian.minimal_be
    rust_eth_playground.Signing.legacy_payload rust_eth_playground.Signing.eip1559_payload
    rust_eth_playground.Signing.eip4844_payload rust_eth_playground.Signing.encode_typed
    rust_eth_playground.Signing.signing_payload rust_eth_playground.Signing.legacy_to_encoded_bytes
    rust_eth_playground.Signing.typed_to_encoded_bytes rust_eth_playground.Signing.recovery_id_of
    rust_eth_playground.Signing.recover_sender rust_eth_playground.Signing.Sign.v_of
    rust_eth_playground.Signing.Sign.sign rust_eth_playground.Types.Transaction.max_cost
    rust_eth_playground.BlockBuilder.timestamp_of rust_eth_playground.BlockBuilder.sender_address
    rust_eth_playground.BlockBuilder.build_signed_transaction
    rust_eth_playground.BlockBuilder.build_transactions rust_eth_playground.BlockBuilder.next_block
    rust_eth_playground.BlockBuilder.generate_block get
first_made = refl

second_made :
    (generate_block crypto keys payments ((alice, between) ∷ []) moved).0 ≡ ok second_block
unfolding rust_eth_playground.Signing.hash_header rust_eth_playground.Rlp.Encoder.encode
    rust_eth_playground.Codec.Blocks.header_to_item rust_eth_playground.Codec.Scalars.array_to_item
    rust_eth_playground.Codec.Scalars.uint_to_item rust_eth_playground.Codec.Scalars.vec_to_item
    rust_eth_playground.Codec.Transactions.access_list_item_to_item
    rust_eth_playground.Codec.Transactions.to_item rust_eth_playground.Rlp.BigEndian.strip_zeros
    rust_eth_playground.Rlp.BigEndian.to_be rust_eth_playground.Rlp.Encoder.add_rlp_list_prefix
    rust_eth_playground.Rlp.Encoder.encode_bytes rust_eth_playground.Rlp.Encoder.encode_length
    rust_eth_playground.Rlp.Encoder.encode_length_loop rust_eth_playground.Rlp.Layout.rlp
    rust_eth_playground.Rlp.Layout.header rust_eth_playground.Rlp.BigEndian.minimal_be
    rust_eth_playground.Signing.legacy_payload rust_eth_playground.Signing.eip1559_payload
    rust_eth_playground.Signing.eip4844_payload rust_eth_playground.Signing.encode_typed
    rust_eth_playground.Signing.signing_payload rust_eth_playground.Signing.legacy_to_encoded_bytes
    rust_eth_playground.Signing.typed_to_encoded_bytes rust_eth_playground.Signing.recovery_id_of
    rust_eth_playground.Signing.recover_sender rust_eth_playground.Signing.Sign.v_of
    rust_eth_playground.Signing.Sign.sign rust_eth_playground.Types.Transaction.max_cost
    rust_eth_playground.BlockBuilder.timestamp_of rust_eth_playground.BlockBuilder.sender_address
    rust_eth_playground.BlockBuilder.build_signed_transaction
    rust_eth_playground.BlockBuilder.build_transactions rust_eth_playground.BlockBuilder.next_block
    rust_eth_playground.BlockBuilder.generate_block get
second_made = refl

generate_block_twice_example :
    strict_validate_header crypto second_block.header first_block.header ≡ ok tt
generate_block_twice_example =
    generate_block_twice crypto keys payments payments ((alice, before) ∷ [])
      ((alice, between) ∷ []) builder first_block second_block (ap (λ r. r.0) first_made)
      (subst
        (λ b. (generate_block crypto keys payments ((alice, between) ∷ []) b).0 ≡ ok second_block)
        (sym (ap (λ r. r.1) first_made)) second_made)
      (omega arith)
