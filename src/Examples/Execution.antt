-- ===== src/Examples/Execution.antt =====
-- The theorems on execution at a transfer from one account to another.
use rust_eth_playground.Prelude.{
  ◌≢◌, ◌≤◌, ◌^◌, panic, none, ℕ, ◌+◌, ◌≡◌, refl, List, [], ◌∷◌, Bytes, ok, err, arith, get,
  replicate, nat_eq, bytes_eq, insert,
}
use rust_eth_playground.Prelude.Action.{◌>>=◌, lift, reads, modify}
use rust_eth_playground.Types.Transaction.{
  SignedTransaction, legacy, max_cost, effective_gas_price, capped_gas_price,
}
use rust_eth_playground.Signing.Total.{header_hash}
use rust_eth_playground.Execution.Types.{overflow, underflow, invalid_nonce}
use rust_eth_playground.Execution.Provider.{
  get_account, set_account, journal_account, InMemoryProvider, insert_block, get_block_by_hash,
  get_block_by_number,
}
use rust_eth_playground.Execution.Validator.{strict_validator, strict_validate_header}
use rust_eth_playground.Execution.Executor.{
  charge, execute_transactions, execute_transaction, credit, no_progress, ExecutionOutput, execute,
  make_receipt,
}
use rust_eth_playground.Execution.Pipeline.{pipeline_execute}
use rust_eth_playground.Execution.Journal.{SameProvider}
use rust_eth_playground.Execution.Atomic.{value_transfers, pipeline_execute_atomic}
use rust_eth_playground.Execution.Balances.{total_balance, fees, gas_of, execute_conserves}
use rust_eth_playground.Execution.Accept.{Follows, strict_validate_header_iff}
use rust_eth_playground.Execution.Charge.{charge_safe}
use rust_eth_playground.Execution.Insert.{
  Inserted, insert_block-Inserted, get_block_by_hash-insert_block,
}
use rust_eth_playground.Examples.Data.{
  output, alice_account, transfer_fields, crypto, length_hash, alice, genesis, transfer, child,
  child_with_senders, twice_with_senders, provider,
}

executed : (execute crypto child_with_senders provider).0 ≡ ok output
unfolding execute ◌>>=◌ lift reads modify get insert rust_eth_playground.Signing.hash_header
    rust_eth_playground.Rlp.Encoder.encode rust_eth_playground.Codec.Blocks.header_to_item
    rust_eth_playground.Codec.Scalars.array_to_item rust_eth_playground.Codec.Scalars.uint_to_item
    rust_eth_playground.Codec.Scalars.vec_to_item
    rust_eth_playground.Codec.Transactions.access_list_item_to_item
    rust_eth_playground.Codec.Transactions.to_item rust_eth_playground.Rlp.BigEndian.strip_zeros
    rust_eth_playground.Rlp.BigEndian.to_be rust_eth_playground.Rlp.Encoder.add_rlp_list_prefix
    rust_eth_playground.Rlp.Encoder.encode_bytes rust_eth_playground.Rlp.Encoder.encode_length
    rust_eth_playground.Rlp.Encoder.encode_length_loop rust_eth_playground.Rlp.Layout.rlp
    rust_eth_playground.Rlp.Layout.header rust_eth_playground.Rlp.BigEndian.minimal_be
    rust_eth_playground.Execution.Executor.execute_transactions
    rust_eth_playground.Execution.Executor.execute_transaction
    rust_eth_playground.Execution.Provider.get_account rust_eth_playground.Execution.Executor.charge
    rust_eth_playground.Types.Transaction.max_cost
    rust_eth_playground.Types.Transaction.effective_gas_price
    rust_eth_playground.Types.Transaction.capped_gas_price
    rust_eth_playground.Execution.Executor.credit rust_eth_playground.Execution.Executor.add_receipt
    rust_eth_playground.Execution.Executor.compute_state_root
    rust_eth_playground.Execution.Executor.insert_accounts
    rust_eth_playground.Execution.Provider.journal_account
    rust_eth_playground.Execution.Provider.set_account rust_eth_playground.Signing.eip1559_payload
    rust_eth_playground.Signing.eip4844_payload rust_eth_playground.Signing.encode_typed
    rust_eth_playground.Signing.legacy_payload rust_eth_playground.Signing.legacy_to_wire
    rust_eth_playground.Signing.signed_transaction_hash rust_eth_playground.Signing.to_wire
    rust_eth_playground.Signing.typed_to_wire rust_eth_playground.Trie.Hash.encode_extension
    rust_eth_playground.Trie.Hash.encode_node rust_eth_playground.Trie.Hash.hp_encode
    rust_eth_playground.Trie.Hash.hp_encode_odd rust_eth_playground.Trie.Hash.node_ref
    rust_eth_playground.Trie.Hash.pack_pairs rust_eth_playground.Trie.Hash.put_child
    rust_eth_playground.Trie.Hash.put_value rust_eth_playground.Trie.Hash.root_hash
    rust_eth_playground.Trie.Node.bytes_to_nibbles rust_eth_playground.Trie.Node.insert_into_leaf
    rust_eth_playground.Trie.Node.insert_node rust_eth_playground.Trie.Node.put_leaf
    rust_eth_playground.Trie.Node.recursive_insert rust_eth_playground.Trie.Node.set_child
    rust_eth_playground.Trie.Node.shared_prefix_len rust_eth_playground.Trie.Node.split_extension
    rust_eth_playground.Trie.Node.split_leaf rust_eth_playground.Trie.Node.trie_insert
executed = refl

execute_conserves_example :
    (total_balance (execute crypto child_with_senders provider).1.state + fees output.receipts
      ≡ total_balance provider.state)
    × (output.gas_used ≡ gas_of output.receipts)
execute_conserves_example = execute_conserves crypto child_with_senders provider output executed

refused :
    (pipeline_execute
      (value_transfers crypto (strict_validator crypto 100))
      twice_with_senders
      provider).0
    ≡ err (invalid_nonce alice 1 0)
unfolding pipeline_execute execute ◌>>=◌ lift reads modify get insert
    rust_eth_playground.Signing.hash_header rust_eth_playground.Rlp.Encoder.encode
    rust_eth_playground.Codec.Blocks.header_to_item rust_eth_playground.Codec.Scalars.array_to_item
    rust_eth_playground.Codec.Scalars.uint_to_item rust_eth_playground.Codec.Scalars.vec_to_item
    rust_eth_playground.Codec.Transactions.access_list_item_to_item
    rust_eth_playground.Codec.Transactions.to_item rust_eth_playground.Rlp.BigEndian.strip_zeros
    rust_eth_playground.Rlp.BigEndian.to_be rust_eth_playground.Rlp.Encoder.add_rlp_list_prefix
    rust_eth_playground.Rlp.Encoder.encode_bytes rust_eth_playground.Rlp.Encoder.encode_length
    rust_eth_playground.Rlp.Encoder.encode_length_loop rust_eth_playground.Rlp.Layout.rlp
    rust_eth_playground.Rlp.Layout.header rust_eth_playground.Rlp.BigEndian.minimal_be
    rust_eth_playground.Execution.Executor.execute_transactions
    rust_eth_playground.Execution.Executor.execute_transaction
    rust_eth_playground.Execution.Provider.get_account rust_eth_playground.Execution.Executor.charge
    rust_eth_playground.Types.Transaction.max_cost
    rust_eth_playground.Types.Transaction.effective_gas_price
    rust_eth_playground.Types.Transaction.capped_gas_price
    rust_eth_playground.Execution.Executor.credit rust_eth_playground.Execution.Executor.add_receipt
    rust_eth_playground.Execution.Executor.compute_state_root
    rust_eth_playground.Execution.Executor.insert_accounts
    rust_eth_playground.Execution.Provider.journal_account
    rust_eth_playground.Execution.Provider.set_account rust_eth_playground.Signing.eip1559_payload
    rust_eth_playground.Signing.eip4844_payload rust_eth_playground.Signing.encode_typed
    rust_eth_playground.Signing.legacy_payload rust_eth_playground.Signing.legacy_to_wire
    rust_eth_playground.Signing.signed_transaction_hash rust_eth_playground.Signing.to_wire
    rust_eth_playground.Signing.typed_to_wire rust_eth_playground.Trie.Hash.encode_extension
    rust_eth_playground.Trie.Hash.encode_node rust_eth_playground.Trie.Hash.hp_encode
    rust_eth_playground.Trie.Hash.hp_encode_odd rust_eth_playground.Trie.Hash.node_ref
    rust_eth_playground.Trie.Hash.pack_pairs rust_eth_playground.Trie.Hash.put_child
    rust_eth_playground.Trie.Hash.put_value rust_eth_playground.Trie.Hash.root_hash
    rust_eth_playground.Trie.Node.bytes_to_nibbles rust_eth_playground.Trie.Node.insert_into_leaf
    rust_eth_playground.Trie.Node.insert_node rust_eth_playground.Trie.Node.put_leaf
    rust_eth_playground.Trie.Node.recursive_insert rust_eth_playground.Trie.Node.set_child
    rust_eth_playground.Trie.Node.shared_prefix_len rust_eth_playground.Trie.Node.split_extension
    rust_eth_playground.Trie.Node.split_leaf rust_eth_playground.Trie.Node.trie_insert
    rust_eth_playground.Execution.Provider.get_header_by_hash
    rust_eth_playground.Execution.Provider.get_header_by_number
    rust_eth_playground.Execution.Validator.strict_validate_header
    rust_eth_playground.Execution.Provider.begin_journal
    rust_eth_playground.Execution.Provider.commit_journal
    rust_eth_playground.Execution.Provider.restore
    rust_eth_playground.Execution.Provider.rollback_journal rust_eth_playground.Prelude.remove
    rust_eth_playground.Execution.Validator.validate_body_length
refused = refl

pipeline_execute_atomic_example :
    SameProvider provider
      (pipeline_execute
        (value_transfers crypto (strict_validator crypto 100))
        twice_with_senders
        provider).1
pipeline_execute_atomic_example =
    pipeline_execute_atomic crypto (strict_validator crypto 100) twice_with_senders provider
      (invalid_nonce alice 1 0) refused

strict_validate_header_iff_example :
    (strict_validate_header crypto child.header genesis.header ≡ ok tt
      → Follows crypto child.header genesis.header)
    × (Follows crypto child.header genesis.header
        → strict_validate_header crypto child.header genesis.header ≡ ok tt)
strict_validate_header_iff_example =
    strict_validate_header_iff crypto (child.header) (genesis.header)

insert_block-Inserted_example :
    (q : InMemoryProvider) × (insert_block crypto child provider ≡ (ok tt, q))
    × Inserted crypto child provider q
insert_block-Inserted_example = insert_block-Inserted crypto child provider

get_block_by_hash-insert_block_example :
    (get_block_by_hash (header_hash crypto child.header) (insert_block crypto child provider).1
      ≡ ok child)
    × (get_block_by_number 1 (insert_block crypto child provider).1 ≡ ok child)
get_block_by_hash-insert_block_example = get_block_by_hash-insert_block crypto child provider

-- The transfer without its recipient.
abbrev creation : SignedTransaction
creation = record transfer { transaction = legacy (record transfer_fields { to = none }) }

-- A block with such a transaction ends in a panic.
creation_panics :
    (execute_transactions crypto
      (length_hash [])
      1
      5
      0
      (creation ∷ [])
      (alice ∷ [])
      no_progress
      provider).0
    ≡ panic
unfolding execute_transactions execute_transaction credit lift reads modify ◌>>=◌ charge max_cost
    effective_gas_price capped_gas_price get_account get set_account journal_account
creation_panics = refl

charge_safe_example :
    (charge 5 transfer.transaction alice alice_account ≢ err underflow)
    × (charge 5 transfer.transaction alice alice_account ≡ err overflow → 2 ^ 64 ≤ 0 + 1)
charge_safe_example = charge_safe 5 (transfer.transaction) alice alice_account
