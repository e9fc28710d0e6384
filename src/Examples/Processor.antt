-- ===== src/Examples/Processor.antt =====
-- The theorems on the block processor at a genesis and a child of it with one transfer.
use rust_eth_playground.Prelude.{
  ℕ, ◌≡◌, ◌≤◌, refl, subst, sym, ◌∙◌, List, [], ◌∷◌, ok, err, arith, get, insert, nat_eq, bytes_eq,
  ok-injective, length, All,
}
use rust_eth_playground.Prelude.Action.{◌>>=◌, lift, reads, modify}
use rust_eth_playground.Types.Primitives.{default_account}
use rust_eth_playground.Execution.Types.{gas_limit_exceeded}
use rust_eth_playground.Execution.Provider.{get_block_by_hash}
use rust_eth_playground.Execution.Pipeline.{pipeline_execute}
use rust_eth_playground.Processor.Accepts.{process_block_accepts}
use rust_eth_playground.Processor.State.{BlockProcessor, execution, zero_metrics, new_processor}
use rust_eth_playground.Processor.Process.{
  build_block_with_senders, node_pipeline, process_block, drain,
}
use rust_eth_playground.Processor.Steps.{Rejected, Committed}
use rust_eth_playground.Processor.Chain.{process_block_rejects, process_block_commits}
use rust_eth_playground.Processor.Creations.{process_block-HasRecipient}
use rust_eth_playground.Execution.Create.{HasRecipient}
use rust_eth_playground.Processor.Valid.{IsValid, IsQueued}
use rust_eth_playground.Processor.Run.{
  ProcessorMessage, new_block, get_account_state, shutdown, Answers, run,
}
use rust_eth_playground.Processor.Safety.{IsResult, run_keeps_chain}
use rust_eth_playground.Processor.Rounds.{drain_enough}
use rust_eth_playground.Processor.New.{new_processor-IsValid}
use rust_eth_playground.Examples.Data.{
  output, child_with_senders, crypto, alice, bob, alice_account, genesis, genesis_head, child,
  greedy, provider,
}

abbrev pub started : BlockProcessor
started = record {
  pending_map = [];
  chain_id = 1;
  chain_head = genesis_head;
  provider = provider;
  accounts = (alice, alice_account) ∷ [];
  shared_head = genesis_head;
  metrics = zero_metrics;
}

-- The same with the child in its queue.
abbrev queued : BlockProcessor
queued = record started { pending_map = (1, record { block = child; peer_id = 7 }) ∷ [] }

new_started : new_processor crypto genesis ((alice, alice_account) ∷ []) 1 genesis_head ≡ ok started
unfolding ◌>>=◌ lift reads modify get insert rust_eth_playground.Signing.hash_header
    rust_eth_playground.Rlp.Encoder.encode rust_eth_playground.Codec.Blocks.header_to_item
    rust_eth_playground.Codec.Scalars.array_to_item rust_eth_playground.Codec.Scalars.uint_to_item
    rust_eth_playground.Codec.Scalars.vec_to_item
    rust_eth_playground.Codec.Transactions.access_list_item_to_item
    rust_eth_playground.Codec.Transactions.to_item rust_eth_playground.Rlp.BigEndian.strip_zeros
    rust_eth_playground.Rlp.BigEndian.to_be rust_eth_playground.Rlp.Encoder.add_rlp_list_prefix
    rust_eth_playground.Rlp.Encoder.encode_bytes rust_eth_playground.Rlp.Encoder.encode_length
    rust_eth_playground.Rlp.Encoder.encode_length_loop rust_eth_playground.Rlp.Layout.rlp
    rust_eth_playground.Rlp.Layout.header rust_eth_playground.Rlp.BigEndian.minimal_be
    rust_eth_playground.Execution.Executor.execute_transactions
    rust_eth_playground.Execution.Executor.execute_transaction
    rust_eth_playground.Execution.Provider.get_account rust_eth_playground.Execution.Executor.charge
    rust_eth_playground.Types.Transaction.max_cost
    rust_eth_playground.Types.Transaction.effective_gas_price
    rust_eth_playground.Types.Transaction.capped_gas_price
    rust_eth_playground.Execution.Executor.credit rust_eth_playground.Execution.Executor.add_receipt
    rust_eth_playground.Execution.Executor.compute_state_root
    rust_eth_playground.Execution.Executor.insert_accounts
    rust_eth_playground.Execution.Provider.journal_account
    rust_eth_playground.Execution.Provider.set_account rust_eth_playground.Signing.eip1559_payload
    rust_eth_playground.Signing.eip4844_payload rust_eth_playground.Signing.encode_typed
    rust_eth_playground.Signing.legacy_payload rust_eth_playground.Signing.legacy_to_wire
    rust_eth_playground.Signing.signed_transaction_hash rust_eth_playground.Signing.to_wire
    rust_eth_playground.Signing.typed_to_wire rust_eth_playground.Trie.Hash.encode_extension
    rust_eth_playground.Trie.Hash.encode_node rust_eth_playground.Trie.Hash.hp_encode
    rust_eth_playground.Trie.Hash.hp_encode_odd rust_eth_playground.Trie.Hash.node_ref
    rust_eth_playground.Trie.Hash.pack_pairs rust_eth_playground.Trie.Hash.put_child
    rust_eth_playground.Trie.Hash.put_value rust_eth_playground.Trie.Hash.root_hash
    rust_eth_playground.Trie.Node.bytes_to_nibbles rust_eth_playground.Trie.Node.insert_into_leaf
    rust_eth_playground.Trie.Node.insert_node rust_eth_playground.Trie.Node.put_leaf
    rust_eth_playground.Trie.Node.recursive_insert rust_eth_playground.Trie.Node.set_child
    rust_eth_playground.Trie.Node.shared_prefix_len rust_eth_playground.Trie.Node.split_extension
    rust_eth_playground.Trie.Node.split_leaf rust_eth_playground.Trie.Node.trie_insert
    rust_eth_playground.Execution.Provider.get_header_by_hash
    rust_eth_playground.Execution.Provider.get_header_by_number
    rust_eth_playground.Execution.Validator.strict_validate_header
    rust_eth_playground.Execution.Provider.begin_journal
    rust_eth_playground.Execution.Provider.commit_journal
    rust_eth_playground.Execution.Provider.restore
    rust_eth_playground.Execution.Provider.rollback_journal rust_eth_playground.Prelude.remove
    rust_eth_playground.Processor.Process.reject_if rust_eth_playground.Processor.Process.reject
    rust_eth_playground.Processor.Process.find_parent
    rust_eth_playground.Processor.Process.check_parent
    rust_eth_playground.Processor.Process.check_head
    rust_eth_playground.Processor.Process.build_block_with_senders
    rust_eth_playground.Processor.Process.run_pipeline
    rust_eth_playground.Processor.Process.on_provider rust_eth_playground.Processor.Process.commit
    rust_eth_playground.Processor.Process.process_block
    rust_eth_playground.Execution.Provider.get_block_by_hash
    rust_eth_playground.Execution.Provider.get_block_by_number
    rust_eth_playground.Signing.recover_sender rust_eth_playground.Signing.signing_payload
    rust_eth_playground.Signing.legacy_to_encoded_bytes
    rust_eth_playground.Signing.typed_to_encoded_bytes rust_eth_playground.Signing.recovery_id_of
    rust_eth_playground.Execution.Provider.insert_block
    rust_eth_playground.Execution.Provider.index_transactions
    rust_eth_playground.Execution.Provider.insert_transaction
    rust_eth_playground.Execution.Pipeline.pipeline_execute
    rust_eth_playground.Execution.Executor.execute
    rust_eth_playground.Execution.Validator.validate_body_length
    rust_eth_playground.Processor.State.new_processor
    rust_eth_playground.Processor.State.set_accounts
    rust_eth_playground.Codec.Blocks.account_to_item
new_started = refl

started-IsValid : IsValid crypto 0 started × IsQueued started
started-IsValid =
    let (s, made, valid, queue) =
      new_processor-IsValid crypto genesis genesis_head (omega arith) refl refl
        ((alice, alice_account) ∷ []) 1 in
    subst (λ t. IsValid crypto 0 t × IsQueued t) (ok-injective (sym made ∙ new_started))
      (valid, queue)

committed : (process_block crypto child started).0 ≡ ok tt
unfolding ◌>>=◌ lift reads modify get insert rust_eth_playground.Signing.hash_header
    rust_eth_playground.Rlp.Encoder.encode rust_eth_playground.Codec.Blocks.header_to_item
    rust_eth_playground.Codec.Scalars.array_to_item rust_eth_playground.Codec.Scalars.uint_to_item
    rust_eth_playground.Codec.Scalars.vec_to_item
    rust_eth_playground.Codec.Transactions.access_list_item_to_item
    rust_eth_playground.Codec.Transactions.to_item rust_eth_playground.Rlp.BigEndian.strip_zeros
    rust_eth_playground.Rlp.BigEndian.to_be rust_eth_playground.Rlp.Encoder.add_rlp_list_prefix
    rust_eth_playground.Rlp.Encoder.encode_bytes rust_eth_playground.Rlp.Encoder.encode_length
    rust_eth_playground.Rlp.Encoder.encode_length_loop rust_eth_playground.Rlp.Layout.rlp
    rust_eth_playground.Rlp.Layout.header rust_eth_playground.Rlp.BigEndian.minimal_be
    rust_eth_playground.Execution.Executor.execute_transactions
    rust_eth_playground.Execution.Executor.execute_transaction
    rust_eth_playground.Execution.Provider.get_account rust_eth_playground.Execution.Executor.charge
    rust_eth_playground.Types.Transaction.max_cost
    rust_eth_playground.Types.Transaction.effective_gas_price
    rust_eth_playground.Types.Transaction.capped_gas_price
    rust_eth_playground.Execution.Executor.credit rust_eth_playground.Execution.Executor.add_receipt
    rust_eth_playground.Execution.Executor.compute_state_root
    rust_eth_playground.Execution.Executor.insert_accounts
    rust_eth_playground.Execution.Provider.journal_account
    rust_eth_playground.Execution.Provider.set_account rust_eth_playground.Signing.eip1559_payload
    rust_eth_playground.Signing.eip4844_payload rust_eth_playground.Signing.encode_typed
    rust_eth_playground.Signing.legacy_payload rust_eth_playground.Signing.legacy_to_wire
    rust_eth_playground.Signing.signed_transaction_hash rust_eth_playground.Signing.to_wire
    rust_eth_playground.Signing.typed_to_wire rust_eth_playground.Trie.Hash.encode_extension
    rust_eth_playground.Trie.Hash.encode_node rust_eth_playground.Trie.Hash.hp_encode
    rust_eth_playground.Trie.Hash.hp_encode_odd rust_eth_playground.Trie.Hash.node_ref
    rust_eth_playground.Trie.Hash.pack_pairs rust_eth_playground.Trie.Hash.put_child
    rust_eth_playground.Trie.Hash.put_value rust_eth_playground.Trie.Hash.root_hash
    rust_eth_playground.Trie.Node.bytes_to_nibbles rust_eth_playground.Trie.Node.insert_into_leaf
    rust_eth_playground.Trie.Node.insert_node rust_eth_playground.Trie.Node.put_leaf
    rust_eth_playground.Trie.Node.recursive_insert rust_eth_playground.Trie.Node.set_child
    rust_eth_playground.Trie.Node.shared_prefix_len rust_eth_playground.Trie.Node.split_extension
    rust_eth_playground.Trie.Node.split_leaf rust_eth_playground.Trie.Node.trie_insert
    rust_eth_playground.Execution.Provider.get_header_by_hash
    rust_eth_playground.Execution.Provider.get_header_by_number
    rust_eth_playground.Execution.Validator.strict_validate_header
    rust_eth_playground.Execution.Provider.begin_journal
    rust_eth_playground.Execution.Provider.commit_journal
    rust_eth_playground.Execution.Provider.restore
    rust_eth_playground.Execution.Provider.rollback_journal rust_eth_playground.Prelude.remove
    rust_eth_playground.Processor.Process.reject_if rust_eth_playground.Processor.Process.reject
    rust_eth_playground.Processor.Process.find_parent
    rust_eth_playground.Processor.Process.check_parent
    rust_eth_playground.Processor.Process.check_head
    rust_eth_playground.Processor.Process.build_block_with_senders
    rust_eth_playground.Processor.Process.run_pipeline
    rust_eth_playground.Processor.Process.on_provider rust_eth_playground.Processor.Process.commit
    rust_eth_playground.Processor.Process.process_block
    rust_eth_playground.Execution.Provider.get_block_by_hash
    rust_eth_playground.Execution.Provider.get_block_by_number
    rust_eth_playground.Signing.recover_sender rust_eth_playground.Signing.signing_payload
    rust_eth_playground.Signing.legacy_to_encoded_bytes
    rust_eth_playground.Signing.typed_to_encoded_bytes rust_eth_playground.Signing.recovery_id_of
    rust_eth_playground.Execution.Provider.insert_block
    rust_eth_playground.Execution.Provider.index_transactions
    rust_eth_playground.Execution.Provider.insert_transaction
    rust_eth_playground.Execution.Pipeline.pipeline_execute
    rust_eth_playground.Execution.Executor.execute
    rust_eth_playground.Execution.Validator.validate_body_length
committed = refl

process_block_commits_example :
    Committed crypto child started (process_block crypto child started).1
process_block_commits_example = process_block_commits crypto child started committed

process_block-HasRecipient_example : All HasRecipient child.transactions
process_block-HasRecipient_example = process_block-HasRecipient crypto child started committed

rejected : (process_block crypto greedy started).0 ≡ err (execution (gas_limit_exceeded 10 11))
unfolding ◌>>=◌ lift reads modify get insert rust_eth_playground.Signing.hash_header
    rust_eth_playground.Rlp.Encoder.encode rust_eth_playground.Codec.Blocks.header_to_item
    rust_eth_playground.Codec.Scalars.array_to_item rust_eth_playground.Codec.Scalars.uint_to_item
    rust_eth_playground.Codec.Scalars.vec_to_item
    rust_eth_playground.Codec.Transactions.access_list_item_to_item
    rust_eth_playground.Codec.Transactions.to_item rust_eth_playground.Rlp.BigEndian.strip_zeros
    rust_eth_playground.Rlp.BigEndian.to_be rust_eth_playground.Rlp.Encoder.add_rlp_list_prefix
    rust_eth_playground.Rlp.Encoder.encode_bytes rust_eth_playground.Rlp.Encoder.encode_length
    rust_eth_playground.Rlp.Encoder.encode_length_loop rust_eth_playground.Rlp.Layout.rlp
    rust_eth_playground.Rlp.Layout.header rust_eth_playground.Rlp.BigEndian.minimal_be
    rust_eth_playground.Execution.Executor.execute_transactions
    rust_eth_playground.Execution.Executor.execute_transaction
    rust_eth_playground.Execution.Provider.get_account rust_eth_playground.Execution.Executor.charge
    rust_eth_playground.Types.Transaction.max_cost
    rust_eth_playground.Types.Transaction.effective_gas_price
    rust_eth_playground.Types.Transaction.capped_gas_price
    rust_eth_playground.Execution.Executor.credit rust_eth_playground.Execution.Executor.add_receipt
    rust_eth_playground.Execution.Executor.compute_state_root
    rust_eth_playground.Execution.Executor.insert_accounts
    rust_eth_playground.Execution.Provider.journal_account
    rust_eth_playground.Execution.Provider.set_account rust_eth_playground.Signing.eip1559_payload
    rust_eth_playground.Signing.eip4844_payload rust_eth_playground.Signing.encode_typed
    rust_eth_playground.Signing.legacy_payload rust_eth_playground.Signing.legacy_to_wire
    rust_eth_playground.Signing.signed_transaction_hash rust_eth_playground.Signing.to_wire
    rust_eth_playground.Signing.typed_to_wire rust_eth_playground.Trie.Hash.encode_extension
    rust_eth_playground.Trie.Hash.encode_node rust_eth_playground.Trie.Hash.hp_encode
    rust_eth_playground.Trie.Hash.hp_encode_odd rust_eth_playground.Trie.Hash.node_ref
    rust_eth_playground.Trie.Hash.pack_pairs rust_eth_playground.Trie.Hash.put_child
    rust_eth_playground.Trie.Hash.put_value rust_eth_playground.Trie.Hash.root_hash
    rust_eth_playground.Trie.Node.bytes_to_nibbles rust_eth_playground.Trie.Node.insert_into_leaf
    rust_eth_playground.Trie.Node.insert_node rust_eth_playground.Trie.Node.put_leaf
    rust_eth_playground.Trie.Node.recursive_insert rust_eth_playground.Trie.Node.set_child
    rust_eth_playground.Trie.Node.shared_prefix_len rust_eth_playground.Trie.Node.split_extension
    rust_eth_playground.Trie.Node.split_leaf rust_eth_playground.Trie.Node.trie_insert
    rust_eth_playground.Execution.Provider.get_header_by_hash
    rust_eth_playground.Execution.Provider.get_header_by_number
    rust_eth_playground.Execution.Validator.strict_validate_header
    rust_eth_playground.Execution.Provider.begin_journal
    rust_eth_playground.Execution.Provider.commit_journal
    rust_eth_playground.Execution.Provider.restore
    rust_eth_playground.Execution.Provider.rollback_journal rust_eth_playground.Prelude.remove
    rust_eth_playground.Processor.Process.reject_if rust_eth_playground.Processor.Process.reject
    rust_eth_playground.Processor.Process.find_parent
    rust_eth_playground.Processor.Process.check_parent
    rust_eth_playground.Processor.Process.check_head
    rust_eth_playground.Processor.Process.build_block_with_senders
    rust_eth_playground.Processor.Process.run_pipeline
    rust_eth_playground.Processor.Process.on_provider rust_eth_playground.Processor.Process.commit
    rust_eth_playground.Processor.Process.process_block
    rust_eth_playground.Execution.Provider.get_block_by_hash
    rust_eth_playground.Execution.Provider.get_block_by_number
    rust_eth_playground.Signing.recover_sender rust_eth_playground.Signing.signing_payload
    rust_eth_playground.Signing.legacy_to_encoded_bytes
    rust_eth_playground.Signing.typed_to_encoded_bytes rust_eth_playground.Signing.recovery_id_of
    rust_eth_playground.Execution.Provider.insert_block
    rust_eth_playground.Execution.Provider.index_transactions
    rust_eth_playground.Execution.Provider.insert_transaction
    rust_eth_playground.Execution.Pipeline.pipeline_execute
    rust_eth_playground.Execution.Executor.execute
    rust_eth_playground.Execution.Validator.validate_body_length
rejected = refl

process_block_rejects_example : Rejected started (process_block crypto greedy started).1
process_block_rejects_example =
    process_block_rejects crypto greedy started (execution (gas_limit_exceeded 10 11)) rejected

abbrev messages : List ProcessorMessage
messages = new_block greedy 3 ∷ new_block child 7 ∷ get_account_state bob ∷ shutdown ∷ []

abbrev answers : Answers
answers = ok (record default_account { balance = 100 }) ∷ []

ran : (run crypto messages started).0 ≡ ok answers
unfolding ◌>>=◌ lift reads modify get insert rust_eth_playground.Signing.hash_header
    rust_eth_playground.Rlp.Encoder.encode rust_eth_playground.Codec.Blocks.header_to_item
    rust_eth_playground.Codec.Scalars.array_to_item rust_eth_playground.Codec.Scalars.uint_to_item
    rust_eth_playground.Codec.Scalars.vec_to_item
    rust_eth_playground.Codec.Transactions.access_list_item_to_item
    rust_eth_playground.Codec.Transactions.to_item rust_eth_playground.Rlp.BigEndian.strip_zeros
    rust_eth_playground.Rlp.BigEndian.to_be rust_eth_playground.Rlp.Encoder.add_rlp_list_prefix
    rust_eth_playground.Rlp.Encoder.encode_bytes rust_eth_playground.Rlp.Encoder.encode_length
    rust_eth_playground.Rlp.Encoder.encode_length_loop rust_eth_playground.Rlp.Layout.rlp
    rust_eth_playground.Rlp.Layout.header rust_eth_playground.Rlp.BigEndian.minimal_be
    rust_eth_playground.Execution.Executor.execute_transactions
    rust_eth_playground.Execution.Executor.execute_transaction
    rust_eth_playground.Execution.Provider.get_account rust_eth_playground.Execution.Executor.charge
    rust_eth_playground.Types.Transaction.max_cost
    rust_eth_playground.Types.Transaction.effective_gas_price
    rust_eth_playground.Types.Transaction.capped_gas_price
    rust_eth_playground.Execution.Executor.credit rust_eth_playground.Execution.Executor.add_receipt
    rust_eth_playground.Execution.Executor.compute_state_root
    rust_eth_playground.Execution.Executor.insert_accounts
    rust_eth_playground.Execution.Provider.journal_account
    rust_eth_playground.Execution.Provider.set_account rust_eth_playground.Signing.eip1559_payload
    rust_eth_playground.Signing.eip4844_payload rust_eth_playground.Signing.encode_typed
    rust_eth_playground.Signing.legacy_payload rust_eth_playground.Signing.legacy_to_wire
    rust_eth_playground.Signing.signed_transaction_hash rust_eth_playground.Signing.to_wire
    rust_eth_playground.Signing.typed_to_wire rust_eth_playground.Trie.Hash.encode_extension
    rust_eth_playground.Trie.Hash.encode_node rust_eth_playground.Trie.Hash.hp_encode
    rust_eth_playground.Trie.Hash.hp_encode_odd rust_eth_playground.Trie.Hash.node_ref
    rust_eth_playground.Trie.Hash.pack_pairs rust_eth_playground.Trie.Hash.put_child
    rust_eth_playground.Trie.Hash.put_value rust_eth_playground.Trie.Hash.root_hash
    rust_eth_playground.Trie.Node.bytes_to_nibbles rust_eth_playground.Trie.Node.insert_into_leaf
    rust_eth_playground.Trie.Node.insert_node rust_eth_playground.Trie.Node.put_leaf
    rust_eth_playground.Trie.Node.recursive_insert rust_eth_playground.Trie.Node.set_child
    rust_eth_playground.Trie.Node.shared_prefix_len rust_eth_playground.Trie.Node.split_extension
    rust_eth_playground.Trie.Node.split_leaf rust_eth_playground.Trie.Node.trie_insert
    rust_eth_playground.Execution.Provider.get_header_by_hash
    rust_eth_playground.Execution.Provider.get_header_by_number
    rust_eth_playground.Execution.Validator.strict_validate_header
    rust_eth_playground.Execution.Provider.begin_journal
    rust_eth_playground.Execution.Provider.commit_journal
    rust_eth_playground.Execution.Provider.restore
    rust_eth_playground.Execution.Provider.rollback_journal rust_eth_playground.Prelude.remove
    rust_eth_playground.Processor.Process.reject_if rust_eth_playground.Processor.Process.reject
    rust_eth_playground.Processor.Process.find_parent
    rust_eth_playground.Processor.Process.check_parent
    rust_eth_playground.Processor.Process.check_head
    rust_eth_playground.Processor.Process.build_block_with_senders
    rust_eth_playground.Processor.Process.run_pipeline
    rust_eth_playground.Processor.Process.on_provider rust_eth_playground.Processor.Process.commit
    rust_eth_playground.Processor.Process.process_block
    rust_eth_playground.Execution.Provider.get_block_by_hash
    rust_eth_playground.Execution.Provider.get_block_by_number
    rust_eth_playground.Signing.recover_sender rust_eth_playground.Signing.signing_payload
    rust_eth_playground.Signing.legacy_to_encoded_bytes
    rust_eth_playground.Signing.typed_to_encoded_bytes rust_eth_playground.Signing.recovery_id_of
    rust_eth_playground.Execution.Provider.insert_block
    rust_eth_playground.Execution.Provider.index_transactions
    rust_eth_playground.Execution.Provider.insert_transaction
    rust_eth_playground.Execution.Pipeline.pipeline_execute
    rust_eth_playground.Execution.Executor.execute
    rust_eth_playground.Execution.Validator.validate_body_length
    rust_eth_playground.Processor.Run.run rust_eth_playground.Processor.Run.stop
    rust_eth_playground.Processor.Process.try_drain rust_eth_playground.Processor.Process.drain
    rust_eth_playground.Processor.Process.handle_new_block
    rust_eth_playground.Processor.Process.account_state
ran = refl

run_keeps_chain_example : IsResult crypto 0 started (run crypto messages started).1
run_keeps_chain_example =
    run_keeps_chain crypto 0 messages started answers started-IsValid.0 started-IsValid.1 ran

drain_enough_example : drain crypto 9 1 queued ≡ drain crypto 1 1 queued
drain_enough_example = drain_enough crypto 1 9 1 queued (omega arith) (omega arith)

recovered : build_block_with_senders crypto child started ≡ ok child_with_senders
unfolding ◌>>=◌ lift reads modify get insert rust_eth_playground.Signing.hash_header
    rust_eth_playground.Rlp.Encoder.encode rust_eth_playground.Codec.Blocks.header_to_item
    rust_eth_playground.Codec.Scalars.array_to_item rust_eth_playground.Codec.Scalars.uint_to_item
    rust_eth_playground.Codec.Scalars.vec_to_item
    rust_eth_playground.Codec.Transactions.access_list_item_to_item
    rust_eth_playground.Codec.Transactions.to_item rust_eth_playground.Rlp.BigEndian.strip_zeros
    rust_eth_playground.Rlp.BigEndian.to_be rust_eth_playground.Rlp.Encoder.add_rlp_list_prefix
    rust_eth_playground.Rlp.Encoder.encode_bytes rust_eth_playground.Rlp.Encoder.encode_length
    rust_eth_playground.Rlp.Encoder.encode_length_loop rust_eth_playground.Rlp.Layout.rlp
    rust_eth_playground.Rlp.Layout.header rust_eth_playground.Rlp.BigEndian.minimal_be
    rust_eth_playground.Execution.Executor.execute_transactions
    rust_eth_playground.Execution.Executor.execute_transaction
    rust_eth_playground.Execution.Provider.get_account rust_eth_playground.Execution.Executor.charge
    rust_eth_playground.Types.Transaction.max_cost
    rust_eth_playground.Types.Transaction.effective_gas_price
    rust_eth_playground.Types.Transaction.capped_gas_price
    rust_eth_playground.Execution.Executor.credit rust_eth_playground.Execution.Executor.add_receipt
    rust_eth_playground.Execution.Executor.compute_state_root
    rust_eth_playground.Execution.Executor.insert_accounts
    rust_eth_playground.Execution.Provider.journal_account
    rust_eth_playground.Execution.Provider.set_account rust_eth_playground.Signing.eip1559_payload
    rust_eth_playground.Signing.eip4844_payload rust_eth_playground.Signing.encode_typed
    rust_eth_playground.Signing.legacy_payload rust_eth_playground.Signing.legacy_to_wire
    rust_eth_playground.Signing.signed_transaction_hash rust_eth_playground.Signing.to_wire
    rust_eth_playground.Signing.typed_to_wire rust_eth_playground.Trie.Hash.encode_extension
    rust_eth_playground.Trie.Hash.encode_node rust_eth_playground.Trie.Hash.hp_encode
    rust_eth_playground.Trie.Hash.hp_encode_odd rust_eth_playground.Trie.Hash.node_ref
    rust_eth_playground.Trie.Hash.pack_pairs rust_eth_playground.Trie.Hash.put_child
    rust_eth_playground.Trie.Hash.put_value rust_eth_playground.Trie.Hash.root_hash
    rust_eth_playground.Trie.Node.bytes_to_nibbles rust_eth_playground.Trie.Node.insert_into_leaf
    rust_eth_playground.Trie.Node.insert_node rust_eth_playground.Trie.Node.put_leaf
    rust_eth_playground.Trie.Node.recursive_insert rust_eth_playground.Trie.Node.set_child
    rust_eth_playground.Trie.Node.shared_prefix_len rust_eth_playground.Trie.Node.split_extension
    rust_eth_playground.Trie.Node.split_leaf rust_eth_playground.Trie.Node.trie_insert
    rust_eth_playground.Execution.Provider.get_header_by_hash
    rust_eth_playground.Execution.Provider.get_header_by_number
    rust_eth_playground.Execution.Validator.strict_validate_header
    rust_eth_playground.Execution.Provider.begin_journal
    rust_eth_playground.Execution.Provider.commit_journal
    rust_eth_playground.Execution.Provider.restore
    rust_eth_playground.Execution.Provider.rollback_journal rust_eth_playground.Prelude.remove
    rust_eth_playground.Processor.Process.reject_if rust_eth_playground.Processor.Process.reject
    rust_eth_playground.Processor.Process.find_parent
    rust_eth_playground.Processor.Process.check_parent
    rust_eth_playground.Processor.Process.check_head
    rust_eth_playground.Processor.Process.build_block_with_senders
    rust_eth_playground.Processor.Process.run_pipeline
    rust_eth_playground.Processor.Process.on_provider rust_eth_playground.Processor.Process.commit
    rust_eth_playground.Processor.Process.process_block
    rust_eth_playground.Execution.Provider.get_block_by_hash
    rust_eth_playground.Execution.Provider.get_block_by_number
    rust_eth_playground.Signing.recover_sender rust_eth_playground.Signing.signing_payload
    rust_eth_playground.Signing.legacy_to_encoded_bytes
    rust_eth_playground.Signing.typed_to_encoded_bytes rust_eth_playground.Signing.recovery_id_of
    rust_eth_playground.Execution.Provider.insert_block
    rust_eth_playground.Execution.Provider.index_transactions
    rust_eth_playground.Execution.Provider.insert_transaction
    rust_eth_playground.Execution.Pipeline.pipeline_execute
    rust_eth_playground.Execution.Executor.execute
    rust_eth_playground.Execution.Validator.validate_body_length
recovered = refl

ran_child :
    pipeline_execute (node_pipeline crypto) child_with_senders provider
    ≡ (ok output, (pipeline_execute (node_pipeline crypto) child_with_senders provider).1)
unfolding ◌>>=◌ lift reads modify get insert rust_eth_playground.Signing.hash_header
    rust_eth_playground.Rlp.Encoder.encode rust_eth_playground.Codec.Blocks.header_to_item
    rust_eth_playground.Codec.Scalars.array_to_item rust_eth_playground.Codec.Scalars.uint_to_item
    rust_eth_playground.Codec.Scalars.vec_to_item
    rust_eth_playground.Codec.Transactions.access_list_item_to_item
    rust_eth_playground.Codec.Transactions.to_item rust_eth_playground.Rlp.BigEndian.strip_zeros
    rust_eth_playground.Rlp.BigEndian.to_be rust_eth_playground.Rlp.Encoder.add_rlp_list_prefix
    rust_eth_playground.Rlp.Encoder.encode_bytes rust_eth_playground.Rlp.Encoder.encode_length
    rust_eth_playground.Rlp.Encoder.encode_length_loop rust_eth_playground.Rlp.Layout.rlp
    rust_eth_playground.Rlp.Layout.header rust_eth_playground.Rlp.BigEndian.minimal_be
    rust_eth_playground.Execution.Executor.execute_transactions
    rust_eth_playground.Execution.Executor.execute_transaction
    rust_eth_playground.Execution.Provider.get_account rust_eth_playground.Execution.Executor.charge
    rust_eth_playground.Types.Transaction.max_cost
    rust_eth_playground.Types.Transaction.effective_gas_price
    rust_eth_playground.Types.Transaction.capped_gas_price
    rust_eth_playground.Execution.Executor.credit rust_eth_playground.Execution.Executor.add_receipt
    rust_eth_playground.Execution.Executor.compute_state_root
    rust_eth_playground.Execution.Executor.insert_accounts
    rust_eth_playground.Execution.Provider.journal_account
    rust_eth_playground.Execution.Provider.set_account rust_eth_playground.Signing.eip1559_payload
    rust_eth_playground.Signing.eip4844_payload rust_eth_playground.Signing.encode_typed
    rust_eth_playground.Signing.legacy_payload rust_eth_playground.Signing.legacy_to_wire
    rust_eth_playground.Signing.signed_transaction_hash rust_eth_playground.Signing.to_wire
    rust_eth_playground.Signing.typed_to_wire rust_eth_playground.Trie.Hash.encode_extension
    rust_eth_playground.Trie.Hash.encode_node rust_eth_playground.Trie.Hash.hp_encode
    rust_eth_playground.Trie.Hash.hp_encode_odd rust_eth_playground.Trie.Hash.node_ref
    rust_eth_playground.Trie.Hash.pack_pairs rust_eth_playground.Trie.Hash.put_child
    rust_eth_playground.Trie.Hash.put_value rust_eth_playground.Trie.Hash.root_hash
    rust_eth_playground.Trie.Node.bytes_to_nibbles rust_eth_playground.Trie.Node.insert_into_leaf
    rust_eth_playground.Trie.Node.insert_node rust_eth_playground.Trie.Node.put_leaf
    rust_eth_playground.Trie.Node.recursive_insert rust_eth_playground.Trie.Node.set_child
    rust_eth_playground.Trie.Node.shared_prefix_len rust_eth_playground.Trie.Node.split_extension
    rust_eth_playground.Trie.Node.split_leaf rust_eth_playground.Trie.Node.trie_insert
    rust_eth_playground.Execution.Provider.get_header_by_hash
    rust_eth_playground.Execution.Provider.get_header_by_number
    rust_eth_playground.Execution.Validator.strict_validate_header
    rust_eth_playground.Execution.Provider.begin_journal
    rust_eth_playground.Execution.Provider.commit_journal
    rust_eth_playground.Execution.Provider.restore
    rust_eth_playground.Execution.Provider.rollback_journal rust_eth_playground.Prelude.remove
    rust_eth_playground.Processor.Process.reject_if rust_eth_playground.Processor.Process.reject
    rust_eth_playground.Processor.Process.find_parent
    rust_eth_playground.Processor.Process.check_parent
    rust_eth_playground.Processor.Process.check_head
    rust_eth_playground.Processor.Process.build_block_with_senders
    rust_eth_playground.Processor.Process.run_pipeline
    rust_eth_playground.Processor.Process.on_provider rust_eth_playground.Processor.Process.commit
    rust_eth_playground.Processor.Process.process_block
    rust_eth_playground.Execution.Provider.get_block_by_hash
    rust_eth_playground.Execution.Provider.get_block_by_number
    rust_eth_playground.Signing.recover_sender rust_eth_playground.Signing.signing_payload
    rust_eth_playground.Signing.legacy_to_encoded_bytes
    rust_eth_playground.Signing.typed_to_encoded_bytes rust_eth_playground.Signing.recovery_id_of
    rust_eth_playground.Execution.Provider.insert_block
    rust_eth_playground.Execution.Provider.index_transactions
    rust_eth_playground.Execution.Provider.insert_transaction
    rust_eth_playground.Execution.Pipeline.pipeline_execute
    rust_eth_playground.Execution.Executor.execute
    rust_eth_playground.Execution.Validator.validate_body_length
ran_child = refl

found_genesis : get_block_by_hash child.header.parent_hash started.provider ≡ ok genesis
unfolding ◌>>=◌ lift reads modify get insert rust_eth_playground.Signing.hash_header
    rust_eth_playground.Rlp.Encoder.encode rust_eth_playground.Codec.Blocks.header_to_item
    rust_eth_playground.Codec.Scalars.array_to_item rust_eth_playground.Codec.Scalars.uint_to_item
    rust_eth_playground.Codec.Scalars.vec_to_item
    rust_eth_playground.Codec.Transactions.access_list_item_to_item
    rust_eth_playground.Codec.Transactions.to_item rust_eth_playground.Rlp.BigEndian.strip_zeros
    rust_eth_playground.Rlp.BigEndian.to_be rust_eth_playground.Rlp.Encoder.add_rlp_list_prefix
    rust_eth_playground.Rlp.Encoder.encode_bytes rust_eth_playground.Rlp.Encoder.encode_length
    rust_eth_playground.Rlp.Encoder.encode_length_loop rust_eth_playground.Rlp.Layout.rlp
    rust_eth_playground.Rlp.Layout.header rust_eth_playground.Rlp.BigEndian.minimal_be
    rust_eth_playground.Execution.Executor.execute_transactions
    rust_eth_playground.Execution.Executor.execute_transaction
    rust_eth_playground.Execution.Provider.get_account rust_eth_playground.Execution.Executor.charge
    rust_eth_playground.Types.Transaction.max_cost
    rust_eth_playground.Types.Transaction.effective_gas_price
    rust_eth_playground.Types.Transaction.capped_gas_price
    rust_eth_playground.Execution.Executor.credit rust_eth_playground.Execution.Executor.add_receipt
    rust_eth_playground.Execution.Executor.compute_state_root
    rust_eth_playground.Execution.Executor.insert_accounts
    rust_eth_playground.Execution.Provider.journal_account
    rust_eth_playground.Execution.Provider.set_account rust_eth_playground.Signing.eip1559_payload
    rust_eth_playground.Signing.eip4844_payload rust_eth_playground.Signing.encode_typed
    rust_eth_playground.Signing.legacy_payload rust_eth_playground.Signing.legacy_to_wire
    rust_eth_playground.Signing.signed_transaction_hash rust_eth_playground.Signing.to_wire
    rust_eth_playground.Signing.typed_to_wire rust_eth_playground.Trie.Hash.encode_extension
    rust_eth_playground.Trie.Hash.encode_node rust_eth_playground.Trie.Hash.hp_encode
    rust_eth_playground.Trie.Hash.hp_encode_odd rust_eth_playground.Trie.Hash.node_ref
    rust_eth_playground.Trie.Hash.pack_pairs rust_eth_playground.Trie.Hash.put_child
    rust_eth_playground.Trie.Hash.put_value rust_eth_playground.Trie.Hash.root_hash
    rust_eth_playground.Trie.Node.bytes_to_nibbles rust_eth_playground.Trie.Node.insert_into_leaf
    rust_eth_playground.Trie.Node.insert_node rust_eth_playground.Trie.Node.put_leaf
    rust_eth_playground.Trie.Node.recursive_insert rust_eth_playground.Trie.Node.set_child
    rust_eth_playground.Trie.Node.shared_prefix_len rust_eth_playground.Trie.Node.split_extension
    rust_eth_playground.Trie.Node.split_leaf rust_eth_playground.Trie.Node.trie_insert
    rust_eth_playground.Execution.Provider.get_header_by_hash
    rust_eth_playground.Execution.Provider.get_header_by_number
    rust_eth_playground.Execution.Validator.strict_validate_header
    rust_eth_playground.Execution.Provider.begin_journal
    rust_eth_playground.Execution.Provider.commit_journal
    rust_eth_playground.Execution.Provider.restore
    rust_eth_playground.Execution.Provider.rollback_journal rust_eth_playground.Prelude.remove
    rust_eth_playground.Processor.Process.reject_if rust_eth_playground.Processor.Process.reject
    rust_eth_playground.Processor.Process.find_parent
    rust_eth_playground.Processor.Process.check_parent
    rust_eth_playground.Processor.Process.check_head
    rust_eth_playground.Processor.Process.build_block_with_senders
    rust_eth_playground.Processor.Process.run_pipeline
    rust_eth_playground.Processor.Process.on_provider rust_eth_playground.Processor.Process.commit
    rust_eth_playground.Processor.Process.process_block
    rust_eth_playground.Execution.Provider.get_block_by_hash
    rust_eth_playground.Execution.Provider.get_block_by_number
    rust_eth_playground.Signing.recover_sender rust_eth_playground.Signing.signing_payload
    rust_eth_playground.Signing.legacy_to_encoded_bytes
    rust_eth_playground.Signing.typed_to_encoded_bytes rust_eth_playground.Signing.recovery_id_of
    rust_eth_playground.Execution.Provider.insert_block
    rust_eth_playground.Execution.Provider.index_transactions
    rust_eth_playground.Execution.Provider.insert_transaction
    rust_eth_playground.Execution.Pipeline.pipeline_execute
    rust_eth_playground.Execution.Executor.execute
    rust_eth_playground.Execution.Validator.validate_body_length
found_genesis = refl

process_block_accepts_example : (process_block crypto child started).0 ≡ ok tt
process_block_accepts_example =
    process_block_accepts crypto child genesis started child_with_senders output
      (pipeline_execute (node_pipeline crypto) child_with_senders provider).1 found_genesis refl
      (omega arith) refl recovered ran_child
