-- ===== src/Execution/Validator.antt =====
-- core/execution/src/validator.rs: the two consensus validators.
use rust_eth_playground.Prelude.{
  ℕ, not, length, ltb, ◌==◌, bytes_beq, u64_mod, Result, ◌>>=◌, ◌>>◌, raise_if, ok_or, map_err,
  checked_add,
}
use rust_eth_playground.Types.Primitives.{Header}
use rust_eth_playground.Types.Transaction.{Block}
use rust_eth_playground.Signing.{Crypto, hash_header}
use rust_eth_playground.Execution.Types.{
  ExecutionError, invalid_parent_hash, gas_limit_exceeded, too_many_transactions,
  invalid_block_number, overflow, rlp,
}

-- The trait `ConsensusValidator`.
pub record ConsensusValidator : Type 0 where
  pub validate_header : Header → Header → Result ExecutionError (Unit {0})
  pub validate_body : Block → Result ExecutionError (Unit {0})

-- `validate_body` of both validators.
unfoldable pub validate_body_length : ℕ → Block → Result ExecutionError (Unit {0})
validate_body_length max_txs block =
    raise_if (ltb max_txs (length block.transactions))
      (too_many_transactions max_txs (length block.transactions))

module _ (crypto : Crypto) where
  unfoldable pub basic_validate_header : Header → Header → Result ExecutionError (Unit {0})
  basic_validate_header header parent = do
    parent_hash ← map_err rlp (hash_header crypto parent)
    raise_if (not (bytes_beq header.parent_hash parent_hash))
        (invalid_parent_hash parent_hash header.parent_hash)
    raise_if (ltb header.gas_limit header.gas_used)
        (gas_limit_exceeded header.gas_limit header.gas_used)

  unfoldable pub strict_validate_header : Header → Header → Result ExecutionError (Unit {0})
  strict_validate_header header parent = do
    parent_hash ← map_err rlp (hash_header crypto parent)
    raise_if (not (bytes_beq header.parent_hash parent_hash))
        (invalid_parent_hash parent_hash header.parent_hash)
    actual_block_number ← ok_or (checked_add u64_mod parent.number 1) overflow
    raise_if (not (header.number == actual_block_number))
        (invalid_block_number actual_block_number header.number)
    raise_if (ltb header.gas_limit header.gas_used)
        (gas_limit_exceeded header.gas_limit header.gas_used)

  abbrev pub basic_validator : ℕ → ConsensusValidator
  basic_validator max_txs = record {
    validate_header = basic_validate_header;
    validate_body = validate_body_length max_txs;
  }

  abbrev pub strict_validator : ℕ → ConsensusValidator
  strict_validator max_txs = record {
    validate_header = strict_validate_header;
    validate_body = validate_body_length max_txs;
  }
