-- ===== src/Execution/Charge.antt =====
-- core/execution/src/executor.rs: the sender's checks make the arithmetic of the payment safe.
use native.Mathlib.Nat.{mul-le-mul_right}
use rust_eth_playground.Prelude.{ℕ, ◌+◌, ◌*◌, ◌≡◌, ◌≢◌, ◌≤◌, ◌^◌, Result, ok, err, panic, arith}
use rust_eth_playground.Types.Primitives.{Address, Account}
use rust_eth_playground.Types.Transaction.{
  Transaction, legacy, eip1559, eip4844, TransactionError, gas_limit_of, fee_cap_of,
  effective_gas_price, capped_gas_price, max_cost,
}
use rust_eth_playground.Execution.Types.{overflow, underflow}
use rust_eth_playground.Execution.Executor.{charge}

-- The price of a successful computation.
abbrev price_or_zero : Result TransactionError ℕ → ℕ
price_or_zero (ok price) = price
price_or_zero (err e) = 0
price_or_zero panic = 0

price_or_zero-le-fee_cap_of :
    (tx : Transaction) (base_fee : ℕ)
    → price_or_zero (effective_gas_price tx base_fee) ≤ fee_cap_of tx
unfolding effective_gas_price capped_gas_price
price_or_zero-le-fee_cap_of (legacy f) base_fee = omega arith
price_or_zero-le-fee_cap_of (eip1559 f) base_fee = ground arith
price_or_zero-le-fee_cap_of (eip4844 f) base_fee = ground arith

-- The payment that follows the sender's checks cannot go wrong: it never underflows, and it
-- overflows only for a sender whose nonce is the last one of 64 bits. So a balance that covers
-- the maximal cost covers the price times the gas limit and the value.
pub charge_safe :
    (base_fee : ℕ) (tx : Transaction) (sender : Address) (account : Account)
    → (charge base_fee tx sender account ≢ err underflow)
      × (charge base_fee tx sender account ≡ err overflow → 2 ^ 64 ≤ account.nonce + 1)
unfolding charge max_cost
charge_safe base_fee tx sender account =
    let cost_bounded : price_or_zero (effective_gas_price tx base_fee) * gas_limit_of tx
        ≤ fee_cap_of tx * gas_limit_of tx =
      mul-le-mul_right (gas_limit_of tx) (price_or_zero-le-fee_cap_of tx base_fee) in
    ground (arith, cost_bounded)
