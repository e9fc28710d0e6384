-- ===== src/Types/Summary.antt =====
-- core/types/src/transaction.rs: the summary of a list of transactions against plain sums.
use rust_eth_playground.Prelude.{
  ℕ, ◌+◌, ◌≡◌, ◌≤◌, ◌<◌, ◌^◌, ◌⊎◌, List, [], ◌∷◌, length, ok, err, arith, if◌then◌else◌,
}
use rust_eth_playground.Types.Transaction.{
  Transaction, overflow, value_of, gas_limit_of, to_of, is_none, summarise_from,
  summarise_transactions,
}

abbrev pub sum_values : List Transaction → ℕ
sum_values [] = 0
sum_values (tx ∷ txs) = value_of tx + sum_values txs

abbrev pub sum_gas : List Transaction → ℕ
sum_gas [] = 0
sum_gas (tx ∷ txs) = gas_limit_of tx + sum_gas txs

abbrev pub count_creates : List Transaction → ℕ
count_creates [] = 0
count_creates (tx ∷ txs) =
    let rest = count_creates txs in if is_none (to_of tx) then 1 + rest else rest

summarise_from-ok :
    (value gas creates count : ℕ) (txs : List Transaction)
    → value + sum_values txs < 2 ^ 128
    → gas + sum_gas txs < 2 ^ 64
    → summarise_from value gas creates count txs
      ≡ ok (record {
        total_value = value + sum_values txs;
        total_gas_limit = gas + sum_gas txs;
        create_count = creates + count_creates txs;
        tx_count = count;
      })
unfolding summarise_from
summarise_from-ok value gas creates count [] hv hg = ground arith
summarise_from-ok value gas creates count (tx ∷ txs) hv hg = ground (
  arith,
  summarise_from-ok (value_of tx + value) (gas_limit_of tx + gas)
      (if is_none (to_of tx) then creates + 1 else creates) count txs (omega (arith, hv))
      (omega (arith, hg)),
)

summarise_from-err :
    (value gas creates count : ℕ) (txs : List Transaction)
    → value < 2 ^ 128
    → gas < 2 ^ 64
    → (2 ^ 128 ≤ value + sum_values txs) ⊎ (2 ^ 64 ≤ gas + sum_gas txs)
    → summarise_from value gas creates count txs ≡ err overflow
unfolding summarise_from
summarise_from-err value gas creates count [] hv hg h = ground arith
summarise_from-err value gas creates count (tx ∷ txs) hv hg h = ground (
  arith,
  summarise_from-err (value_of tx + value) (gas_limit_of tx + gas)
      (if is_none (to_of tx) then creates + 1 else creates) count txs,
)

-- The summary of a list of transactions is its sums and counts when the total value is below
-- 2^128 and the total gas limit below 2^64, and else the overflow error.
pub summarise_transactions_sums :
    (txs : List Transaction)
    → (sum_values txs < 2 ^ 128
        → sum_gas txs < 2 ^ 64
        → summarise_transactions txs
          ≡ ok (record {
            total_value = sum_values txs;
            total_gas_limit = sum_gas txs;
            create_count = count_creates txs;
            tx_count = length txs;
          }))
      × ((2 ^ 128 ≤ sum_values txs) ⊎ (2 ^ 64 ≤ sum_gas txs)
          → summarise_transactions txs ≡ err overflow)
unfolding summarise_transactions
summarise_transactions_sums txs = (
  (λ hv hg. ground (arith, summarise_from-ok 0 0 0 (length txs) txs)),
  (λ h. ground (arith, summarise_from-err 0 0 0 (length txs) txs)),
)
