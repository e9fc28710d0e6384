-- ===== src/Rlp/Item.antt =====
-- core/rlp-codec/src/item.rs and error.rs: the item tree and the errors of the codec.
use rust_eth_playground.Prelude.{ℕ, List, [], ◌∷◌, Bytes, ◌≡◌, refl, ap}
use rust_eth_playground.Types.Transaction.{TransactionError}

-- `RlpItem`; `RlpItems` is its `Vec<RlpItem>`.
mutual
  pub data RlpItem : Type 0 where
    bytes : Bytes → RlpItem
    list : RlpItems → RlpItem

  pub data RlpItems : Type 0 where
    nil : RlpItems
    cons : RlpItem → RlpItems → RlpItems

abbrev pub to_list : RlpItems → List RlpItem
to_list nil = []
to_list (cons x xs) = x ∷ to_list xs

abbrev pub of_list : List RlpItem → RlpItems
of_list [] = nil
of_list (x ∷ xs) = cons x (of_list xs)

-- `RlpItem::List(vec![..])`.
abbrev pub list_of : List RlpItem → RlpItem
list_of xs = list (of_list xs)

pub to_list-of_list : (xs : List RlpItem) → to_list (of_list xs) ≡ xs
to_list-of_list [] = refl
to_list-of_list (x ∷ xs) = ap (◌∷◌ x) (to_list-of_list xs)

-- `InvalidString` carries nothing; `Transaction` wraps the error that `?` converts.
pub data RlpError : Type 0 where
  input_too_short : ℕ → ℕ → RlpError
  invalid_length : ℕ → RlpError
  trailing_bytes : ℕ → RlpError
  unexpected_type : ℕ → RlpError
  overflow : RlpError
  invalid_string : RlpError
  transaction : TransactionError → RlpError
