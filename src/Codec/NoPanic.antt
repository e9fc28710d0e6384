-- ===== src/Codec/NoPanic.antt =====
-- core/rlp-codec/src/traits.rs: reading an item never panics, since every index is tested.
use rust_eth_playground.Prelude.{
  ℕ, zero, suc, ◌≡◌, ◌<◌, ◌-◌, ◌++◌, replicate, refl, ap, List, [], ◌∷◌, length, get_elem?, ltb,
  ◌==◌, not, true, false, Bool, Result, ok, err, panic, ◌>>=◌, ◌>>◌, raise_if, map_err, map_result,
  Yields, Yields-bind, Yields-raise_if, Yields-if, Yields.value, Yields.error, Bytes, if◌then◌else◌,
  arith, Bool-cases, inl, inr, ltb→lt, copy_to_end, copy_to_end-le, le_of_ltb-false,
}
use rust_eth_playground.Types.Primitives.{try_from, wrong_length}
use rust_eth_playground.Rlp.BigEndian.{from_be}
use rust_eth_playground.Rlp.Item.{RlpItem, bytes, list, RlpError, invalid_length}
use rust_eth_playground.Codec.Scalars.{
  index, expect_fields, uint_from_item, vec_from_item, array_from_item,
}
use rust_eth_playground.Codec.Transactions.{
  fields_of, decode_list_of, access_list_item_from_item, decode_to, legacy_from_fields,
  eip1559_from_fields, eip4844_from_fields, transaction_from_tag, transaction_from_item,
}
use rust_eth_playground.Codec.Blocks.{
  header_from_item, signed_transaction_from_item, block_from_item,
}

-- A value or an error.
abbrev pub NoPanic {ℓ} : {E : Type 0} {A : Type ℓ} → Result E A → Type ℓ
NoPanic r = Yields (λ _. Unit {0}) r

pub NoPanic-ok {ℓ} : {E : Type 0} {A : Type ℓ} (a : A) → NoPanic {E = E} (ok a)
NoPanic-ok a = Yields.value tt

pub NoPanic-err {ℓ} : {E : Type 0} {A : Type ℓ} (e : E) → NoPanic {A = A} (err e)
NoPanic-err e = Yields.error

module _ {E : Type 0} {A B : Type 0} where
  pub NoPanic-bind :
      (r : Result E A) (f : A → Result E B)
      → NoPanic r
      → ((a : A) → NoPanic (f a))
      → NoPanic (r >>= f)
  NoPanic-bind r f h k = Yields-bind h (λ a _. k a)

pub NoPanic-map_err :
    {E : Type 0} {A : Type 0} {F : Type 0} (g : E → F) (r : Result E A)
    → NoPanic r
    → NoPanic (map_err g r)
NoPanic-map_err {E = E} {A = A} g r h = go h
  where
    go : {s : Result E A} → NoPanic s → NoPanic (map_err g s)
    go (Yields.value h) = Yields.value tt
    go Yields.error = Yields.error

index-NoPanic : (x : List RlpItem) (i : ℕ) → i < length x → NoPanic (index x i)
index-NoPanic [] i h = let no : ⊥ = omega (arith, h) in elim no [ ]
index-NoPanic (y ∷ x) zero h = Yields.value tt
index-NoPanic (y ∷ x) (suc i) h = index-NoPanic x i (omega (arith, h))

module _ {A : Type 0} where
  -- A field behind the test of the number of fields.
  pub NoPanic-index :
      (x : List RlpItem) (i n : ℕ) (f : RlpItem → Result RlpError A)
      → length x ≡ n
      → ltb i n ≡ true
      → ((y : RlpItem) → NoPanic (f y))
      → NoPanic (index x i >>= f)
  NoPanic-index x i n f same below k =
      Yields-bind (index-NoPanic x i (omega (arith, same, ltb→lt i n below))) (λ y _. k y)

  pub NoPanic-expect_fields :
      (n : ℕ) (x : List RlpItem) {r : Result RlpError A}
      → (length x ≡ n → NoPanic r)
      → NoPanic (expect_fields n x >> r)
  NoPanic-expect_fields n x k = elim (Bool-cases (length x == n)) [
    | inl same ↦ rw same (k (ground arith))
    | inr other ↦ rw other Yields.error
  ]

  -- The first field behind the test that there is one.
  pub NoPanic-first :
      (x : List RlpItem) (e : RlpError) (f : RlpItem → Result RlpError A)
      → ((y : RlpItem) → NoPanic (f y))
      → NoPanic (raise_if (length x == 0) e >> (index x 0 >>= f))
  NoPanic-first [] e f k = Yields.error
  NoPanic-first (y ∷ x) e f k =
      let more : (length (y ∷ x) == 0) ≡ false = ground arith in rw more (k y)

  pub NoPanic-if :
      (b : Bool) (x y : Result RlpError A) → NoPanic x → NoPanic y → NoPanic (if b then x else y)
  NoPanic-if true x y hx hy = hx
  NoPanic-if false x y hx hy = hy

  pub NoPanic-fields_of :
      (item : RlpItem) (f : List RlpItem → Result RlpError A)
      → ((x : List RlpItem) → NoPanic (f x))
      → NoPanic (fields_of item >>= f)
  NoPanic-fields_of (bytes x) f k = Yields.error
  NoPanic-fields_of (list x) f k = k _

  map_result-NoPanic :
      (f : RlpItem → Result RlpError A)
      → ((item : RlpItem) → NoPanic (f item))
      → (x : List RlpItem) → NoPanic (map_result f x)
  map_result-NoPanic f h [] = Yields.value tt
  map_result-NoPanic f h (y ∷ x) =
      Yields-bind (h y) (λ a _. Yields-bind (map_result-NoPanic f h x) (λ ys _. Yields.value tt))

pub decode_list_of-NoPanic :
    {A : Type 0} (f : RlpItem → Result RlpError A) (item : RlpItem)
    → ((item : RlpItem) → NoPanic (f item))
    → NoPanic (decode_list_of f item)
unfolding decode_list_of
decode_list_of-NoPanic f item h = NoPanic-fields_of item (map_result f) (map_result-NoPanic f h)

pub uint_from_item-NoPanic : (w : ℕ) (item : RlpItem) → NoPanic (uint_from_item w item)
unfolding uint_from_item
uint_from_item-NoPanic w (bytes x) =
    Yields-raise_if (ltb w (length x)) (invalid_length (length x))
      {r = copy_to_end w x >>= λ arr. ok (from_be arr)}
      λ h. rw (copy_to_end-le {E = RlpError} w x (le_of_ltb-false w (length x) h)) (Yields.value tt)
uint_from_item-NoPanic w (list x) = Yields.error

pub vec_from_item-NoPanic : (item : RlpItem) → NoPanic (vec_from_item item)
unfolding vec_from_item
vec_from_item-NoPanic (bytes x) = Yields.value tt
vec_from_item-NoPanic (list x) = Yields.error

pub array_from_item-NoPanic : (n : ℕ) (item : RlpItem) → NoPanic (array_from_item n item)
unfolding array_from_item
array_from_item-NoPanic n (bytes x) = NoPanic-map_err _ (try_from n x) (
    Yields-raise_if (not (length x == n)) (wrong_length n (length x)) {r = ok x}
      (λ _. Yields.value tt))
array_from_item-NoPanic n (list x) = Yields.error

pub decode_to-NoPanic : (item : RlpItem) → NoPanic (decode_to item)
unfolding decode_to
decode_to-NoPanic (bytes []) = Yields.value tt
decode_to-NoPanic (bytes (b ∷ rest)) =
    Yields-bind (array_from_item-NoPanic 20 (bytes (b ∷ rest))) (λ a _. Yields.value tt)
decode_to-NoPanic (list x) = Yields.error

pub ruleset no_panic = (
  NoPanic-ok, NoPanic-err, NoPanic-fields_of, NoPanic-expect_fields, NoPanic-index, NoPanic-first,
  NoPanic-if, NoPanic-bind, uint_from_item-NoPanic, vec_from_item-NoPanic, array_from_item-NoPanic,
  decode_to-NoPanic, decode_list_of-NoPanic, refl,
)

access_list_item_from_item-NoPanic : (item : RlpItem) → NoPanic (access_list_item_from_item item)
unfolding access_list_item_from_item
access_list_item_from_item-NoPanic item = search no_panic depth 20

legacy_from_fields-NoPanic : (x : List RlpItem) → NoPanic (legacy_from_fields x)
unfolding legacy_from_fields
legacy_from_fields-NoPanic x = search no_panic depth 40 fits 20000

eip1559_from_fields-NoPanic : (x : List RlpItem) → NoPanic (eip1559_from_fields x)
unfolding eip1559_from_fields
eip1559_from_fields-NoPanic x =
    search (no_panic, access_list_item_from_item-NoPanic) depth 50 fits 20000

eip4844_from_fields-NoPanic : (x : List RlpItem) → NoPanic (eip4844_from_fields x)
unfolding eip4844_from_fields
eip4844_from_fields-NoPanic x =
    search (no_panic, access_list_item_from_item-NoPanic) depth 60 fits 20000

pub header_from_item-NoPanic : (item : RlpItem) → NoPanic (header_from_item item)
unfolding header_from_item
header_from_item-NoPanic item = search no_panic depth 40 fits 20000

pub transaction_from_item-NoPanic : (item : RlpItem) → NoPanic (transaction_from_item item)
unfolding transaction_from_item transaction_from_tag
transaction_from_item-NoPanic item =
    search
      (
        no_panic, legacy_from_fields-NoPanic, eip1559_from_fields-NoPanic,
        eip4844_from_fields-NoPanic,
      )
      depth 30 fits 20000

signed_transaction_from_item-NoPanic :
    (item : RlpItem) → NoPanic (signed_transaction_from_item item)
unfolding signed_transaction_from_item
signed_transaction_from_item-NoPanic item =
    search (no_panic, transaction_from_item-NoPanic) depth 30 fits 20000

pub block_from_item-NoPanic : (item : RlpItem) → NoPanic (block_from_item item)
unfolding block_from_item
block_from_item-NoPanic item =
    search (no_panic, header_from_item-NoPanic, signed_transaction_from_item-NoPanic) depth 30 fits
      20000

pub ruleset no_panic_items =
    (no_panic, transaction_from_item-NoPanic, header_from_item-NoPanic, block_from_item-NoPanic)
