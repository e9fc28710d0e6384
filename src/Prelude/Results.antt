-- ===== src/Prelude/Results.antt =====
-- `Result<A, E>` of Rust with one more outcome: `panic` is a thread that panics, or a model that
-- gave up because its fuel ran out.
use mathlib.Core.Path.{◌≡◌, refl, subst}
use mathlib.Core.Logic.{◌≢◌}
use mathlib.Core.Bool.{Bool, true, false}
use mathlib.Core.Option.{Option, none, some}
use mathlib.Core.List.{List, [], ◌∷◌}
use rust_eth_playground.Prelude.Tests.{if◌then◌else◌}

pub data Result {ℓ} (E : Type 0) (A : Type ℓ) : Type ℓ where
  ok : A → Result E A
  err : E → Result E A
  panic : Result E A

-- The `?` of Rust inside a `do` block.
infixl 5 ◌>>=◌ ◌>>◌
abbrev pub ◌>>=◌ {ℓ κ} :
    {E : Type 0} {A : Type ℓ} {B : Type κ} → Result E A → (A → Result E B) → Result E B
ok a >>= f = f a
err e >>= f = err e
panic >>= f = panic

abbrev pub ◌>>◌ {ℓ} : {E : Type 0} {B : Type ℓ} → Result E (Unit {0}) → Result E B → Result E B
m >> k = m >>= λ _. k

-- `return Err(e)` behind a test: the error is raised when the test holds.
abbrev pub raise_if : {E : Type 0} → Bool → E → Result E (Unit {0})
raise_if true e = err e
raise_if false e = ok tt

-- `Option::ok_or`.
abbrev pub ok_or {ℓ} : {E : Type 0} {A : Type ℓ} → Option A → E → Result E A
ok_or none e = err e
ok_or (some a) e = ok a

-- `Result::map_err`, and the `From` conversion that `?` applies to an error.
abbrev pub map_err {ℓ} : {E F : Type 0} {A : Type ℓ} → (E → F) → Result E A → Result F A
map_err f (ok a) = ok a
map_err f (err e) = err (f e)
map_err f panic = panic

-- `iter().map(f).collect::<Result<Vec<_>, _>>()`, and the loop that pushes `f(x)?` for each `x`.
abbrev pub map_result {ℓ κ} :
    {E : Type 0} {A : Type ℓ} {B : Type κ} → (A → Result E B) → List A → Result E (List B)
map_result f [] = ok []
map_result f (x ∷ xs) = f x >>= λ y. map_result f xs >>= λ ys. ok (y ∷ ys)

-- What a chain that ends well went through.
module _ {ℓ κ} {E : Type 0} {A : Type ℓ} {B : Type κ} {y : B} (k : A → Result E B) where
  chained : (r : Result E A) → (r >>= k) ≡ ok y → (x : A) × (r ≡ ok x) × (k x ≡ ok y)
  chained panic same = cc
  chained (err e) same = cc
  chained (ok x) same = (x, refl, same)

pub >>=-eq-ok {ℓ κ} :
    {E : Type 0} {A : Type ℓ} {B : Type κ} (r : Result E A) (k : A → Result E B) {y : B}
    → (r >>= k) ≡ ok y
    → (x : A) × (r ≡ ok x) × (k x ≡ ok y)
>>=-eq-ok r k same = chained k r same

-- The run ends without a panic, and `P` holds of its value if it has one.
pub data Yields {ℓ κ} {E : Type 0} {A : Type ℓ} (P : A → Type κ) : Result E A → Type (ℓ ⊔ κ) where
  value : {a : A} → P a → Yields P (ok a)
  error : {e : E} → Yields P (err e)

module _ {ℓ κ} {E : Type 0} {A : Type ℓ} {P : A → Type κ} where
  pub Yields-ok : {r : Result E A} {a : A} → Yields P r → r ≡ ok a → P a
  Yields-ok (value h) q = subst P (cc) h
  Yields-ok error q = cc

  pub Yields-panic : {r : Result E A} → Yields P r → r ≢ panic
  Yields-panic (value h) = cc
  Yields-panic error = cc

  pub Yields-bind {ℓ' κ'} :
      {B : Type ℓ'} {Q : B → Type κ'} {r : Result E A} {f : A → Result E B}
      → Yields P r
      → ((a : A) → P a → Yields Q (f a))
      → Yields Q (r >>= f)
  Yields-bind (value {a} h) k = k a h
  Yields-bind error k = error

  pub Yields-raise_if :
      (b : Bool) (e : E) {r : Result E A} → (b ≡ false → Yields P r) → Yields P (raise_if b e >> r)
  Yields-raise_if true e h = error
  Yields-raise_if false e h = h refl

  pub Yields-if :
      (b : Bool) {x y : Result E A}
      → (b ≡ true → Yields P x)
      → (b ≡ false → Yields P y)
      → Yields P (if b then x else y)
  Yields-if true hx hy = hx refl
  Yields-if false hx hy = hy refl

  pub Yields-map {κ'} :
      {Q : A → Type κ'} {r : Result E A} → Yields P r → ((a : A) → P a → Q a) → Yields Q r
  Yields-map (value {a} h) k = value (k a h)
  Yields-map error k = error

pub ok-injective {ℓ} :
    {E : Type 0} {A : Type ℓ} {a b : A} → ◌≡◌ {A = Result E A} (ok a) (ok b) → a ≡ b
ok-injective h = cc

pub ok_or-eq-ok {ℓ} :
    {E : Type 0} {A : Type ℓ} (o : Option A) (e : E) {a : A} → ok_or o e ≡ ok a → o ≡ some a
ok_or-eq-ok none e h = cc
ok_or-eq-ok (some b) e h = cc
