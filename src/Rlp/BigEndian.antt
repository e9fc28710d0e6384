-- ===== src/Rlp/BigEndian.antt =====
-- Big-endian byte strings of any width: the value, the minimal form, and the form of fixed width
-- without its leading zeros. They stand for `from_be_bytes` and `to_be_bytes` of the standard library.
use rust_eth_playground.Prelude.{
  ℕ, zero, suc, ◌+◌, ◌*◌, ◌/◌, ◌%◌, ◌^◌, ◌≤◌, ◌<◌, ◌≡◌, refl, ◌∙◌, [], ◌∷◌, ◌++◌, length,
  length-append, replicate, leb, leb→le, ◌==◌, if◌then◌else◌, Bytes, All, All-append, IsByte, arith,
  Bool-cases, inl, inr,
}

abbrev pub push_byte : ℕ → ℕ → ℕ
push_byte acc b = acc * 256 + b

unfoldable pub from_be_from : ℕ → Bytes → ℕ
from_be_from acc [] = acc
from_be_from acc (b ∷ bs) = from_be_from (push_byte acc b) bs

-- `from_be_bytes`.
unfoldable pub from_be : Bytes → ℕ
from_be bs = from_be_from 0 bs

-- The minimal big-endian form of a value that fits in `k` bytes; zero is one byte.
unfoldable pub minimal_be : ℕ → ℕ → Bytes
minimal_be zero v = []
minimal_be (suc k) v =
    let high = minimal_be k (v / 256) in if leb v 255 then v % 256 ∷ [] else high ++ (v % 256 ∷ [])

-- `to_be_bytes` at `k` bytes.
unfoldable pub to_be : ℕ → ℕ → Bytes
to_be zero v = []
to_be (suc k) v = to_be k (v / 256) ++ (v % 256 ∷ [])

from_be_from-append :
    (acc : ℕ) (xs ys : Bytes) → from_be_from acc (xs ++ ys) ≡ from_be_from (from_be_from acc xs) ys
unfolding from_be_from
from_be_from-append acc [] ys = refl
from_be_from-append acc (x ∷ xs) ys = from_be_from-append (push_byte acc x) xs ys

pub from_be-snoc : (xs : Bytes) (b : ℕ) → from_be (xs ++ (b ∷ [])) ≡ from_be xs * 256 + b
unfolding from_be
from_be-snoc xs b = from_be_from-append 0 xs (b ∷ []) ∙ unfold from_be_from in refl

pub from_be-zeros : (n : ℕ) (xs : Bytes) → from_be (replicate n 0 ++ xs) ≡ from_be xs
unfolding from_be from_be_from
from_be-zeros zero xs = refl
from_be-zeros (suc n) xs = from_be-zeros n xs

pow_suc : (k : ℕ) → 256 ^ suc k ≡ 256 * 256 ^ k
pow_suc k = omega arith

pub from_be-minimal_be : (k v : ℕ) → v < 256 ^ k → from_be (minimal_be k v) ≡ v
unfolding minimal_be
from_be-minimal_be zero v h = unfold from_be from_be_from in omega arith
from_be-minimal_be (suc k) v h = elim (Bool-cases (leb v 255)) [
  | inl small ↦ rw small (unfold from_be from_be_from in omega (arith, leb→le v 255 small))
  | inr large ↦ rw large (
      from_be-snoc (minimal_be k (v / 256)) (v % 256)
      ∙ omega (arith, pow_suc k, from_be-minimal_be k (v / 256)))
]

pub length-minimal_be : (k v : ℕ) → length (minimal_be k v) ≤ k
unfolding minimal_be
length-minimal_be zero v = omega arith
length-minimal_be (suc k) v =
    ground
      (arith, length-append (minimal_be k (v / 256)) (v % 256 ∷ []), length-minimal_be k (v / 256))

pub length-minimal_be_pos : (k v : ℕ) → 1 ≤ length (minimal_be (suc k) v)
unfolding minimal_be
length-minimal_be_pos k v = ground (arith, length-append (minimal_be k (v / 256)) (v % 256 ∷ []))

pub minimal_be-IsByte : (k v : ℕ) → All IsByte (minimal_be k v)
unfolding minimal_be
minimal_be-IsByte zero v = tt
minimal_be-IsByte (suc k) v = elim (Bool-cases (leb v 255)) [
  | inl small ↦ rw small (omega arith)
  | inr large ↦
      rw large
        (All-append IsByte (minimal_be k (v / 256)) _ (minimal_be-IsByte k (v / 256)) (omega arith))
]

pub from_be-to_be : (k v : ℕ) → v < 256 ^ k → from_be (to_be k v) ≡ v
unfolding to_be
from_be-to_be zero v h = unfold from_be from_be_from in omega arith
from_be-to_be (suc k) v h =
    from_be-snoc (to_be k (v / 256)) (v % 256) ∙ omega (arith, pow_suc k, from_be-to_be k (v / 256))

pub length-to_be : (k v : ℕ) → length (to_be k v) ≡ k
unfolding to_be
length-to_be zero v = refl
length-to_be (suc k) v =
    length-append (to_be k (v / 256)) _ ∙ omega (arith, length-to_be k (v / 256))

pub to_be-IsByte : (k v : ℕ) → All IsByte (to_be k v)
unfolding to_be
to_be-IsByte zero v = tt
to_be-IsByte (suc k) v =
    All-append IsByte (to_be k (v / 256)) _ (to_be-IsByte k (v / 256)) (omega arith)

-- `&bytes[bytes.iter().position(|&b| b != 0).unwrap_or(bytes.len())..]`.
unfoldable pub strip_zeros : Bytes → Bytes
strip_zeros [] = []
strip_zeros (b ∷ bs) = let rest = strip_zeros bs in if b == 0 then rest else b ∷ bs

pub from_be-strip_zeros : (xs : Bytes) → from_be (strip_zeros xs) ≡ from_be xs
unfolding strip_zeros from_be from_be_from
from_be-strip_zeros [] = refl
from_be-strip_zeros (zero ∷ xs) = from_be-strip_zeros xs
from_be-strip_zeros (suc b ∷ xs) = ground arith

pub length-strip_zeros : (xs : Bytes) → length (strip_zeros xs) ≤ length xs
unfolding strip_zeros
length-strip_zeros [] = omega arith
length-strip_zeros (b ∷ xs) = ground (arith, length-strip_zeros xs)
