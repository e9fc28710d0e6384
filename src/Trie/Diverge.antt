-- ===== src/Trie/Diverge.antt =====
-- core/rlp-codec/src/trie.rs: where two paths part.
use rust_eth_playground.Prelude.{
  ℕ, ◌+◌, ◌≡◌, ◌≢◌, refl, ap, subst, [], ◌∷◌, ◌++◌, length, ◌==◌, ==_iff, Bool-cases, inl, inr,
  Bytes, bytes_beq, Option, none, some, if◌then◌else◌, false, arith, Bool,
}
use rust_eth_playground.Trie.Node.{shared_prefix_len}

-- The ways that two paths part: the first is the front of the second, the second is a shorter
-- front of the first, or they have different nibbles after what they share.
pub data Diverge : Bytes → Bytes → Type 0 where
  front :
      {xs ys : Bytes} (rest : Bytes)
      → ys ≡ xs ++ rest
      → shared_prefix_len xs ys ≡ length xs
      → Diverge xs ys
  shorter : {xs ys : Bytes} (a : ℕ) (rest : Bytes) → xs ≡ ys ++ (a ∷ rest) → Diverge xs ys
  apart :
      {xs ys : Bytes} (shared : Bytes) (a : ℕ) (left : Bytes) (b : ℕ) (right : Bytes)
      → xs ≡ shared ++ (a ∷ left)
      → ys ≡ shared ++ (b ∷ right)
      → a ≢ b
      → shared_prefix_len xs ys ≡ length shared
      → Diverge xs ys

Diverge-cons : (x : ℕ) (xs ys : Bytes) → Diverge xs ys → Diverge (x ∷ xs) (x ∷ ys)
unfolding shared_prefix_len
Diverge-cons x xs ys (front rest split known) =
    front rest (ap (◌∷◌ x) split) (ground (arith, ==_iff x x))
Diverge-cons x xs ys (shorter a rest split) = shorter a rest (ap (◌∷◌ x) split)
Diverge-cons x xs ys (apart shared a left b right split split' differ known) =
    apart (x ∷ shared) a left b right (ap (◌∷◌ x) split) (ap (◌∷◌ x) split') differ
      (ground (arith, ==_iff x x))

pub diverge : (xs ys : Bytes) → Diverge xs ys
unfolding shared_prefix_len
diverge [] ys = front ys refl refl
diverge (x ∷ xs) [] = shorter x xs refl
diverge (x ∷ xs) (y ∷ ys) = elim (Bool-cases (x == y)) [
  | inl same ↦
      subst (λ z. Diverge (x ∷ xs) (z ∷ ys)) ((==_iff x y).0 same)
        (Diverge-cons x xs ys (diverge xs ys))
  | inr differ ↦ apart [] x xs y ys refl refl (ground (arith, ==_iff x y)) (rw differ refl)
]

-- What follows a front.
abbrev pub strip : Bytes → Bytes → Option Bytes
strip [] ys = some ys
strip (x ∷ xs) [] = none
strip (x ∷ xs) (y ∷ ys) = if x == y then strip xs ys else none

abbrev pub same_after : Bytes → Option Bytes → Bool
same_after xs none = false
same_after xs (some rest) = bytes_beq xs rest

pub bytes_beq-append : (xs ys zs : Bytes) → bytes_beq (xs ++ ys) zs ≡ same_after ys (strip xs zs)
bytes_beq-append [] ys zs = refl
bytes_beq-append (x ∷ xs) ys [] = refl
bytes_beq-append (x ∷ xs) ys (z ∷ zs) = ground (arith, bytes_beq-append xs ys zs)

abbrev pub strip_more : Bytes → Option Bytes → Option Bytes
strip_more ys none = none
strip_more ys (some rest) = strip ys rest

pub strip-append : (xs ys zs : Bytes) → strip (xs ++ ys) zs ≡ strip_more ys (strip xs zs)
strip-append [] ys zs = refl
strip-append (x ∷ xs) ys [] = refl
strip-append (x ∷ xs) ys (z ∷ zs) = ground (arith, strip-append xs ys zs)

pub strip-length :
    (xs ys rest : Bytes) → strip xs ys ≡ some rest → length ys ≡ length xs + length rest
strip-length [] ys rest h = ground arith
strip-length (x ∷ xs) [] rest h = cc
strip-length (x ∷ xs) (y ∷ ys) rest h = ground (arith, strip-length xs ys rest)
