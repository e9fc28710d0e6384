-- ===== src/Prelude/Slices.antt =====
-- The slices of Rust, `[..n]` and `[n..]`, which panic out of range, and the copy of a slice to the
-- end of an array of zeros.
use Prim.Native.Nat.{ℕ, ◌-◌, ◌≤◌}
use mathlib.Core.Path.{◌≡◌, refl}
use mathlib.Core.List.{◌++◌}
use native.Mathlib.Omega.{arith}
use rust_eth_playground.Prelude.Tests.{ltb, le→ltb_false, if◌then◌else◌}
use rust_eth_playground.Prelude.Lists.{
  length, take, drop, replicate, length-append, take-append_length, drop-append_length,
}
use rust_eth_playground.Prelude.Maps.{Bytes}
use rust_eth_playground.Prelude.Results.{Result, ok, panic}

module _ {E : Type 0} where
  unfoldable pub slice_to : ℕ → Bytes → Result E Bytes
  slice_to n xs = if ltb (length xs) n then panic else ok (take n xs)

  unfoldable pub slice_from : ℕ → Bytes → Result E Bytes
  slice_from n xs = if ltb (length xs) n then panic else ok (drop n xs)

  -- `arr[w - xs.len()..].copy_from_slice(xs)` on `[0; w]`.
  unfoldable pub copy_to_end : ℕ → Bytes → Result E Bytes
  copy_to_end w xs = if ltb w (length xs) then panic else ok (replicate (w - length xs) 0 ++ xs)

  pub slice_to-le : (n : ℕ) (xs : Bytes) → n ≤ length xs → slice_to n xs ≡ ok (take n xs)
  unfolding slice_to
  slice_to-le n xs h = rw (le→ltb_false (length xs) n h) refl

  pub slice_from-le : (n : ℕ) (xs : Bytes) → n ≤ length xs → slice_from n xs ≡ ok (drop n xs)
  unfolding slice_from
  slice_from-le n xs h = rw (le→ltb_false (length xs) n h) refl

  pub copy_to_end-le :
      (w : ℕ) (xs : Bytes)
      → length xs ≤ w
      → copy_to_end w xs ≡ ok (replicate (w - length xs) 0 ++ xs)
  unfolding copy_to_end
  copy_to_end-le w xs h = rw (le→ltb_false w (length xs) h) refl

  pub slice_to-append : (xs ys : Bytes) → slice_to (length xs) (xs ++ ys) ≡ ok xs
  slice_to-append xs ys =
      rw (slice_to-le (length xs) (xs ++ ys) (omega (arith, length-append xs ys)))
        (rw (take-append_length xs ys) refl)

  pub slice_from-append : (xs ys : Bytes) → slice_from (length xs) (xs ++ ys) ≡ ok ys
  slice_from-append xs ys =
      rw (slice_from-le (length xs) (xs ++ ys) (omega (arith, length-append xs ys)))
        (rw (drop-append_length xs ys) refl)
