-- ===== src/Prelude/Words.antt =====
-- Machine words: a word is a number below its modulus, and the checked operations of Rust.
use Prim.Native.Nat.{ℕ, ◌+◌, ◌-◌, ◌*◌, ◌^◌, ◌<◌, ◌%◌}
use mathlib.Core.Option.{Option, none, some}
use rust_eth_playground.Prelude.Tests.{ltb, leb, if◌then◌else◌}

abbrev pub u64_mod : ℕ
u64_mod = 2 ^ 64

abbrev pub u128_mod : ℕ
u128_mod = 2 ^ 128

abbrev pub IsByte : ℕ → Type 0
IsByte b = b < 256

-- `as u8`.
abbrev pub as_u8 : ℕ → ℕ
as_u8 x = x % 256

-- `u64` and `usize` arithmetic of a release build, which wraps.
abbrev pub wrapping_add_u64 : ℕ → ℕ → ℕ
wrapping_add_u64 a b = (a + b) % u64_mod

abbrev pub wrapping_add_u128 : ℕ → ℕ → ℕ
wrapping_add_u128 a b = (a + b) % u128_mod

-- `checked_add`, `checked_mul` and `checked_sub` at the modulus of the width.
abbrev pub checked_add : ℕ → ℕ → ℕ → Option ℕ
checked_add modulus a b = if ltb (a + b) modulus then some (a + b) else none

abbrev pub checked_mul : ℕ → ℕ → ℕ → Option ℕ
checked_mul modulus a b = if ltb (a * b) modulus then some (a * b) else none

abbrev pub checked_sub : ℕ → ℕ → Option ℕ
checked_sub a b = if leb b a then some (a - b) else none
