-- ===== src/Base/Int.antt =====
-- Go's `int` where a value may be negative: signed integers over the native numbers.
use Prim.Native.Nat.{ℕ, suc, ◌-◌}
use mathlib.Core.Bool.{Bool, true, false}
use disgord.Base.Bools.{ltb, ◌==◌, if◌then◌else◌}

-- `negsuc n` is -(n + 1).
pub data ℤ : Type 0 where
  pos : ℕ → ℤ
  negsuc : ℕ → ℤ

-- The test `n == z` of a number that is not negative.
abbrev pub eq_pos : ℕ → ℤ → Bool
eq_pos n (pos m) = n == m
eq_pos n (negsuc m) = false

abbrev pub ltb_ℤ : ℤ → ℤ → Bool
ltb_ℤ (pos a) (pos b) = ltb a b
ltb_ℤ (pos a) (negsuc b) = false
ltb_ℤ (negsuc a) (pos b) = true
ltb_ℤ (negsuc a) (negsuc b) = ltb b a

-- `z--`.
abbrev pub dec_ℤ : ℤ → ℤ
dec_ℤ (pos n) = if n == 0 then negsuc 0 else pos (n - 1)
dec_ℤ (negsuc n) = negsuc (suc n)

abbrev pub eq_ℤ : ℤ → ℤ → Bool
eq_ℤ (pos a) (pos b) = a == b
eq_ℤ (pos a) (negsuc b) = false
eq_ℤ (negsuc a) (pos b) = false
eq_ℤ (negsuc a) (negsuc b) = a == b
