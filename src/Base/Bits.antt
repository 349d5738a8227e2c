-- ===== src/Base/Bits.antt =====
-- The bits of a number under `bit_and`, `bit_or`, `bit_xor` and the complement, which permissions and
-- intents are made of.
use Prim.Native.Nat.{bit_and, bit_or, digits, bit_and-bitwise, bit_or-bitwise, min, max}
use Prim.Native.Nat.{ℕ, zero, suc, ◌+◌, ◌*◌, ◌/◌, ◌%◌, ◌≤◌, ◌<◌, bit_xor, bit_xor-bitwise, differ}
use mathlib.Core.Path.{◌≡◌, refl, sym, ap, ◌∙◌}
use native.Mathlib.Omega.{arith}
use native.Mathlib.Nat.{mul_assoc}
use native.Mathlib.Decide.{ℕ_discrete}

-- The digit of `x` for 2 ^ i.
pub bit : ℕ → ℕ → ℕ
bit zero x = x % 2
bit (suc i) x = bit i (x / 2)

pub bit-lt : (i x : ℕ) → bit i x < 2
unfolding bit
bit-lt zero x = omega arith
bit-lt (suc i) x = bit-lt i (x / 2)

bit-digit : (i v d : ℕ) → d < 2 → bit (suc i) (v * 2 + d) ≡ bit i v
unfolding bit
bit-digit i v d h = let e : (v * 2 + d) / 2 ≡ v = omega arith in ap (bit i) e

module _ (z : ℕ → ℕ) (f : ℕ → ℕ → ℕ) (ends : (b : ℕ) → z b ≡ z (b / 2) * 2 + f 0 (b % 2))
    (narrow : (x y : ℕ) → x < 2 → y < 2 → f x y < 2) where
  abbrev op : ℕ → ℕ → ℕ
  op a b = digits z f a a b

  -- More rounds than there are digits change nothing.
  digits_fuel : (n m a b : ℕ) → a ≤ n → a ≤ m → digits z f n a b ≡ digits z f m a b
  digits_fuel zero zero zero b p q = refl
  digits_fuel zero (suc m) zero b p q = refl
  digits_fuel (suc n) zero zero b p q = refl
  digits_fuel (suc n) (suc m) zero b p q = refl
  digits_fuel zero m (suc a) b p q = absurd (omega arith)
  digits_fuel (suc n) zero (suc a) b p q = absurd (omega arith)
  digits_fuel (suc n) (suc m) (suc a) b p q =
      ap (λ v. v * 2 + f (suc a % 2) (b % 2))
        (digits_fuel n m (suc a / 2) (b / 2) (omega arith) (omega arith))

  op_step : (a b : ℕ) → op a b ≡ op (a / 2) (b / 2) * 2 + f (a % 2) (b % 2)
  op_step zero b = ends b
  op_step (suc a) b =
      ap (λ v. v * 2 + f (suc a % 2) (b % 2))
        (digits_fuel a (suc a / 2) (suc a / 2) (b / 2) (omega arith) (omega arith))

  bit-op : (i a b : ℕ) → bit i (op a b) ≡ f (bit i a) (bit i b)
  unfolding bit
  bit-op zero a b =
      let d : f (a % 2) (b % 2) < 2 = narrow (a % 2) (b % 2) (omega arith) (omega arith) in
      omega (arith, op_step a b, d)
  bit-op (suc i) a b =
      let d : f (a % 2) (b % 2) < 2 = narrow (a % 2) (b % 2) (omega arith) (omega arith) in
      ap (bit (suc i)) (op_step a b)
      ∙ bit-digit i (op (a / 2) (b / 2)) (f (a % 2) (b % 2)) d
      ∙ bit-op i (a / 2) (b / 2)

pub bit-bit_and : (i a b : ℕ) → bit i (bit_and a b) ≡ min (bit i a) (bit i b)
bit-bit_and i a b =
    ap (bit i) (bit_and-bitwise a b)
    ∙ bit-op (λ b. 0) min (λ b. omega arith) (λ x y p q. omega arith) i a b

pub bit-bit_or : (i a b : ℕ) → bit i (bit_or a b) ≡ max (bit i a) (bit i b)
bit-bit_or i a b =
    ap (bit i) (bit_or-bitwise a b)
    ∙ bit-op (λ b. b) max (λ b. omega arith) (λ x y p q. omega arith) i a b

pub pow2 : ℕ → ℕ
pow2 zero = 1
pow2 (suc w) = 2 * pow2 w

pub pow2_pos : (i : ℕ) → 0 < pow2 i
unfolding pow2
pow2_pos zero = omega arith
pow2_pos (suc i) = omega (arith, pow2_pos i)

pub pow2-suc : (i : ℕ) → pow2 (suc i) ≡ 2 * pow2 i
unfolding pow2
pow2-suc i = refl

pub pow2_zero : pow2 0 ≡ 1
unfolding pow2
pow2_zero = refl

-- Two numbers that add up to ones alone have opposite bits.
pub bit_opposite : (w i a b : ℕ) → a + b + 1 ≡ pow2 w → i < w → bit i a + bit i b ≡ 1
unfolding bit pow2
bit_opposite zero i a b h k = absurd (omega arith)
bit_opposite (suc w) zero a b h k = omega (arith, h)
bit_opposite (suc w) (suc i) a b h k =
    bit_opposite w i (a / 2) (b / 2) (omega (arith, h)) (omega arith)

pub pow2_64 : pow2 64 ≡ 18446744073709551616
unfolding pow2
pow2_64 = refl

differ_zero : (x : ℕ) → differ x 0 ≡ x
differ_zero zero = refl
differ_zero (suc x) = refl

differ_same : (x : ℕ) → differ x x ≡ 0
differ_same zero = refl
differ_same (suc x) = differ_same x

differ-lt : (x y : ℕ) → x < 2 → y < 2 → differ x y < 2
differ-lt zero y p q = q
differ-lt (suc zero) zero p q = p
differ-lt (suc zero) (suc y) p q = omega (arith, q)
differ-lt (suc (suc x)) y p q = absurd (omega (arith, p))

pub bit-bit_xor : (i a b : ℕ) → bit i (bit_xor a b) ≡ differ (bit i a) (bit i b)
bit-bit_xor i a b =
    ap (bit i) (bit_xor-bitwise a b)
    ∙ bit-op (λ b. b) differ (λ b. omega arith) (λ x y p q. differ-lt x y p q) i a b

-- `x` without its `i` lowest digits
pub shr : ℕ → ℕ → ℕ
shr zero x = x
shr (suc i) x = shr i (x / 2)

pub shr_zero : (x : ℕ) → shr 0 x ≡ x
unfolding shr
shr_zero x = refl

pub shr-suc : (i x : ℕ) → shr (suc i) x ≡ shr i x / 2
unfolding shr
shr-suc zero x = refl
shr-suc (suc i) x = shr-suc i (x / 2)

pub bit-shr : (i x : ℕ) → bit i x ≡ shr i x % 2
unfolding bit shr
bit-shr zero x = refl
bit-shr (suc i) x = bit-shr i (x / 2)

digits_and : (n a : ℕ) → digits (λ b. 0) min n a 0 ≡ 0
digits_and zero a = refl
digits_and (suc n) zero = refl
digits_and (suc n) (suc a) = omega (arith, digits_and n (suc a / 2))

digits_xor : (n a : ℕ) → a ≤ n → digits (λ b. b) differ n a 0 ≡ a
digits_xor zero zero h = refl
digits_xor zero (suc a) h = absurd (omega arith)
digits_xor (suc n) zero h = refl
digits_xor (suc n) (suc a) h =
    omega (arith, digits_xor n (suc a / 2) (omega (arith, h)), differ_zero (suc a % 2))

and_step : (a b : ℕ) → bit_and a b ≡ bit_and (a / 2) (b / 2) * 2 + min (a % 2) (b % 2)
and_step a b =
    bit_and-bitwise a b
    ∙ op_step (λ b. 0) min (λ b. omega arith) (λ x y p q. omega arith) a b
    ∙ ap (λ v. v * 2 + min (a % 2) (b % 2)) (sym (bit_and-bitwise (a / 2) (b / 2)))

xor_step : (a b : ℕ) → bit_xor a b ≡ bit_xor (a / 2) (b / 2) * 2 + differ (a % 2) (b % 2)
xor_step a b =
    bit_xor-bitwise a b
    ∙ op_step (λ b. b) differ (λ b. omega arith) differ-lt a b
    ∙ ap (λ v. v * 2 + differ (a % 2) (b % 2)) (sym (bit_xor-bitwise (a / 2) (b / 2)))

and_zero : (a : ℕ) → bit_and a 0 ≡ 0
and_zero a = bit_and-bitwise a 0 ∙ digits_and a a

xor_zero : (a : ℕ) → bit_xor a 0 ≡ a
xor_zero a = bit_xor-bitwise a 0 ∙ digits_xor a a (omega arith)

and_double : (a b : ℕ) → bit_and (2 * a) (2 * b) ≡ 2 * bit_and a b
and_double a b =
    let p : 2 * a / 2 ≡ a = omega arith in
    let q : 2 * b / 2 ≡ b = omega arith in
    and_step (2 * a) (2 * b)
    ∙ ap (λ v. bit_and v (2 * b / 2) * 2 + min (2 * a % 2) (2 * b % 2)) p
    ∙ ap (λ v. bit_and a v * 2 + min (2 * a % 2) (2 * b % 2)) q
    ∙ omega arith

xor_double : (a b : ℕ) → bit_xor (2 * a) (2 * b) ≡ 2 * bit_xor a b
xor_double a b =
    let p : 2 * a / 2 ≡ a = omega arith in
    let q : 2 * b / 2 ≡ b = omega arith in
    let r : 2 * a % 2 ≡ 0 = omega arith in
    let s : 2 * b % 2 ≡ 0 = omega arith in
    xor_step (2 * a) (2 * b)
    ∙ ap (λ v. bit_xor v (2 * b / 2) * 2 + differ (2 * a % 2) (2 * b % 2)) p
    ∙ ap (λ v. bit_xor a v * 2 + differ (2 * a % 2) (2 * b % 2)) q
    ∙ ap (λ v. bit_xor a b * 2 + differ v (2 * b % 2)) r
    ∙ ap (λ v. bit_xor a b * 2 + differ 0 v) s
    ∙ omega arith

xor_low : (y : ℕ) → bit_xor y (y % 2) ≡ 2 * (y / 2)
xor_low y =
    let p : y % 2 / 2 ≡ 0 = omega arith in
    let q : y % 2 % 2 ≡ y % 2 = omega arith in
    xor_step y (y % 2)
    ∙ ap (λ v. bit_xor (y / 2) v * 2 + differ (y % 2) (y % 2 % 2)) p
    ∙ ap (λ v. bit_xor (y / 2) 0 * 2 + differ (y % 2) v) q
    ∙ omega (arith, xor_zero (y / 2), differ_same (y % 2))

-- The lowest digit, taken out and taken off, of a number that ends in `i` zeros.
pub and_lowest : (i y : ℕ) → bit_and (pow2 i * y) (pow2 i) ≡ pow2 i * (y % 2)
unfolding pow2
and_lowest zero y =
    let e : 1 * y ≡ y = omega arith in
    ap (λ v. bit_and v 1) e ∙ and_step y 1 ∙ omega (arith, and_zero (y / 2))
and_lowest (suc i) y =
    ap (λ v. bit_and v (2 * pow2 i)) (mul_assoc 2 (pow2 i) y)
    ∙ and_double (pow2 i * y) (pow2 i)
    ∙ ap (λ v. 2 * v) (and_lowest i y)
    ∙ sym (mul_assoc 2 (pow2 i) (y % 2))

pub xor_lowest : (i y : ℕ) → bit_xor (pow2 i * y) (pow2 i * (y % 2)) ≡ pow2 (suc i) * (y / 2)
unfolding pow2
xor_lowest zero y =
    let e : 1 * y ≡ y = omega arith in
    let d : 1 * (y % 2) ≡ y % 2 = omega arith in
    ap (λ v. bit_xor v (1 * (y % 2))) e ∙ ap (bit_xor y) d ∙ xor_low y
xor_lowest (suc i) y =
    ap (λ v. bit_xor v (2 * pow2 i * (y % 2))) (mul_assoc 2 (pow2 i) y)
    ∙ ap (bit_xor (2 * (pow2 i * y))) (mul_assoc 2 (pow2 i) (y % 2))
    ∙ xor_double (pow2 i * y) (pow2 i * (y % 2))
    ∙ ap (λ v. 2 * v) (xor_lowest i y)
    ∙ sym (mul_assoc 2 (2 * pow2 i) (y / 2))

pub bit-zero : (i : ℕ) → bit i 0 ≡ 0
unfolding bit
bit-zero zero = refl
bit-zero (suc i) = bit-zero i

-- A number above 0 has a bit.
pub some_bit : (n x : ℕ) → x ≤ n → 0 < x → (i : ℕ) × (bit i x ≡ 1)
unfolding bit
some_bit zero x h p = absurd (omega arith)
some_bit (suc n) x h p = elim (ℕ_discrete (x % 2) 1) [
  | yes odd ↦ (0, odd)
  | no even ↦
      let d : x % 2 < 2 = omega arith in
      let k = some_bit n (x / 2) (omega (arith, h, p)) (ground (arith, even, d, p)) in
      (suc k.0, k.1)
]
