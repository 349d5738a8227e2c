-- ===== src/Gateway/Intents/Printed.antt =====
-- Intent.String (internal/gateway/intents.go): what it prints.
use Prim.Native.Nat.{bit_and, bit_xor}
use mathlib.Core.List.{append-nil, append_assoc}
use disgord.Base.{
  ℕ, zero, suc, ◌+◌, ◌*◌, ◌%◌, ◌<◌, ◌≡◌, refl, sym, ap, ◌∙◌, ◌≢◌, List, [], ◌∷◌, ◌++◌, Option, some,
  true, false, ◌==◌, if◌then◌else◌, arith, length, length-append, ℕ_discrete,
}
use disgord.Base.Bits.{
  bit, bit-lt, pow2, pow2_pos, pow2-suc, pow2_zero, shr, shr_zero, shr-suc, bit-shr, and_lowest,
  xor_lowest,
}
use disgord.Base.Text.{Text, bytes, same_bytes, trim_suffix, join}
use disgord.Gateway.Intents.{intent_name, separator, bit_flag, string_loop, finish, intents_string}

-- The names of the intents that are set, from the bit `i` on, for `w` bits.
unfoldable pub set_names : ℕ → ℕ → ℕ → List Text
set_names zero i x = []
set_names (suc w) i x =
    let rest = set_names w (suc i) x in if bit i x == 1 then intent_name (pow2 i) ∷ rest else rest

-- each name with the separator behind it
ended : List Text → Text
ended [] = []
ended (t ∷ ts) = t ++ (separator ++ ended ts)

same_bytes-length : (xs ys : Text) → same_bytes xs ys ≡ true → length xs ≡ length ys
unfolding same_bytes
same_bytes-length [] [] h = refl
same_bytes-length [] (y ∷ ys) h = ground (arith, h)
same_bytes-length (x ∷ xs) [] h = ground (arith, h)
same_bytes-length (x ∷ xs) (y ∷ ys) h = ground (arith, same_bytes-length xs ys)

same_bytes_refl : (xs : Text) → same_bytes xs xs ≡ true
unfolding same_bytes
same_bytes_refl [] = refl
same_bytes_refl (x ∷ xs) = ground (arith, same_bytes_refl xs)

trim_suffix-append : (xs : Text) (y : ℕ) (ys : Text) → trim_suffix (xs ++ (y ∷ ys)) (y ∷ ys) ≡ xs
unfolding trim_suffix
trim_suffix-append [] y ys = ground (arith, same_bytes_refl (y ∷ ys))
trim_suffix-append (x ∷ xs) y ys = ground (
  arith,
  same_bytes-length (x ∷ (xs ++ (y ∷ ys))) (y ∷ ys),
  length-append xs (y ∷ ys),
  trim_suffix-append xs y ys,
)

ended-join : (t : Text) (ts : List Text) → ended (t ∷ ts) ≡ join separator (t ∷ ts) ++ separator
unfolding ended join
ended-join t [] = ap (λ s. t ++ s) (append-nil separator)
ended-join t (u ∷ ts) =
    ap (λ s. t ++ (separator ++ s)) (ended-join u ts)
    ∙ ap (λ s. t ++ s) (sym (append_assoc separator (join separator (u ∷ ts)) separator))
    ∙ sym (append_assoc t (separator ++ join separator (u ∷ ts)) separator)

mul_pos : (a b : ℕ) → 0 < a → 0 < b → 0 < a * b
mul_pos a b h k = grind arith

-- one round of the loop, with the flag that it takes off
body : ℕ → ℕ → ℕ → ℕ → Text → Option Text
body fuel i intents intent output =
    let rest =
      string_loop fuel (i + 1) (bit_xor intents intent)
        (if intent == 0 then output else output ++ (intent_name intent ++ separator)) in
    if intents == 0 then some output else rest

string_loop-body :
    (fuel i v : ℕ) (output : Text)
    → string_loop (suc fuel) i v output ≡ body fuel i v (bit_and v (bit_flag i)) output
unfolding string_loop body
string_loop-body fuel i v output = refl

bit_flag_lem : (i : ℕ) → i < 64 → bit_flag i ≡ pow2 i
unfolding bit_flag
bit_flag_lem i h = ground (arith, h)

trim_ended :
    (ts : List Text)
    → trim_suffix (bytes "{ " ++ ended ts) separator ≡ bytes "{ " ++ join separator ts
unfolding trim_suffix same_bytes ended join
trim_ended [] = refl
trim_ended (t ∷ ts) =
    let inner : Text = join separator (t ∷ ts) in
    ap (λ l. trim_suffix (bytes "{ " ++ l) separator) (ended-join t ts)
    ∙ trim_suffix-append (bytes "{ " ++ inner) 32 (bytes "| ")

module _ (x : ℕ) where
  none_set : (w i : ℕ) → shr i x ≡ 0 → set_names w i x ≡ []
  unfolding set_names
  none_set zero i h = refl
  none_set (suc w) i h =
      ground (arith, h, bit-shr i x, none_set w (suc i) (shr-suc i x ∙ omega (arith, h)))

  -- a round while some intent is left
  one_round :
      (fuel i : ℕ) (output : Text)
      → i < 64
      → shr i x ≢ 0
      → string_loop (suc fuel) i (pow2 i * shr i x) output
        ≡ string_loop fuel
            (suc i)
            (pow2 (suc i) * shr (suc i) x)
            (if bit i x == 1 then output ++ (intent_name (pow2 i) ++ separator) else output)
  unfolding body
  one_round fuel i output small left =
      let y : ℕ = shr i x in
      let v : ℕ = pow2 i * y in
      let intent : ℕ = pow2 i * (y % 2) in
      let flag : bit_and v (bit_flag i) ≡ intent =
        ap (bit_and v) (bit_flag_lem i small) ∙ and_lowest i y in
      let rest : bit_xor v intent ≡ pow2 (suc i) * shr (suc i) x =
        xor_lowest i y ∙ ap (λ z. pow2 (suc i) * z) (sym (shr-suc i x)) in
      string_loop-body fuel i v output
      ∙ ap (λ t. body fuel i v t output) flag
      ∙ (elim (ℕ_discrete (bit i x) 1) [
        | yes one ↦
            let e : intent ≡ pow2 i =
              ap (λ d. pow2 i * d) (sym (bit-shr i x) ∙ one) ∙ omega arith in
            ground (arith, e, rest, one, pow2_pos i, mul_pos (pow2 i) y, left)
        | no zero' ↦
            let d : y % 2 ≡ 0 = omega (arith, zero', bit-lt i x, bit-shr i x) in
            let e : intent ≡ 0 = ap (λ d. pow2 i * d) d ∙ omega arith in
            ground (arith, e, rest, zero', pow2_pos i, mul_pos (pow2 i) y, left)
      ])

  -- a round when none is left
  over :
      (fuel i : ℕ) (output : Text)
      → shr i x ≡ 0
      → string_loop (suc fuel) i (pow2 i * shr i x) output ≡ some output
  unfolding body
  over fuel i output none_left =
      let e : pow2 i * shr i x ≡ 0 = ap (λ d. pow2 i * d) none_left ∙ omega arith in
      string_loop-body fuel i (pow2 i * shr i x) output ∙ ground (arith, e)

  -- The loop at the bit `i`, where the lower bits are taken off.
  string_loop_lem :
      (w i fuel : ℕ) (output : Text)
      → w + i ≡ 64
      → shr i x < pow2 w
      → w < fuel
      → string_loop fuel i (pow2 i * shr i x) output ≡ some (output ++ ended (set_names w i x))
  unfolding ended set_names
  string_loop_lem w i zero output n small enough = absurd (omega (arith, enough))
  string_loop_lem zero i (suc fuel) output n small enough =
      over fuel i output (omega (arith, small, pow2_zero)) ∙ ap some (sym (append-nil output))
  string_loop_lem (suc w) i (suc fuel) output n small enough = elim (ℕ_discrete (shr i x) 0) [
    | yes none_left ↦
        over fuel i output none_left
        ∙ ap some (
            sym (append-nil output)
            ∙ ap (λ ts. output ++ ended ts) (sym (none_set (suc w) i none_left)))
    | no left ↦
        let half : shr (suc i) x < pow2 w = omega (arith, shr-suc i x, small, pow2-suc w) in
        let named : Text = output ++ (intent_name (pow2 i) ++ separator) in
        one_round fuel i output (omega (arith, n)) left ∙ (elim (ℕ_discrete (bit i x) 1) [
          | yes one ↦
              let e : (bit i x == 1) ≡ true = ground (arith, one) in
              let name : Text = intent_name (pow2 i) in
              let later : Text = ended (set_names w (suc i) x) in
              rw e (
                string_loop_lem w (suc i) fuel named (omega (arith, n)) half (omega (arith, enough))
                ∙ ap some (
                    append_assoc output (name ++ separator) later
                    ∙ ap (λ t. output ++ t) (append_assoc name separator later)))
          | no zero' ↦
              let e : (bit i x == 1) ≡ false = ground (arith, zero') in
              rw e (
                string_loop_lem w (suc i) fuel output (omega (arith, n)) half
                  (omega (arith, enough)))
        ])
  ]

  -- The intents of a uint64 are printed, in the time that its 64 bits take, as the names of those that are
  -- set, the lowest first, with ` | ` between them, in braces; a bit that is no intent has an empty name.
  intents_string_lem :
      x < pow2 64
      → intents_string x ≡ some ((bytes "{ " ++ join separator (set_names 64 0 x)) ++ bytes " }")
  unfolding intents_string finish
  intents_string_lem h =
      let start : pow2 0 * shr 0 x ≡ x =
        ap (λ p. p * shr 0 x) pow2_zero ∙ omega (arith, shr_zero x) in
      ap (λ v. finish (string_loop 65 0 v (bytes "{ "))) (sym start)
      ∙ ap finish
          (string_loop_lem 64 0 65 (bytes "{ ") refl (omega (arith, h, shr_zero x)) (omega arith))
      ∙ ap (λ t. some (t ++ bytes " }")) (trim_ended (set_names 64 0 x))
