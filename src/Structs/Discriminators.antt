-- ===== src/Structs/Discriminators.antt =====
-- Discriminator of struct.go: a uint16 that is printed with four digits, and its JSON form. A string
-- is the list of its bytes.
use disgord.Base.{
  ℕ, zero, suc, ◌+◌, ◌-◌, ◌*◌, ◌/◌, ◌%◌, ◌^◌, ◌<◌, ◌≡◌, refl, ap, ◌∙◌, inl, inr, false, List, [],
  ◌∷◌, ◌++◌, arith, ltb, ◌==◌, if◌then◌else◌, length, take, drop, replicate, length-append,
  Bool-cases,
}

-- `strconv.Itoa`, on fuel: the number of digits that there may be
unfoldable pub itoa : ℕ → ℕ → List ℕ
itoa zero n = []
itoa (suc fuel) n = if ltb n 10 then (48 + n) ∷ [] else itoa fuel (n / 10) ++ ((48 + n % 10) ∷ [])

-- `Discriminator.String`; a uint16 has at most five digits
unfoldable pub discriminator_string : ℕ → List ℕ
discriminator_string d =
    if d == 0
    then []
    else if d == 1
    then 48 ∷ 48 ∷ 48 ∷ 49 ∷ []
    else if ltb d 1000
    then replicate (4 - length (itoa 5 d)) 48 ++ itoa 5 d
    else itoa 5 d

-- `MarshalJSON`
unfoldable pub marshal_discriminator : ℕ → List ℕ
marshal_discriminator d = 34 ∷ (discriminator_string d ++ (34 ∷ []))

-- the loop of UnmarshalJSON, on the bytes that it visits
unfoldable pub read_digits : ℕ → List ℕ → ℕ
read_digits d [] = d
read_digits d (b ∷ bytes) = read_digits ((d * 10 + (b + 256 - 48) % 256) % 2 ^ 16) bytes

-- `UnmarshalJSON`: the bytes but the first and the last
unfoldable pub unmarshal_discriminator : List ℕ → ℕ
unmarshal_discriminator bytes = read_digits 0 (take (length bytes - 2) (drop 1 bytes))

read_digits-append :
    (d : ℕ) (xs ys : List ℕ) → read_digits d (xs ++ ys) ≡ read_digits (read_digits d xs) ys
unfolding read_digits
read_digits-append d [] ys = refl
read_digits-append d (x ∷ xs) ys =
    read_digits-append ((d * 10 + (x + 256 - 48) % 256) % 2 ^ 16) xs ys

read_digits-zeros : (n : ℕ) (xs : List ℕ) → read_digits 0 (replicate n 48 ++ xs) ≡ read_digits 0 xs
unfolding read_digits
read_digits-zeros zero xs = refl
read_digits-zeros (suc n) xs = read_digits-zeros n xs

pow10 : ℕ → ℕ
pow10 zero = 1
pow10 (suc n) = 10 * pow10 n

fuel_left : (fuel n : ℕ) → n < 10 * pow10 fuel → ltb n 10 ≡ false → 0 < fuel
unfolding pow10
fuel_left zero n h k = absurd (ground (arith, h, k))
fuel_left (suc fuel) n h k = omega arith

read_digits-itoa :
    (fuel n : ℕ) → n < pow10 fuel → n < 65536 → 0 < fuel → read_digits 0 (itoa fuel n) ≡ n
unfolding read_digits itoa pow10
read_digits-itoa zero n h k p = absurd (omega arith)
read_digits-itoa (suc fuel) n h k p = elim (Bool-cases (ltb n 10)) [
  | inl small ↦ ground (arith, small)
  | inr big ↦
      let some_fuel : 0 < fuel = fuel_left fuel n h big in
      let rest = read_digits-itoa fuel (n / 10) (ground (arith, h)) (omega arith) some_fuel in
      ground (arith, big, rest, read_digits-append 0 (itoa fuel (n / 10)) ((48 + n % 10) ∷ []))
]

take_all : (xs : List ℕ) (y : ℕ) → take (length xs) (xs ++ (y ∷ [])) ≡ xs
take_all [] y = refl
take_all (x ∷ xs) y = ap (◌∷◌ x) (take_all xs y)

unmarshal-marshal :
    (d : ℕ)
    → unmarshal_discriminator (marshal_discriminator d) ≡ read_digits 0 (discriminator_string d)
unfolding unmarshal_discriminator marshal_discriminator
unmarshal-marshal d =
    let s : List ℕ = discriminator_string d in
    let n : length (34 ∷ (s ++ (34 ∷ []))) - 2 ≡ length s =
      omega (arith, length-append s (34 ∷ [])) in
    rw (n, take_all s 34) refl

-- Every discriminator is read back from its JSON form, which is printed with leading zeros.
discriminator_round_trip :
    (d : ℕ) → d < 65536 → unmarshal_discriminator (marshal_discriminator d) ≡ d
unfolding discriminator_string read_digits pow10
discriminator_round_trip d h =
    unmarshal-marshal d
    ∙ ground (
      arith,
      read_digits-zeros (4 - length (itoa 5 d)) (itoa 5 d),
      read_digits-itoa 5 d (omega arith) h (omega arith),
    )
