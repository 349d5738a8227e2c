-- ===== src/Names/Usernames.antt =====
-- What ValidateUsername (utils.go) accepts.
use disgord.Base.{
  ℕ, zero, suc, ◌-◌, ◌≤◌, ◌≡◌, refl, ap, ◌≢◌, ◌↔◌, Bool, true, false, ◌&&◌, ◌||◌, none, some, List,
  [], ◌∷◌, arith, ◌==◌, length, get_elem?,
}
use disgord.Names.Validators.{
  space, contains_any, is_any, ends_with_space, repeats_space, check_whitespace, check_length,
  check_words, validate_username, illegal_chars, illegal_names,
}

-- The rules of ValidateUsername, which counts bytes where its comment says characters.
pub record IsUsername (name : List ℕ) : Type 0 where
  pub long_enough : 2 ≤ length name
  pub short_enough : length name ≤ 32
  pub no_prefix : get_elem? name 0 ≢ some space
  pub no_suffix : get_elem? name (length name - 1) ≢ some space
  pub no_excess : (i : ℕ) → get_elem? name i ≡ some space → get_elem? name (suc i) ≢ some space
  pub no_illegal_character : contains_any name illegal_chars ≡ false
  pub no_illegal_name : is_any name illegal_names ≡ false

doubled : List ℕ → Bool
doubled [] = false
doubled (x ∷ []) = false
doubled (x ∷ y ∷ ys) = ((x == space) && (y == space)) || doubled (y ∷ ys)

doubled-repeats_space :
    (last : ℕ) (rest : List ℕ)
    → ends_with_space (last ∷ rest) ≡ false
    → doubled (last ∷ rest) ≡ repeats_space last rest
unfolding doubled repeats_space ends_with_space
doubled-repeats_space last [] h = refl
doubled-repeats_space last (x ∷ []) h = ground (arith, h)
doubled-repeats_space last (x ∷ y ∷ ys) h = ground (arith, doubled-repeats_space x (y ∷ ys) h)

doubled-false :
    (name : List ℕ) (i : ℕ)
    → doubled name ≡ false
    → get_elem? name i ≡ some space
    → get_elem? name (suc i) ≢ some space
unfolding doubled
doubled-false [] i h = λ e. ground (arith, e)
doubled-false (x ∷ []) i h = λ e f. ground (arith, f)
doubled-false (x ∷ y ∷ ys) zero h = λ e f. ground (arith, h, e, f)
doubled-false (x ∷ y ∷ ys) (suc i) h = doubled-false (y ∷ ys) i (ground (arith, h))

false-doubled :
    (name : List ℕ)
    → ((i : ℕ) → get_elem? name i ≡ some space → get_elem? name (suc i) ≢ some space)
    → doubled name ≡ false
unfolding doubled
false-doubled [] h = refl
false-doubled (x ∷ []) h = refl
false-doubled (x ∷ y ∷ ys) h = ground (arith, h 0, false-doubled (y ∷ ys) (λ i. h (suc i)))

last-of :
    (x : ℕ) (xs : List ℕ)
    → (ends_with_space (x ∷ xs) ≡ true) ↔ (get_elem? (x ∷ xs) (length xs) ≡ some space)
unfolding ends_with_space
last-of x [] = (λ h. ground (arith, h), λ h. ground (arith, h))
last-of x (y ∷ ys) = last-of y ys

check_whitespace-none :
    (x y : ℕ) (rest : List ℕ)
    → (check_whitespace (x ∷ y ∷ rest) ≡ none)
      ↔ ((x ≢ space) × (ends_with_space (x ∷ y ∷ rest) ≡ false) × (doubled (x ∷ y ∷ rest) ≡ false))
unfolding check_whitespace doubled ends_with_space
check_whitespace-none x y rest = (
  (λ h. ground (arith, h, doubled-repeats_space y rest)),
  (λ h. ground (arith, h, doubled-repeats_space y rest)),
)

IsUsername-checks :
    (name : List ℕ) → IsUsername name → (check_length 32 name ≡ none) × (check_words name ≡ none)
unfolding check_length check_words
IsUsername-checks name h =
    ground (arith, h.long_enough, h.short_enough, h.no_illegal_character, h.no_illegal_name)

IsUsername-whitespace : (name : List ℕ) → IsUsername name → check_whitespace name ≡ none
unfolding check_whitespace
IsUsername-whitespace [] h = refl
IsUsername-whitespace (x ∷ []) h = refl
IsUsername-whitespace (x ∷ y ∷ rest) h =
    let n : length (x ∷ y ∷ rest) - 1 ≡ length (y ∷ rest) = omega arith in
    let suffix : get_elem? (x ∷ y ∷ rest) (length (y ∷ rest)) ≢ some space = rw n at h.no_suffix in
    (check_whitespace-none x y rest).1 (
      (λ e. h.no_prefix (ap some e)),
      ground (arith, suffix, last-of x (y ∷ rest)),
      false-doubled (x ∷ y ∷ rest) h.no_excess,
    )

accepted-checks :
    (x y : ℕ) (rest : List ℕ)
    → validate_username (x ∷ y ∷ rest) ≡ none
    → (length (x ∷ y ∷ rest) ≤ 32)
      × (check_whitespace (x ∷ y ∷ rest) ≡ none)
      × (contains_any (x ∷ y ∷ rest) illegal_chars ≡ false)
      × (is_any (x ∷ y ∷ rest) illegal_names ≡ false)
unfolding validate_username check_length check_words
accepted-checks x y rest h = ground (arith, h)

accepted-long : (name : List ℕ) → validate_username name ≡ none → 2 ≤ length name
unfolding validate_username check_length
accepted-long name h = ground (arith, h)

accepted-IsUsername : (name : List ℕ) → validate_username name ≡ none → IsUsername name
accepted-IsUsername [] h = absurd (omega (arith, accepted-long [] h))
accepted-IsUsername (x ∷ []) h = absurd (omega (arith, accepted-long (x ∷ []) h))
accepted-IsUsername (x ∷ y ∷ rest) h =
    let checks = accepted-checks x y rest h in
    let spaces = (check_whitespace-none x y rest).0 checks.1 in
    let n : length (x ∷ y ∷ rest) - 1 ≡ length (y ∷ rest) = omega arith in
    let suffix : get_elem? (x ∷ y ∷ rest) (length (y ∷ rest)) ≢ some space =
      λ e. ground (arith, spaces.1, (last-of x (y ∷ rest)).1 e) in
    record {
      long_enough = accepted-long (x ∷ y ∷ rest) h;
      short_enough = checks.0;
      no_prefix = λ e. ground (arith, spaces.0, e);
      no_suffix = rw n suffix;
      no_excess = λ i. doubled-false (x ∷ y ∷ rest) i spaces.2;
      no_illegal_character = checks.2;
      no_illegal_name = checks.3;
    }

-- ValidateUsername returns no error for exactly the names of 2 to 32 bytes that neither begin nor end
-- with a space and have no two spaces in a row, contain no illegal character and are no illegal name.
pub validate_username_iff : (name : List ℕ) → (validate_username name ≡ none) ↔ IsUsername name
unfolding validate_username
validate_username_iff name = (
  accepted-IsUsername name,
  λ h. ground (arith, IsUsername-checks name h, IsUsername-whitespace name h),
)
