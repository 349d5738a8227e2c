-- ===== src/Names/Tests.antt =====
-- Names on the checks of utils.go.
use disgord.Base.{◌≡◌, refl, ◌↔◌, true, none, some, [], ◌∷◌}
use disgord.Names.Validators.{
  validate_username, check_length, check_whitespace, check_words, contains_any, contains_part,
  has_prefix, is_any, same_bytes, ends_with_space, repeats_space, excessive_whitespace,
  valid_avatar_prefix,
}
use disgord.Names.Usernames.{IsUsername, validate_username_iff}

-- "go  bot", with two spaces
validate_username_iff_example :
    (validate_username (103 ∷ 111 ∷ 32 ∷ 32 ∷ 98 ∷ 111 ∷ 116 ∷ []) ≡ none)
    ↔ IsUsername (103 ∷ 111 ∷ 32 ∷ 32 ∷ 98 ∷ 111 ∷ 116 ∷ [])
validate_username_iff_example = validate_username_iff (103 ∷ 111 ∷ 32 ∷ 32 ∷ 98 ∷ 111 ∷ 116 ∷ [])

two_spaces :
    validate_username (103 ∷ 111 ∷ 32 ∷ 32 ∷ 98 ∷ 111 ∷ 116 ∷ []) ≡ some excessive_whitespace
unfolding validate_username check_length check_whitespace ends_with_space repeats_space
two_spaces = refl

one_space : validate_username (103 ∷ 111 ∷ 32 ∷ 98 ∷ 111 ∷ 116 ∷ []) ≡ none
unfolding validate_username check_length check_whitespace ends_with_space repeats_space check_words
    contains_any contains_part has_prefix is_any same_bytes
one_space = refl

-- Twenty bytes are an avatar, whatever they are.
any_avatar :
    valid_avatar_prefix
      (0 ∷ 0 ∷ 0 ∷ 0 ∷ 0 ∷ 0 ∷ 0 ∷ 0 ∷ 0 ∷ 0 ∷ 0 ∷ 0 ∷ 0 ∷ 0 ∷ 0 ∷ 0 ∷ 0 ∷ 0 ∷ 0 ∷ 0 ∷ [])
    ≡ true
unfolding valid_avatar_prefix
any_avatar = refl
