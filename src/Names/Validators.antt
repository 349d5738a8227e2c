-- ===== src/Names/Validators.antt =====
-- validAvatarPrefix, ValidateUsername and validateChannelName (utils.go).
use disgord.Base.{
  ℕ, Bool, true, false, ◌&&◌, ◌||◌, Option, none, some, List, [], ◌∷◌, ◌++◌, ltb, ◌==◌,
  if◌then◌else◌, length,
}
unfoldable pub use disgord.Base.Text.{same_bytes, has_prefix}

pub data NameError : Type 0 where
  empty too_short too_long : NameError
  whitespace_prefix whitespace_suffix excessive_whitespace : NameError
  illegal_character illegal_name : NameError

abbrev pub space : ℕ
space = 32

-- `strings.Contains(s, part)`
unfoldable pub contains_part : List ℕ → List ℕ → Bool
contains_part [] part = has_prefix [] part
contains_part (x ∷ xs) part = has_prefix (x ∷ xs) part || contains_part xs part

-- "@", "#", ":" and "```"
abbrev pub illegal_chars : List (List ℕ)
illegal_chars = (64 ∷ []) ∷ (35 ∷ []) ∷ (58 ∷ []) ∷ (96 ∷ 96 ∷ 96 ∷ []) ∷ []

-- "discordtag", "everyone" and "here"
abbrev pub illegal_names : List (List ℕ)
illegal_names =
    (100 ∷ 105 ∷ 115 ∷ 99 ∷ 111 ∷ 114 ∷ 100 ∷ 116 ∷ 97 ∷ 103 ∷ [])
    ∷ (101 ∷ 118 ∷ 101 ∷ 114 ∷ 121 ∷ 111 ∷ 110 ∷ 101 ∷ [])
    ∷ (104 ∷ 101 ∷ 114 ∷ 101 ∷ [])
    ∷ []

unfoldable pub contains_any : List ℕ → List (List ℕ) → Bool
contains_any name [] = false
contains_any name (part ∷ parts) = contains_part name part || contains_any name parts

unfoldable pub is_any : List ℕ → List (List ℕ) → Bool
is_any name [] = false
is_any name (other ∷ others) = same_bytes name other || is_any name others

unfoldable pub ends_with_space : List ℕ → Bool
ends_with_space [] = false
ends_with_space (x ∷ []) = x == space
ends_with_space (x ∷ y ∷ ys) = ends_with_space (y ∷ ys)

-- the loop over name[2] to name[length-2], with the byte before
unfoldable pub repeats_space : ℕ → List ℕ → Bool
repeats_space last [] = false
repeats_space last (x ∷ []) = false
repeats_space last (x ∷ y ∷ ys) = ((x == space) && (last == x)) || repeats_space x (y ∷ ys)

-- the checks of the whitespace of a name of two bytes or more
unfoldable pub check_whitespace : List ℕ → Option NameError
check_whitespace (x ∷ y ∷ rest) =
    if x == space
    then some whitespace_prefix
    else if ends_with_space (x ∷ y ∷ rest)
    then some whitespace_suffix
    else if repeats_space y rest
    then some excessive_whitespace
    else none
check_whitespace name = none

unfoldable pub check_length : ℕ → List ℕ → Option NameError
check_length most name =
    if length name == 0
    then some empty
    else if ltb (length name) 2
    then some too_short
    else if ltb most (length name)
    then some too_long
    else none

unfoldable pub check_words : List ℕ → Option NameError
check_words name =
    if contains_any name illegal_chars
    then some illegal_character
    else if is_any name illegal_names
    then some illegal_name
    else none

-- the first error of two checks
abbrev pub then_check : Option NameError → Option NameError → Option NameError
then_check none next = next
then_check (some e) next = some e

unfoldable pub validate_username : List ℕ → Option NameError
validate_username name =
    then_check (check_length 32 name) (then_check (check_whitespace name) (check_words name))

unfoldable pub validate_channel_name : List ℕ → Option NameError
validate_channel_name name = check_length 100 name

-- `construct(encoding)`: "data:image/", the encoding and ";base64,"
abbrev pub construct : List ℕ → List ℕ
construct encoding =
    (100 ∷ 97 ∷ 116 ∷ 97 ∷ 58 ∷ 105 ∷ 109 ∷ 97 ∷ 103 ∷ 101 ∷ 47 ∷ [])
    ++ (encoding ++ (59 ∷ 98 ∷ 97 ∷ 115 ∷ 101 ∷ 54 ∷ 52 ∷ 44 ∷ []))

-- The loop over the encodings sets a variable that is not returned.
unfoldable pub valid_avatar_prefix : List ℕ → Bool
valid_avatar_prefix avatar =
    if length avatar == 0
    then false
    else if ltb (length avatar) (length (construct (88 ∷ [])))
    then false
    else true
