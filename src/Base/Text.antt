-- ===== src/Base/Text.antt =====
-- Text as bytes, with what the program uses of Go's strings package.
use Prim.Native.Char.{code}
use Prim.Native.String.{String}
use Prim.Native.Nat.{ℕ}
use mathlib.Core.Bool.{Bool, true, false, ◌&&◌}
use mathlib.Core.List.{List, [], ◌∷◌, ◌++◌}
use disgord.Base.Bools.{◌==◌, if◌then◌else◌}

abbrev pub Text : Type 0
Text = List ℕ

-- the bytes of a literal, which is ASCII
abbrev pub bytes : String → Text
bytes String.[] = []
bytes (String.◌∷◌ c s) = code c ∷ bytes s

-- equality of strings
unfoldable pub same_bytes : Text → Text → Bool
same_bytes [] [] = true
same_bytes [] (y ∷ ys) = false
same_bytes (x ∷ xs) [] = false
same_bytes (x ∷ xs) (y ∷ ys) = (x == y) && same_bytes xs ys

-- `strings.HasPrefix(s, prefix)`
unfoldable pub has_prefix : Text → Text → Bool
has_prefix s [] = true
has_prefix [] (y ∷ ys) = false
has_prefix (x ∷ xs) (y ∷ ys) = (x == y) && has_prefix xs ys

-- `strings.TrimSuffix(s, suffix)`, for a suffix that is not empty
unfoldable pub trim_suffix : Text → Text → Text
trim_suffix [] suffix = []
trim_suffix (x ∷ s) suffix = if same_bytes (x ∷ s) suffix then [] else x ∷ trim_suffix s suffix

-- `strings.Join(parts, separator)`
unfoldable pub join : Text → List Text → Text
join separator [] = []
join separator (p ∷ []) = p
join separator (p ∷ q ∷ ps) = p ++ (separator ++ join separator (q ∷ ps))
