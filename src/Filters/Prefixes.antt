-- ===== src/Filters/Prefixes.antt =====
-- What StripPrefix (std/msgfilter.go) leaves of a message.
use disgord.Base.{
  ℕ, zero, suc, ◌≡◌, refl, ap, ◌∙◌, Bool, true, false, not, some, List, [], ◌∷◌, ◌++◌, arith, ◌==◌,
  length, drop, replicate, length-append,
}
use disgord.Names.Validators.{has_prefix}
use disgord.Filters.Messages.{
  MsgFilter, FilteredMessage, message_create, is_space, trim_left, trim_right, trim_space,
  any_prefix, message_has_prefix, strip_content, strip_prefix, get_msg, with_msg,
}

-- The first and the last byte are no white space.
abbrev pub starts_solid : List ℕ → Bool
starts_solid [] = false
starts_solid (b ∷ bytes) = not (is_space b)

abbrev pub ends_solid : List ℕ → Bool
ends_solid [] = false
ends_solid (b ∷ []) = not (is_space b)
ends_solid (b ∷ c ∷ bytes) = ends_solid (c ∷ bytes)

trim_left-spaces :
    (test : ℕ → Bool) (n : ℕ) (xs : List ℕ)
    → test 32 ≡ true
    → trim_left test (replicate n 32 ++ xs) ≡ trim_left test xs
unfolding trim_left
trim_left-spaces test zero xs h = refl
trim_left-spaces test (suc n) xs h = ground (arith, h, trim_left-spaces test n xs h)

trim_right_solid :
    (p rest : List ℕ)
    → ends_solid p ≡ true
    → trim_right is_space (p ++ rest) ≡ p ++ trim_right is_space rest
unfolding trim_right
trim_right_solid [] rest h = absurd (ground (arith, h))
trim_right_solid (b ∷ []) rest h = ground (arith, h)
trim_right_solid (b ∷ c ∷ p) rest h = ground (arith, trim_right_solid (c ∷ p) rest h)

has_prefix-append : (p rest : List ℕ) → has_prefix (p ++ rest) p ≡ true
unfolding has_prefix
has_prefix-append [] rest = ground arith
has_prefix-append (b ∷ p) rest = ground (arith, has_prefix-append p rest)

drop-append : (p rest : List ℕ) → drop (length p) (p ++ rest) ≡ rest
drop-append [] rest = refl
drop-append (b ∷ p) rest = drop-append p rest

trim_left_solid :
    (test : ℕ → Bool) (p rest : List ℕ)
    → ((b : ℕ) → test b ≡ true → is_space b ≡ true)
    → starts_solid p ≡ true
    → trim_left test (p ++ rest) ≡ p ++ rest
unfolding trim_left
trim_left_solid test [] rest t h = absurd (ground (arith, h))
trim_left_solid test (b ∷ p) rest t h = ground (arith, t b, h)

trim_space_lem :
    (n : ℕ) (p rest : List ℕ)
    → starts_solid p ≡ true
    → ends_solid p ≡ true
    → trim_space (replicate n 32 ++ (p ++ rest)) ≡ p ++ trim_right is_space rest
unfolding trim_space
trim_space_lem n p rest s e =
    ap (trim_right is_space)
      (trim_left-spaces is_space n (p ++ rest) refl ∙ trim_left_solid is_space p rest (λ b h. h) s)
    ∙ trim_right_solid p rest e

strip_content_lem :
    (n : ℕ) (p rest : List ℕ)
    → starts_solid p ≡ true
    → strip_content p (replicate n 32 ++ (p ++ rest)) ≡ some rest
unfolding strip_content
strip_content_lem n p rest s =
    let trimmed : trim_left (λ b. b == 32) (replicate n 32 ++ (p ++ rest)) ≡ p ++ rest =
      trim_left-spaces (λ b. b == 32) n (p ++ rest) refl
      ∙ trim_left_solid (λ b. b == 32) p rest (λ b h. ground (arith, h)) s in
    ground (arith, trimmed, drop-append p rest, length-append p rest)

solid-ne-empty : (p : List ℕ) → starts_solid p ≡ true → (length p == 0) ≡ false
solid-ne-empty [] h = absurd (ground (arith, h))
solid-ne-empty (b ∷ p) h = ground arith

-- A message that begins with the prefix, behind spaces at most, goes on without the spaces and the
-- prefix, and nothing else of it is lost, if the prefix neither begins nor ends with white space.
strip_prefix_lem :
    (f : MsgFilter) (m : FilteredMessage) (n : ℕ) (rest : List ℕ)
    → starts_solid f.prefix ≡ true
    → ends_solid f.prefix ≡ true
    → m.content ≡ replicate n 32 ++ (f.prefix ++ rest)
    → strip_prefix f (message_create m) ≡ some (some (message_create (record m { content = rest })))
unfolding strip_prefix message_has_prefix any_prefix get_msg with_msg
strip_prefix_lem f m n rest s e h =
    let kept : has_prefix (trim_space m.content) f.prefix ≡ true =
      ap (λ c. has_prefix (trim_space c) f.prefix) h
      ∙ ap (λ c. has_prefix c f.prefix) (trim_space_lem n f.prefix rest s e)
      ∙ has_prefix-append f.prefix (trim_right is_space rest) in
    let stripped : strip_content f.prefix m.content ≡ some rest =
      ap (strip_content f.prefix) h ∙ strip_content_lem n f.prefix rest s in
    ground (arith, kept, stripped, solid-ne-empty f.prefix s)
