-- ===== src/Filters/Messages.antt =====
-- The message filter (std/msgfilter.go, std/utils.go). A middleware gives the event, which goes on, or
-- nil, which stops it. A string is the list of its bytes, and white space is that of ASCII. The
-- permissions of a member, and how an id is printed, are parameters.
use Prim.Native.Nat.{bit_and, bit_or}
use disgord.Base.{
  ℕ, Bool, true, false, not, ◌&&◌, ◌||◌, Option, none, some, List, [], ◌∷◌, ◌++◌, ltb, leb, ◌==◌,
  if◌then◌else◌, length, drop, ◌>>=◌,
}
use disgord.Names.Validators.{has_prefix, contains_part}

pub record Author : Type 0 where
  pub id : ℕ
  pub bot : Bool

pub record FilteredMessage : Type 0 where
  pub author : Option Author
  pub webhook_id : ℕ
  pub guild_id : ℕ
  pub content : List ℕ

pub data MessageEvent : Type 0 where
  message_create message_update : FilteredMessage → MessageEvent
  other_event : MessageEvent

pub record MsgFilter : Type 0 where
  pub bot_id : ℕ
  pub prefix : List ℕ
  pub permissions : ℕ
  pub either_permissions : ℕ

unfoldable pub get_msg : MessageEvent → Option FilteredMessage
get_msg (message_create m) = some m
get_msg (message_update m) = some m
get_msg other_event = none

-- the event with its message changed
unfoldable pub with_msg : MessageEvent → FilteredMessage → MessageEvent
with_msg (message_create m) m' = message_create m'
with_msg (message_update m) m' = message_update m'
with_msg other_event m' = other_event

-- a tab, the line breaks and the space
abbrev pub is_space : ℕ → Bool
is_space b = b == 32 || (leb 9 b && leb b 13)

unfoldable pub trim_left : (ℕ → Bool) → List ℕ → List ℕ
trim_left test [] = []
trim_left test (b ∷ bytes) = if test b then trim_left test bytes else b ∷ bytes

unfoldable pub trim_right : (ℕ → Bool) → List ℕ → List ℕ
trim_right test [] = []
trim_right test (b ∷ bytes) =
    let rest : List ℕ = trim_right test bytes in if test b && length rest == 0 then [] else b ∷ rest

-- `strings.TrimSpace`
unfoldable pub trim_space : List ℕ → List ℕ
trim_space bytes = trim_right is_space (trim_left is_space bytes)

unfoldable pub any_prefix : List ℕ → List (List ℕ) → Bool
any_prefix content [] = false
any_prefix content (p ∷ prefixes) = has_prefix content p || any_prefix content prefixes

unfoldable pub message_has_prefix : MessageEvent → List ℕ → List (List ℕ) → Option MessageEvent
message_has_prefix evt prefix alternatives = do
  msg ← get_msg evt
  if any_prefix (trim_space msg.content) (alternatives ++ (prefix ∷ [])) then some evt else none

-- A message without an author passes both tests.
unfoldable pub message_is_bot : MessageEvent → Bool → Option MessageEvent
message_is_bot evt wanted = do
  msg ← get_msg evt
  elim msg.author [
    | none ↦ some evt
    | some author ↦
        if author.bot
        then (if wanted then some evt else none)
        else (if wanted then none else some evt)
  ]

unfoldable pub message_is_webhook : MessageEvent → Bool → Option MessageEvent
message_is_webhook evt wanted = do
  msg ← get_msg evt
  elim (msg.webhook_id == 0) [
    | true ↦ if wanted then none else some evt
    | false ↦ if wanted then some evt else none
  ]

unfoldable pub has_message_prefix : MsgFilter → MessageEvent → Option MessageEvent
has_message_prefix f evt =
    if length f.prefix == 0 then some evt else message_has_prefix evt f.prefix []

-- what is left of a content behind the spaces and as many bytes as the prefix has; `none`: the slice is
-- out of bounds
unfoldable pub strip_content : List ℕ → List ℕ → Option (List ℕ)
strip_content prefix content =
    let trimmed : List ℕ = trim_left (λ b. b == 32) content in
    if ltb (length trimmed) (length prefix) then none else some (drop (length prefix) trimmed)

-- `StripPrefix`; the outer `none` is a panic
unfoldable pub strip_prefix : MsgFilter → MessageEvent → Option (Option MessageEvent)
strip_prefix f evt =
    if length f.prefix == 0 then some (some evt) else elim (message_has_prefix evt f.prefix []) [
      | none ↦ some none
      | some kept ↦ elim (get_msg evt) [
        | none ↦ some none
        | some msg ↦ do
          content ← strip_content f.prefix msg.content
          some (some (with_msg evt (record msg { content = content })))
      ]
    ]

-- `<@id>` and `<@!id>`
unfoldable pub mention_string : List ℕ → List ℕ
mention_string id = 60 ∷ 64 ∷ (id ++ (62 ∷ []))

unfoldable pub nickname_mention_string : List ℕ → List ℕ
nickname_mention_string id = 60 ∷ 64 ∷ 33 ∷ (id ++ (62 ∷ []))

module _ (print : ℕ → List ℕ) where
  unfoldable pub has_bot_mention_prefix : MsgFilter → MessageEvent → Option MessageEvent
  has_bot_mention_prefix f evt =
      message_has_prefix evt (mention_string (print f.bot_id))
        (nickname_mention_string (print f.bot_id) ∷ [])

  unfoldable pub contains_bot_mention : MsgFilter → MessageEvent → Option MessageEvent
  contains_bot_mention f evt = do
    msg ← get_msg evt
    let plain : Bool = contains_part msg.content (mention_string (print f.bot_id))
    let nickname : Bool = contains_part msg.content (nickname_mention_string (print f.bot_id))
    if plain || nickname then some evt else none

unfoldable pub set_prefix : MsgFilter → List ℕ → MsgFilter
set_prefix f p = record f { prefix = p }

unfoldable pub set_min_permissions : MsgFilter → ℕ → MsgFilter
set_min_permissions f min = record f { permissions = min }

unfoldable pub join_bits : ℕ → List ℕ → ℕ
join_bits permissions [] = permissions
join_bits permissions (b ∷ bits) = join_bits (bit_or permissions b) bits

unfoldable pub set_alt_permissions : MsgFilter → List ℕ → MsgFilter
set_alt_permissions f bits = record f { either_permissions = join_bits 0 bits }

-- the tests of HasPermissions on the permissions of the author
unfoldable pub is_permitted : MsgFilter → ℕ → Bool
is_permitted f p =
    (bit_and p f.permissions == f.permissions)
    && not (ltb 0 f.either_permissions && (bit_and p f.either_permissions == 0))

unfoldable pub permitted_author : (ℕ → Option ℕ) → MsgFilter → ℕ → Bool
permitted_author member_permissions f id = elim (member_permissions id) [
  | none ↦ false
  | some p ↦ not (id == 0) && is_permitted f p
]

-- `HasPermissions`; `member_permissions` is by guild and user, `none` an error. The outer `none` is a
-- panic: the event has no message, or the message no author.
unfoldable pub has_permissions :
    (ℕ → ℕ → Option ℕ) → MsgFilter → MessageEvent → Option (Option MessageEvent)
has_permissions member_permissions f evt = do
  msg ← get_msg evt
  author ← msg.author
  some (if permitted_author (member_permissions msg.guild_id) f author.id then some evt else none)
