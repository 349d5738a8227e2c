-- ===== src/Structs/Messages.antt =====
-- `updateInternals` of messages and attachments (message.go, channel.go), on the fields that it reads
-- and sets. A string is the list of its bytes.
use disgord.Base.{
  ℕ, ◌-◌, ◌≡◌, refl, ◌∙◌, ap, Bool, true, false, not, ◌&&◌, ◌||◌, Option, none, some, List, [], ◌∷◌,
  ◌++◌, arith, leb, ◌==◌, if◌then◌else◌, length, take, drop,
}
use disgord.Structs.Data.{User, Member}
use disgord.Names.Validators.{has_prefix, same_bytes}

pub record Attachment : Type 0 where
  pub id : ℕ
  pub filename : List ℕ
  pub spoiler_tag : Bool

pub record Message : Type 0 where
  pub author : Option User
  pub member : Option Member
  pub content : List ℕ
  pub attachments : List Attachment
  pub spoiler_tag_content : Bool
  pub spoiler_tag_all_attachments : Bool
  pub has_spoiler_image : Bool

-- "SPOILER_"
abbrev pub spoiler_prefix : List ℕ
spoiler_prefix = 83 ∷ 80 ∷ 79 ∷ 73 ∷ 76 ∷ 69 ∷ 82 ∷ 95 ∷ []

-- "||||"
abbrev pub spoiler_marks : List ℕ
spoiler_marks = 124 ∷ 124 ∷ 124 ∷ 124 ∷ []

unfoldable pub update_attachment : Attachment → Attachment
update_attachment a = record a { spoiler_tag = has_prefix a.filename spoiler_prefix }

-- the loop over the attachments, with the two flags of the message; it breaks at the first attachment
-- that is no spoiler
unfoldable pub update_attachments : List Attachment → Bool → Bool → List Attachment × Bool × Bool
update_attachments [] all image = ([], all, image)
update_attachments (a ∷ as_they_are) all image =
    let a' : Attachment = update_attachment a in
    let rest : List Attachment × Bool × Bool = update_attachments as_they_are all true in
    if a'.spoiler_tag then (a' ∷ rest.0, rest.1, rest.2) else (a' ∷ as_they_are, false, image)

-- the flag of the content, which stays if the content is short
unfoldable pub content_flag : List ℕ → Bool → Bool
content_flag content flag =
    if leb 4 (length content)
    then same_bytes (take 2 content ++ drop (length content - 2) content) spoiler_marks
    else flag

unfoldable pub update_message_member : Option User → Option Member → Option Member
update_message_member none m = m
update_message_member (some author) none = none
update_message_member (some author) (some m) = some (record m { user_id = author.id })

unfoldable pub update_message : Message → Message
update_message m =
    let (attachments, all, image) =
      update_attachments m.attachments (not (length m.attachments == 0)) m.has_spoiler_image in
    record m {
      spoiler_tag_content = content_flag m.content m.spoiler_tag_content;
      attachments = attachments;
      spoiler_tag_all_attachments = all;
      has_spoiler_image = image;
      member = update_message_member m.author m.member;
    }

abbrev pub is_spoiler : Attachment → Bool
is_spoiler a = has_prefix a.filename spoiler_prefix

abbrev pub all_spoilers : List Attachment → Bool
all_spoilers [] = true
all_spoilers (a ∷ rest) = is_spoiler a && all_spoilers rest

abbrev pub first_spoiler : List Attachment → Bool
first_spoiler [] = false
first_spoiler (a ∷ rest) = is_spoiler a

update_attachments-all :
    (xs : List Attachment) (all image : Bool)
    → (update_attachments xs all image).1 ≡ (all && all_spoilers xs)
unfolding update_attachments update_attachment
update_attachments-all [] all image = ground arith
update_attachments-all (a ∷ xs) all image = ground (arith, update_attachments-all xs all true)

update_attachments-image :
    (xs : List Attachment) (all : Bool) → (update_attachments xs all true).2 ≡ true
unfolding update_attachments update_attachment
update_attachments-image [] all = refl
update_attachments-image (a ∷ xs) all = ground (arith, update_attachments-image xs all)

update_attachments-first :
    (xs : List Attachment) (all image : Bool)
    → (update_attachments xs all image).2 ≡ (image || first_spoiler xs)
unfolding update_attachments update_attachment
update_attachments-first [] all image = ground arith
update_attachments-first (a ∷ xs) all image = ground (arith, update_attachments-image xs all)

-- SpoilerTagAllAttachments is set exactly if there are attachments and all are spoilers;
-- HasSpoilerImage, on a message that has not got it, exactly if the first attachment is one.
update_message_lem :
    (m : Message)
    → m.has_spoiler_image ≡ false
    → ((update_message m).spoiler_tag_all_attachments
        ≡ (not (length m.attachments == 0) && all_spoilers m.attachments))
      × ((update_message m).has_spoiler_image ≡ first_spoiler m.attachments)
unfolding update_message
update_message_lem m h = (
  update_attachments-all m.attachments (not (length m.attachments == 0)) m.has_spoiler_image,
  update_attachments-first m.attachments (not (length m.attachments == 0)) m.has_spoiler_image
      ∙ ap (λ b. b || first_spoiler m.attachments) h,
)
