-- ===== src/Structs/Tests.antt =====
-- The structures on concrete values.
use disgord.Base.{ℕ, ◌≡◌, refl, false, none, some, List, [], ◌∷◌, arith}
use disgord.Structs.Data.{
  Role, Member, Channel, Guild, permission_overwrite_role, zero_role, zero_member, zero_channel,
  zero_guild,
}
use disgord.Structs.Discriminators.{
  itoa, discriminator_string, marshal_discriminator, unmarshal_discriminator, read_digits,
}
use disgord.Structs.Permissions.{
  member_permissions, channel_permissions, collect_permissions, has_role, apply_overwrites,
  concerns, apply_overwrite, mask_of,
}
use disgord.Base.Bits.{bit}
use disgord.Structs.Overwrites.{granted, decided, channel_permissions_lem}
use disgord.Structs.Messages.{Attachment, Message, spoiler_prefix}
use disgord.Structs.Guilds.{add_members, matches, has_member, any_match}

discriminator_read : unmarshal_discriminator (marshal_discriminator 42) ≡ 42
unfolding unmarshal_discriminator marshal_discriminator discriminator_string itoa read_digits
discriminator_read = refl

-- "0042"
discriminator_run : discriminator_string 42 ≡ 48 ∷ 48 ∷ 52 ∷ 50 ∷ []
unfolding discriminator_string itoa
discriminator_run = refl

abbrev roles : List Role
roles =
    record zero_role { id = 1; permissions = 8 }
    ∷ record zero_role { id = 2; permissions = 3 }
    ∷ record zero_role { id = 3; permissions = 6 }
    ∷ []

abbrev member : Member
member = record zero_member { user_id = 5; roles = 2 ∷ 1 ∷ [] }

abbrev channel : Channel
channel = record zero_channel {
  id = 9;
  permission_overwrites =
      record { id = 2; type = permission_overwrite_role; allow = 16; deny = 2 } ∷ [];
}

channel_permissions_lem_example :
    (permissions : ℕ) × (channel_permissions channel member (some roles) ≡ some permissions)
    × (bit 4 permissions
        ≡ decided 4 member (granted 4 member.roles (bit 4 0) roles) channel.permission_overwrites)
channel_permissions_lem_example =
    channel_permissions_lem 4 channel member roles
      (
        ((λ e. omega (arith, e)), ((λ e. omega (arith, e)), tt)),
        (((λ e. omega (arith, e)), tt), (tt, tt)),
      )
      (omega arith, tt) (omega arith)

-- The permissions of the roles 1 and 2, less what the overwrite denies, and with what it allows.
permissions_run : channel_permissions channel member (some roles) ≡ some 25
unfolding channel_permissions member_permissions collect_permissions has_role apply_overwrites
    concerns apply_overwrite mask_of
permissions_run = refl

abbrev attachment : List ℕ → Attachment
attachment name = record { id = 1; filename = name; spoiler_tag = false }

abbrev message : Message
message = record {
  author = none;
  member = none;
  content = [];
  spoiler_tag_content = false;
  attachments = attachment (97 ∷ []) ∷ attachment spoiler_prefix ∷ [];
  spoiler_tag_all_attachments = false;
  has_spoiler_image = false;
}

abbrev guild : Guild
guild = record zero_guild { id = 7; name = "gophers"; member_count = 3 }

-- A member that comes twice is added twice.
added_twice : (add_members guild (member ∷ member ∷ [])).0.members ≡ member ∷ member ∷ []
unfolding add_members matches has_member any_match
added_twice = refl
