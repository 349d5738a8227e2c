-- ===== src/Structs/Copies.antt =====
-- `DeepCopy` (disgord.go, iface_deepcopier_gen.go): a zero value, over which `copyOverTo`
-- (iface_copier_gen.go) writes the fields.
use disgord.Base.{◌≡◌, refl, List, [], ◌∷◌, map}
use disgord.Structs.Data.{
  User, Member, Channel, Role, Emoji, Guild, zero_user, zero_member, zero_channel, zero_role,
  zero_emoji, zero_guild,
}

-- `copyOverTo`
unfoldable pub user_over : User → User → User
user_over u dest = record dest {
  avatar = u.avatar;
  bot = u.bot;
  discriminator = u.discriminator;
  email = u.email;
  flags = u.flags;
  id = u.id;
  locale = u.locale;
  mfa_enabled = u.mfa_enabled;
  premium_type = u.premium_type;
  public_flags = u.public_flags;
  system = u.system;
  username = u.username;
  verified = u.verified;
}

-- `deepCopy`
unfoldable pub user_copy : User → User
user_copy u = user_over u zero_user

-- `copyOverTo`
unfoldable pub member_over : Member → Member → Member
member_over m dest = record dest {
  deaf = m.deaf;
  guild_id = m.guild_id;
  joined_at = m.joined_at;
  mute = m.mute;
  nick = m.nick;
  pending = m.pending;
  premium_since = m.premium_since;
  roles = m.roles;
  user = m.user;
  user_id = m.user_id;
}

-- `deepCopy`
unfoldable pub member_copy : Member → Member
member_copy m = member_over m zero_member

-- `copyOverTo`
unfoldable pub channel_over : Channel → Channel → Channel
channel_over c dest = record dest {
  application_id = c.application_id;
  bitrate = c.bitrate;
  guild_id = c.guild_id;
  icon = c.icon;
  id = c.id;
  last_message_id = c.last_message_id;
  last_pin_timestamp = c.last_pin_timestamp;
  name = c.name;
  nsfw = c.nsfw;
  owner_id = c.owner_id;
  parent_id = c.parent_id;
  permission_overwrites = c.permission_overwrites;
  position = c.position;
  rate_limit_per_user = c.rate_limit_per_user;
  recipients = map user_copy c.recipients;
  topic = c.topic;
  type = c.type;
  user_limit = c.user_limit;
}

-- `deepCopy`
unfoldable pub channel_copy : Channel → Channel
channel_copy c = channel_over c zero_channel

-- `copyOverTo`
unfoldable pub role_over : Role → Role → Role
role_over r dest = record dest {
  color = r.color;
  guild_id = r.guild_id;
  hoist = r.hoist;
  id = r.id;
  managed = r.managed;
  mentionable = r.mentionable;
  name = r.name;
  permissions = r.permissions;
  position = r.position;
}

-- `deepCopy`
unfoldable pub role_copy : Role → Role
role_copy r = role_over r zero_role

-- `copyOverTo`
unfoldable pub emoji_over : Emoji → Emoji → Emoji
emoji_over e dest = record dest {
  animated = e.animated;
  id = e.id;
  managed = e.managed;
  name = e.name;
  require_colons = e.require_colons;
  roles = e.roles;
  user = e.user;
}

-- `deepCopy`
unfoldable pub emoji_copy : Emoji → Emoji
emoji_copy e = emoji_over e zero_emoji

-- `copyOverTo`
unfoldable pub guild_over : Guild → Guild → Guild
guild_over g dest = record dest {
  afk_channel_id = g.afk_channel_id;
  afk_timeout = g.afk_timeout;
  application_id = g.application_id;
  channels = map channel_copy g.channels;
  default_message_notifications = g.default_message_notifications;
  emojis = map emoji_copy g.emojis;
  explicit_content_filter = g.explicit_content_filter;
  features = g.features;
  icon = g.icon;
  id = g.id;
  joined_at = g.joined_at;
  large = g.large;
  member_count = g.member_count;
  members = map member_copy g.members;
  mfa_level = g.mfa_level;
  name = g.name;
  owner = g.owner;
  owner_id = g.owner_id;
  permissions = g.permissions;
  region = g.region;
  roles = map role_copy g.roles;
  splash = g.splash;
  system_channel_id = g.system_channel_id;
  unavailable = g.unavailable;
  verification_level = g.verification_level;
  widget_channel_id = g.widget_channel_id;
  widget_enabled = g.widget_enabled;
}

-- `deepCopy`
unfoldable pub guild_copy : Guild → Guild
guild_copy g = guild_over g zero_guild

map_same {ℓ} : {A : Type ℓ} (f : A → A) → ((a : A) → f a ≡ a) → (xs : List A) → map f xs ≡ xs
map_same f h [] = refl
map_same f h (x ∷ xs) = rw (h x, map_same f h xs) refl

user_copy_lem : (u : User) → user_copy u ≡ u
unfolding user_copy user_over
user_copy_lem u = refl

member_copy_lem : (m : Member) → member_copy m ≡ m
unfolding member_copy member_over
member_copy_lem m = refl

channel_copy_lem : (c : Channel) → channel_copy c ≡ c
unfolding channel_copy channel_over
channel_copy_lem c = rw (map_same user_copy user_copy_lem c.recipients) refl

role_copy_lem : (r : Role) → role_copy r ≡ r
unfolding role_copy role_over
role_copy_lem r = refl

emoji_copy_lem : (e : Emoji) → emoji_copy e ≡ e
unfolding emoji_copy emoji_over
emoji_copy_lem e = refl

-- A deep copy of a guild is that guild: no field of it, and none of its channels, emojis, members
-- and roles, is lost or mixed up.
guild_copy_lem : (g : Guild) → guild_copy g ≡ g
unfolding guild_copy guild_over
guild_copy_lem g =
    rw
      (
        map_same channel_copy channel_copy_lem g.channels,
        map_same emoji_copy emoji_copy_lem g.emojis,
        map_same member_copy member_copy_lem g.members,
        map_same role_copy role_copy_lem g.roles,
      )
      refl
