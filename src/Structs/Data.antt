-- ===== src/Structs/Data.antt =====
-- The structs of user.go, channel.go, role.go, emoji.go and guild.go, and their zero values.
use disgord.Base.{ℕ, Bool, false, Option, none, List, [], String}
use disgord.Base.Int.{ℤ, pos}

pub record User : Type 0 where
  pub id : ℕ
  pub username : String
  pub discriminator : ℕ
  pub avatar : String
  pub bot : Bool
  pub system : Bool
  pub mfa_enabled : Bool
  pub locale : String
  pub verified : Bool
  pub email : String
  pub flags : ℕ
  pub premium_type : ℕ
  pub public_flags : ℕ

-- `&User{}`
abbrev pub zero_user : User
zero_user = record {
  id = 0;
  username = "";
  discriminator = 0;
  avatar = "";
  bot = false;
  system = false;
  mfa_enabled = false;
  locale = "";
  verified = false;
  email = "";
  flags = 0;
  premium_type = 0;
  public_flags = 0;
}

pub record Member : Type 0 where
  pub guild_id : ℕ
  pub user : Option User
  pub nick : String
  pub roles : List ℕ
  pub joined_at : ℕ
  pub premium_since : ℕ
  pub deaf : Bool
  pub mute : Bool
  pub pending : Bool
  pub user_id : ℕ

-- `&Member{}`
abbrev pub zero_member : Member
zero_member = record {
  guild_id = 0;
  user = none;
  nick = "";
  roles = [];
  joined_at = 0;
  premium_since = 0;
  deaf = false;
  mute = false;
  pending = false;
  user_id = 0;
}

pub data PermissionOverwriteType : Type 0 where
  permission_overwrite_role permission_overwrite_member : PermissionOverwriteType

pub record PermissionOverwrite : Type 0 where
  pub id : ℕ
  pub type : PermissionOverwriteType
  pub allow : ℕ
  pub deny : ℕ

pub data ChannelType : Type 0 where
  guild_text dm guild_voice group_dm guild_category guild_news guild_store : ChannelType

pub record Channel : Type 0 where
  pub id : ℕ
  pub type : ChannelType
  pub guild_id : ℕ
  pub position : ℤ
  pub permission_overwrites : List PermissionOverwrite
  pub name : String
  pub topic : String
  pub nsfw : Bool
  pub last_message_id : ℕ
  pub bitrate : ℕ
  pub user_limit : ℕ
  pub rate_limit_per_user : ℕ
  pub recipients : List User
  pub icon : String
  pub owner_id : ℕ
  pub application_id : ℕ
  pub parent_id : ℕ
  pub last_pin_timestamp : ℕ

-- `&Channel{}`
abbrev pub zero_channel : Channel
zero_channel = record {
  id = 0;
  type = guild_text;
  guild_id = 0;
  position = pos 0;
  permission_overwrites = [];
  name = "";
  topic = "";
  nsfw = false;
  last_message_id = 0;
  bitrate = 0;
  user_limit = 0;
  rate_limit_per_user = 0;
  recipients = [];
  icon = "";
  owner_id = 0;
  application_id = 0;
  parent_id = 0;
  last_pin_timestamp = 0;
}

pub record Role : Type 0 where
  pub id : ℕ
  pub name : String
  pub color : ℕ
  pub hoist : Bool
  pub position : ℤ
  pub permissions : ℕ
  pub managed : Bool
  pub mentionable : Bool
  pub guild_id : ℕ

-- `&Role{}`
abbrev pub zero_role : Role
zero_role = record {
  id = 0;
  name = "";
  color = 0;
  hoist = false;
  position = pos 0;
  permissions = 0;
  managed = false;
  mentionable = false;
  guild_id = 0;
}

pub record Emoji : Type 0 where
  pub id : ℕ
  pub name : String
  pub roles : List ℕ
  pub user : Option User
  pub require_colons : Bool
  pub managed : Bool
  pub animated : Bool

-- `&Emoji{}`
abbrev pub zero_emoji : Emoji
zero_emoji = record {
  id = 0;
  name = "";
  roles = [];
  user = none;
  require_colons = false;
  managed = false;
  animated = false;
}

pub record Guild : Type 0 where
  pub id : ℕ
  pub application_id : ℕ
  pub name : String
  pub icon : String
  pub splash : String
  pub owner : Bool
  pub owner_id : ℕ
  pub permissions : ℕ
  pub region : String
  pub afk_channel_id : ℕ
  pub afk_timeout : ℕ
  pub verification_level : ℕ
  pub default_message_notifications : ℕ
  pub explicit_content_filter : ℕ
  pub roles : List Role
  pub emojis : List Emoji
  pub features : List String
  pub mfa_level : ℕ
  pub widget_enabled : Bool
  pub widget_channel_id : ℕ
  pub system_channel_id : ℕ
  pub joined_at : Option ℕ
  pub large : Bool
  pub unavailable : Bool
  pub member_count : ℕ
  pub members : List Member
  pub channels : List Channel

-- `&Guild{}`
abbrev pub zero_guild : Guild
zero_guild = record {
  id = 0;
  application_id = 0;
  name = "";
  icon = "";
  splash = "";
  owner = false;
  owner_id = 0;
  permissions = 0;
  region = "";
  afk_channel_id = 0;
  afk_timeout = 0;
  verification_level = 0;
  default_message_notifications = 0;
  explicit_content_filter = 0;
  roles = [];
  emojis = [];
  features = [];
  mfa_level = 0;
  widget_enabled = false;
  widget_channel_id = 0;
  system_channel_id = 0;
  joined_at = none;
  large = false;
  unavailable = false;
  member_count = 0;
  members = [];
  channels = [];
}
