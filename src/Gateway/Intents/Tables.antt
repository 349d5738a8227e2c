-- ===== src/Gateway/Intents/Tables.antt =====
-- The intents with their names, and the switches of EventToIntent (internal/gateway/intents.go) as
-- tables; the names of all events (internal/event).
use disgord.Base.{ℕ, List, [], ◌∷◌, String}

abbrev pub intent_guilds : ℕ
intent_guilds = 1

abbrev pub intent_guild_members : ℕ
intent_guild_members = 2

abbrev pub intent_guild_bans : ℕ
intent_guild_bans = 4

abbrev pub intent_guild_emojis : ℕ
intent_guild_emojis = 8

abbrev pub intent_guild_integrations : ℕ
intent_guild_integrations = 16

abbrev pub intent_guild_webhooks : ℕ
intent_guild_webhooks = 32

abbrev pub intent_guild_invites : ℕ
intent_guild_invites = 64

abbrev pub intent_guild_voice_states : ℕ
intent_guild_voice_states = 128

abbrev pub intent_guild_presences : ℕ
intent_guild_presences = 256

abbrev pub intent_guild_messages : ℕ
intent_guild_messages = 512

abbrev pub intent_guild_message_reactions : ℕ
intent_guild_message_reactions = 1024

abbrev pub intent_guild_message_typing : ℕ
intent_guild_message_typing = 2048

abbrev pub intent_direct_messages : ℕ
intent_direct_messages = 4096

abbrev pub intent_direct_message_reactions : ℕ
intent_direct_message_reactions = 8192

abbrev pub intent_direct_message_typing : ℕ
intent_direct_message_typing = 16384

-- the intents with their names, in the order of the declaration
abbrev pub intent_names : List (ℕ × String)
intent_names =
    (intent_guilds, "Guilds")
    ∷ (intent_guild_members, "GuildMembers")
    ∷ (intent_guild_bans, "GuildBans")
    ∷ (intent_guild_emojis, "GuildEmojis")
    ∷ (intent_guild_integrations, "GuildIntegrations")
    ∷ (intent_guild_webhooks, "GuildWebhooks")
    ∷ (intent_guild_invites, "GuildInvites")
    ∷ (intent_guild_voice_states, "GuildVoiceStates")
    ∷ (intent_guild_presences, "GuildPresences")
    ∷ (intent_guild_messages, "GuildMessages")
    ∷ (intent_guild_message_reactions, "GuildMessageReactions")
    ∷ (intent_guild_message_typing, "GuildMessageTyping")
    ∷ (intent_direct_messages, "DirectMessages")
    ∷ (intent_direct_message_reactions, "DirectMessageReactions")
    ∷ (intent_direct_message_typing, "DirectMessageTyping")
    ∷ []

abbrev pub direct_intents : List (String × ℕ)
direct_intents =
    ("MESSAGE_CREATE", intent_direct_messages)
    ∷ ("MESSAGE_UPDATE", intent_direct_messages)
    ∷ ("MESSAGE_DELETE", intent_direct_messages)
    ∷ ("MESSAGE_DELETE_BULK", intent_direct_messages)
    ∷ ("MESSAGE_REACTION_ADD", intent_direct_message_reactions)
    ∷ ("MESSAGE_REACTION_REMOVE", intent_direct_message_reactions)
    ∷ ("MESSAGE_REACTION_REMOVE_ALL", intent_direct_message_reactions)
    ∷ ("TYPING_START", intent_direct_message_typing)
    ∷ []

abbrev pub guild_intents : List (String × ℕ)
guild_intents =
    ("GUILD_CREATE", intent_guilds)
    ∷ ("GUILD_UPDATE", intent_guilds)
    ∷ ("GUILD_DELETE", intent_guilds)
    ∷ ("GUILD_ROLE_CREATE", intent_guilds)
    ∷ ("GUILD_ROLE_UPDATE", intent_guilds)
    ∷ ("GUILD_ROLE_DELETE", intent_guilds)
    ∷ ("CHANNEL_CREATE", intent_guilds)
    ∷ ("CHANNEL_UPDATE", intent_guilds)
    ∷ ("CHANNEL_DELETE", intent_guilds)
    ∷ ("CHANNEL_PINS_UPDATE", intent_guilds)
    ∷ ("GUILD_MEMBER_ADD", intent_guild_members)
    ∷ ("GUILD_MEMBER_UPDATE", intent_guild_members)
    ∷ ("GUILD_MEMBER_REMOVE", intent_guild_members)
    ∷ ("GUILD_BAN_ADD", intent_guild_bans)
    ∷ ("GUILD_BAN_REMOVE", intent_guild_bans)
    ∷ ("GUILD_EMOJIS_UPDATE", intent_guild_emojis)
    ∷ ("GUILD_INTEGRATIONS_UPDATE", intent_guild_integrations)
    ∷ ("WEBHOOKS_UPDATE", intent_guild_webhooks)
    ∷ ("INVITE_CREATE", intent_guild_invites)
    ∷ ("INVITE_DELETE", intent_guild_invites)
    ∷ ("VOICE_STATE_UPDATE", intent_guild_voice_states)
    ∷ ("PRESENCE_UPDATE", intent_guild_presences)
    ∷ ("MESSAGE_CREATE", intent_guild_messages)
    ∷ ("MESSAGE_UPDATE", intent_guild_messages)
    ∷ ("MESSAGE_DELETE", intent_guild_messages)
    ∷ ("MESSAGE_DELETE_BULK", intent_guild_messages)
    ∷ ("MESSAGE_REACTION_ADD", intent_guild_message_reactions)
    ∷ ("MESSAGE_REACTION_REMOVE", intent_guild_message_reactions)
    ∷ ("MESSAGE_REACTION_REMOVE_ALL", intent_guild_message_reactions)
    ∷ ("MESSAGE_REACTION_REMOVE_EMOJI", intent_guild_message_reactions)
    ∷ ("TYPING_START", intent_guild_message_typing)
    ∷ []

-- `evt.All()`, whose order is any
abbrev pub all_events : List String
all_events =
    "CHANNEL_CREATE" ∷ "CHANNEL_DELETE" ∷ "CHANNEL_PINS_UPDATE" ∷ "CHANNEL_UPDATE" ∷ "GUILD_BAN_ADD"
    ∷ "GUILD_BAN_REMOVE" ∷ "GUILD_CREATE" ∷ "GUILD_DELETE" ∷ "GUILD_EMOJIS_UPDATE"
    ∷ "GUILD_INTEGRATIONS_UPDATE" ∷ "GUILD_MEMBER_ADD" ∷ "GUILD_MEMBER_REMOVE"
    ∷ "GUILD_MEMBER_UPDATE" ∷ "GUILD_MEMBERS_CHUNK" ∷ "GUILD_ROLE_CREATE" ∷ "GUILD_ROLE_DELETE"
    ∷ "GUILD_ROLE_UPDATE" ∷ "GUILD_UPDATE" ∷ "INTERACTION_CREATE" ∷ "INVITE_CREATE"
    ∷ "INVITE_DELETE" ∷ "MESSAGE_CREATE" ∷ "MESSAGE_DELETE" ∷ "MESSAGE_DELETE_BULK"
    ∷ "MESSAGE_REACTION_ADD" ∷ "MESSAGE_REACTION_REMOVE" ∷ "MESSAGE_REACTION_REMOVE_ALL"
    ∷ "MESSAGE_REACTION_REMOVE_EMOJI" ∷ "MESSAGE_UPDATE" ∷ "PRESENCE_UPDATE" ∷ "READY" ∷ "RESUMED"
    ∷ "TYPING_START" ∷ "USER_UPDATE" ∷ "VOICE_SERVER_UPDATE" ∷ "VOICE_STATE_UPDATE"
    ∷ "WEBHOOKS_UPDATE" ∷ []
