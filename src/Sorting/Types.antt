-- ===== src/Sorting/Types.antt =====
-- The types that the switches of sort_gen.go know, by their names.
use disgord.Base.{List, [], ◌∷◌, String}

-- of which `derefSliceP` knows the pointers to slices
abbrev pub pointer_types : List String
pointer_types =
    "AuditLog" ∷ "AuditLogChanges" ∷ "AuditLogEntry" ∷ "AuditLogOption" ∷ "BasicCache"
    ∷ "AllowedMentions" ∷ "Attachment" ∷ "Channel" ∷ "CreateMessageFileParams"
    ∷ "CreateMessageParams" ∷ "CreateWebhookParams" ∷ "DeleteMessagesParams" ∷ "GetMessagesParams"
    ∷ "GroupDMParticipant" ∷ "PartialChannel" ∷ "PermissionOverwrite"
    ∷ "UpdateChannelPermissionsParams" ∷ "Client" ∷ "Config" ∷ "ErrorEmptyValue"
    ∷ "ErrorMissingSnowflake" ∷ "Embed" ∷ "EmbedAuthor" ∷ "EmbedField" ∷ "EmbedFooter"
    ∷ "EmbedImage" ∷ "EmbedProvider" ∷ "EmbedThumbnail" ∷ "EmbedVideo" ∷ "Emoji" ∷ "ChannelCreate"
    ∷ "ChannelDelete" ∷ "ChannelPinsUpdate" ∷ "ChannelUpdate" ∷ "GuildBanAdd" ∷ "GuildBanRemove"
    ∷ "GuildCreate" ∷ "GuildDelete" ∷ "GuildEmojisUpdate" ∷ "GuildIntegrationsUpdate"
    ∷ "GuildMemberAdd" ∷ "GuildMemberRemove" ∷ "GuildMemberUpdate" ∷ "GuildMembersChunk"
    ∷ "GuildRoleCreate" ∷ "GuildRoleDelete" ∷ "GuildRoleUpdate" ∷ "GuildUpdate"
    ∷ "InteractionCreate" ∷ "InviteCreate" ∷ "InviteDelete" ∷ "MessageCreate" ∷ "MessageDelete"
    ∷ "MessageDeleteBulk" ∷ "MessageReactionAdd" ∷ "MessageReactionRemove"
    ∷ "MessageReactionRemoveAll" ∷ "MessageReactionRemoveEmoji" ∷ "MessageUpdate" ∷ "PresenceUpdate"
    ∷ "Ready" ∷ "Resumed" ∷ "TypingStart" ∷ "UserUpdate" ∷ "VoiceServerUpdate" ∷ "VoiceStateUpdate"
    ∷ "WebhooksUpdate" ∷ "AddGuildMemberParams" ∷ "Ban" ∷ "BanMemberParams"
    ∷ "CreateGuildChannelParams" ∷ "CreateGuildEmojiParams" ∷ "CreateGuildIntegrationParams"
    ∷ "CreateGuildParams" ∷ "CreateGuildRoleParams" ∷ "GetMembersParams" ∷ "Guild" ∷ "GuildEmbed"
    ∷ "GuildUnavailable" ∷ "Integration" ∷ "IntegrationAccount" ∷ "Member" ∷ "PartialBan"
    ∷ "UpdateGuildChannelPositionsParams" ∷ "UpdateGuildIntegrationParams"
    ∷ "UpdateGuildRolePositionsParams" ∷ "ApplicationCommandInteractionData"
    ∷ "ApplicationCommandInteractionDataOption" ∷ "ApplicationCommandInteractionDataResolved"
    ∷ "InteractionApplicationCommandCallbackData" ∷ "InteractionResponse" ∷ "MessageInteraction"
    ∷ "Invite" ∷ "InviteMetadata" ∷ "MentionChannel" ∷ "Message" ∷ "MessageActivity"
    ∷ "MessageApplication" ∷ "MessageComponent" ∷ "MessageReference" ∷ "MessageSticker"
    ∷ "GetReactionURLParams" ∷ "Reaction" ∷ "Ctrl" ∷ "RESTBuilder" ∷ "Role" ∷ "ErrorUnsupportedType"
    ∷ "Time" ∷ "Activity" ∷ "ActivityAssets" ∷ "ActivityEmoji" ∷ "ActivityParty" ∷ "ActivitySecrets"
    ∷ "ActivityTimestamp" ∷ "ClientStatus" ∷ "CreateGroupDMParams" ∷ "GetCurrentUserGuildsParams"
    ∷ "User" ∷ "UserConnection" ∷ "UserPresence" ∷ "VoiceRegion" ∷ "VoiceState"
    ∷ "ExecuteWebhookParams" ∷ "Webhook" ∷ []

-- with an ID
abbrev pub id_types : List String
id_types =
    "AuditLogEntry" ∷ "AuditLogOption" ∷ "Attachment" ∷ "Channel" ∷ "PartialChannel"
    ∷ "PermissionOverwrite" ∷ "Emoji" ∷ "InteractionCreate" ∷ "CreateGuildIntegrationParams"
    ∷ "Guild" ∷ "GuildUnavailable" ∷ "Integration" ∷ "IntegrationAccount"
    ∷ "UpdateGuildChannelPositionsParams" ∷ "UpdateGuildRolePositionsParams"
    ∷ "ApplicationCommandInteractionData" ∷ "MessageInteraction" ∷ "MentionChannel" ∷ "Message"
    ∷ "MessageApplication" ∷ "MessageSticker" ∷ "Role" ∷ "ActivityEmoji" ∷ "ActivityParty" ∷ "User"
    ∷ "UserConnection" ∷ "VoiceRegion" ∷ "Webhook" ∷ []

-- with a GuildID
abbrev pub guild_id_types : List String
guild_id_types =
    "Channel" ∷ "ChannelPinsUpdate" ∷ "GuildBanAdd" ∷ "GuildBanRemove" ∷ "GuildEmojisUpdate"
    ∷ "GuildIntegrationsUpdate" ∷ "GuildMemberRemove" ∷ "GuildMembersChunk" ∷ "GuildRoleCreate"
    ∷ "GuildRoleDelete" ∷ "GuildRoleUpdate" ∷ "InteractionCreate" ∷ "InviteCreate" ∷ "InviteDelete"
    ∷ "MessageDelete" ∷ "MessageReactionRemoveEmoji" ∷ "PresenceUpdate" ∷ "TypingStart"
    ∷ "VoiceServerUpdate" ∷ "WebhooksUpdate" ∷ "Member" ∷ "MentionChannel" ∷ "Message"
    ∷ "MessageReference" ∷ "UserPresence" ∷ "VoiceState" ∷ "Webhook" ∷ []

-- with a ChannelID
abbrev pub channel_id_types : List String
channel_id_types =
    "AuditLogOption" ∷ "ChannelPinsUpdate" ∷ "InteractionCreate" ∷ "InviteCreate" ∷ "InviteDelete"
    ∷ "MessageDelete" ∷ "MessageDeleteBulk" ∷ "MessageReactionAdd" ∷ "MessageReactionRemove"
    ∷ "MessageReactionRemoveAll" ∷ "MessageReactionRemoveEmoji" ∷ "TypingStart" ∷ "WebhooksUpdate"
    ∷ "GuildEmbed" ∷ "Message" ∷ "MessageReference" ∷ "VoiceState" ∷ "Webhook" ∷ []

-- with a Name
abbrev pub name_types : List String
name_types =
    "Channel" ∷ "CreateWebhookParams" ∷ "PartialChannel" ∷ "EmbedAuthor" ∷ "EmbedField"
    ∷ "EmbedProvider" ∷ "Emoji" ∷ "CreateGuildChannelParams" ∷ "CreateGuildEmojiParams"
    ∷ "CreateGuildParams" ∷ "CreateGuildRoleParams" ∷ "Guild" ∷ "Integration" ∷ "IntegrationAccount"
    ∷ "ApplicationCommandInteractionData" ∷ "ApplicationCommandInteractionDataOption"
    ∷ "MessageInteraction" ∷ "MentionChannel" ∷ "MessageApplication" ∷ "MessageSticker" ∷ "Role"
    ∷ "Activity" ∷ "ActivityEmoji" ∷ "UserConnection" ∷ "VoiceRegion" ∷ "Webhook" ∷ []

-- with a Hoist
abbrev pub hoist_types : List String
hoist_types = "CreateGuildRoleParams" ∷ "Role" ∷ []
