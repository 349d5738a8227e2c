-- ===== src/Structs.antt =====
-- Discord's structures as the library keeps them (user.go, channel.go, role.go, emoji.go, guild.go,
-- message.go): the fields of each struct in the source's words. A pointer that may be nil is an
-- Option, a snowflake and an instant of time are numbers, where the zero instant is 0. Left out are
-- User.PartialMember, which points back to a member, Guild.VoiceStates and Guild.Presences. The
-- entries of a slice of pointers are never nil here.
pub mod Data
pub mod Copies
pub mod Internals
pub mod Guilds
pub mod Roles
pub mod RoleLaws
pub mod Permissions
pub mod Collected
pub mod Overwrites
pub mod Discriminators
pub mod Messages
pub mod Tests
