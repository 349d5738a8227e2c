-- ===== src/Cache.antt =====
-- The basic cache (cache.go, with the parts of cache_gen.go and events.go that its events run
-- through).
pub mod State
pub mod Channels
pub mod Members
pub mod Guilds
pub mod Roles
pub mod Reads
pub mod Replay
pub mod RoundTrip
pub mod ReadBack
pub mod Chunks
pub mod ChunkReads
pub mod Counts
pub mod CountRuns
pub mod RoleLists
pub mod RoleSteps
pub mod RoleRuns
pub mod Updates
pub mod Keys
pub mod KeyedMembers
pub mod KeyedChunks
pub mod KeyedChannels
pub mod KeyedGuilds
pub mod KeyedRoles
pub mod KeyedRuns
pub mod Tests
pub mod KeyedTests
