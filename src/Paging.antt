-- ===== src/Paging.antt =====
-- The REST calls that fetch page by page: GetMessages of channel.go and GetMembers of guild.go.
pub mod Messages
pub mod Returns
pub mod Pages
pub mod Ranges
pub mod Members
pub mod Bound
pub mod Tests
