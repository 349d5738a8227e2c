-- ===== src/Names.antt =====
-- The checks of names and of avatars (utils.go). A string is the list of its bytes.
pub mod Validators
pub mod Usernames
pub mod Tests
