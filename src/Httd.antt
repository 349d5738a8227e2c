-- ===== src/Httd.antt =====
-- internal/httd: the rate limits of the REST client.
pub mod Bucket
pub mod Headers
pub mod Manager
