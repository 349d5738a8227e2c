-- ===== src/Httd/Manager/Tests.antt =====
-- The theorem on shared buckets, for two endpoints of a new manager.
use disgord.Httd.Bucket.{LtBucket}
use disgord.Httd.Manager.{Manager}

abbrev learns : LtBucket → LtBucket
learns b = record b { hash = "abc" }
