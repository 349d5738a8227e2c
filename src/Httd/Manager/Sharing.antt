-- ===== src/Httd/Manager/Sharing.antt =====
-- internal/httd/bucket_manager.go: endpoints that Discord puts into one bucket share one here.
use disgord.Httd.Manager.{Manager}
