-- ===== src/Rediscovery/Laws.antt =====
-- Sources that are marked, and the tick that is enqueued with them
-- (crates/beampipe-db/src/repo.rs).
use beampipe_core_v.Common.{List}
