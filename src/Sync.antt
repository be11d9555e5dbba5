-- ===== src/Sync.antt =====
-- src/platform/sync.h: the results of the synchronization layer, which the other models take as inputs.
-- Windows has the layer itself.
pub mod Windows
use concurrent_task_scheduli.Base.{Bool, true, false}

pub data SchedSyncResult : Type 0 where
  ok error_invalid_argument error_system : SchedSyncResult

-- The test `!= SCHED_SYNC_OK`.
abbrev pub has_failed : SchedSyncResult → Bool
has_failed ok = false
has_failed r = true
