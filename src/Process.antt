-- ===== src/Process.antt =====
-- process-service.js: the states of a Run.
pub mod Output
use agentdock_mcp_harness.Base.{Bool, true, false}

pub data RunStatus : Type 0 where
  running cancelling exited failed cancelled interrupted : RunStatus

-- `ACTIVE_STATUSES.has(status)`
abbrev pub is_live : RunStatus → Bool
is_live running = true
is_live cancelling = true
is_live _ = false
