-- ===== src/Plan/Start/Again.antt =====
-- plan-service.js: `start` called again with the key and the steps of a stored Plan.
use agentdock_mcp_harness.Task.{Task}
use agentdock_mcp_harness.Plan.{Plan}
