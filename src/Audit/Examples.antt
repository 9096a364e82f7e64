-- ===== src/Audit/Examples.antt =====
-- A log of audit-service.js that keeps two entries.
use agentdock_mcp_harness.Base.{
  ℕ, ◌+◌, ◌-◌, String, true, ◌≡◌, refl, List, [], ◌∷◌, ◌++◌, length, take_last,
}
use agentdock_mcp_harness.Audit.{AuditLog, initial_log, append_log, page_of, later}
use agentdock_mcp_harness.Audit.Window.{append_all, full, window}
use agentdock_mcp_harness.Audit.Pages.{page_resume, append_all-IsLog}

abbrev plain : String → String
plain body = body

abbrev calls : List (ℕ × String)
calls = (10, "created") ∷ (11, "started") ∷ (12, "finished") ∷ []

abbrev log : AuditLog String
log = append_all plain 2 calls initial_log

keeps_two : log.entries ≡ (
    record { sequence = 2; timestamp = 11; body = "started" }
    ∷ record { sequence = 3; timestamp = 12; body = "finished" }
    ∷ [])
unfolding append_log
keeps_two = refl

reports_loss :
    ((page_of 0 1 log).truncated_before_sequence ≡ true) × ((page_of 0 1 log).has_more ≡ true)
unfolding append_log page_of
reports_loss = (refl, refl)

window_example :
    (log.entries ≡ take_last 2 (full plain 2 1 calls)) × (log.next_sequence ≡ 1 + length calls)
window_example = window plain 2 calls

page_resume_example :
    later 0 log.entries
    ≡ (page_of 0 1 log).entries ++ later ((page_of 0 1 log).next_sequence - 1) log.entries
page_resume_example = page_resume 0 0 log (append_all-IsLog plain 2 calls)
