-- ===== src/Store/Examples.antt =====
-- Mutations of state-store.js on a small table.
use agentdock_mcp_harness.Base.{
  ℕ, ◌+◌, String, false, ◌≡◌, refl, Option, none, some, [], ◌∷◌, Result, ok, err, if◌then◌else◌,
  same, ◌&&◌, string_dec, trim, task_not_active, transaction_open,
}
use agentdock_mcp_harness.Store.{
  Db, Failures, no_failures, mutate_document_with, mutate_document, safe_document_part,
  select_value, new_row,
}
use agentdock_mcp_harness.Store.Laws.{revision_of}
use agentdock_mcp_harness.Store.Transactions.{mutate_document_rollback, mutate_document_commit}

abbrev table : Db ℕ
table = record { rows = new_row "task" "a" 1 0 ∷ []; saved = none; closed = false }

abbrev add_one : Option ℕ → Result (ℕ × Unit {0})
add_one none = ok (1, tt)
add_one (some n) = ok (n + 1, tt)

abbrev refuse : Option ℕ → Result (ℕ × Unit {0})
refuse _ = err task_not_active

keys_are_trimmed : safe_document_part " task " ≡ ok "task"
unfolding safe_document_part trim
keys_are_trimmed = refl

stores_in_place :
    (mutate_document "task" "a" add_one 5 table).0.rows
    ≡ (record { kind = "task"; id = "a"; value = 2; revision = 2; updated_at = 5 } ∷ [])
unfolding mutate_document string_dec trim safe_document_part
stores_in_place = refl

-- A COMMIT that fails after the INSERT.
abbrev no_commit : Failures
no_commit = record no_failures { of_commit = some transaction_open }

mutate_document_rollback_example :
    (mutate_document_with no_commit "task" "a" add_one 5 table).0 ≡ table
unfolding mutate_document_with string_dec trim safe_document_part
mutate_document_rollback_example =
    mutate_document_rollback no_commit "task" "a" add_one 5 table transaction_open refl

a_throw_is_undone : (mutate_document "task" "a" refuse 5 table).0 ≡ table
unfolding mutate_document string_dec trim safe_document_part
a_throw_is_undone = refl

mutate_document_commit_example :
    let after = (mutate_document "task" "a" add_one 5 table).0 in
    (add_one (select_value "task" "a" table.rows) ≡ ok (2, tt))
    × ((k' i' : String)
        → select_value k' i' after.rows
          ≡ (if same "task" k' && same "a" i' then some 2 else select_value k' i' table.rows))
    × (revision_of "task" "a" after.rows ≡ revision_of "task" "a" table.rows + 1)
    × (after.saved ≡ none)
unfolding mutate_document safe_document_part string_dec trim
mutate_document_commit_example = mutate_document_commit "task" "a" add_one 5 table refl refl refl
