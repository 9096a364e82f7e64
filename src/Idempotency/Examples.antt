-- ===== src/Idempotency/Examples.antt =====
-- Operations of idempotency-service.js on concrete values.
use mathlib.Core.Bool.{false≢true}
use agentdock_mcp_harness.Base.{
  String, Bool, true, false, ◌≡◌, ◌≢◌, refl, Option, none, some, [], ◌∷◌, ok, err, string_dec, trim,
  same_iff, idempotency_key_reused, idempotency_retention_full,
}
use agentdock_mcp_harness.Store.{Db, select_value, safe_document_part, new_row, delete_document}
use agentdock_mcp_harness.Idempotency.{
  Operation, exited, new_operation, claim_operation, mark_operation, mark, normalize_key,
}
use agentdock_mcp_harness.Idempotency.Prune.{
  prune, claim, list_operations, expire, evict, make_room,
}
use agentdock_mcp_harness.Idempotency.Replay.{here, next, marked}
use agentdock_mcp_harness.Idempotency.Claims.{claim-replays}
use agentdock_mcp_harness.Idempotency.Retention.{prune_keeps, mark_missing_stays}

abbrev first : Operation
first = new_operation "task_1" "run" "f" "op_1" "proc_1" "me" 5

abbrev ended : Operation
ended = record first { status = exited; updated_at = 7; completed_at = some 7 }

ending : mark_operation "proc_1" exited 7 (some first) ≡ ok (some ended, tt)
unfolding mark_operation string_dec
ending = refl

other_text : ◌≢◌ {A = String} "g" "f"
unfolding string_dec
other_text h = false≢true ((same_iff "g" "f").1 h)

abbrev any_order : String → String → Bool
any_order x y = true

-- One operation that has ended and one that has not.
abbrev two : Db (Option Operation)
two = record {
  rows = new_row "operation" "op_1" (some ended) 7 ∷ new_row "operation" "op_2" (some first) 5 ∷ [];
  saved = none;
  closed = false;
}

prunes_expired : (prune any_order 3 5 10 two).1 ≡ ok 1
unfolding prune list_operations expire make_room delete_document safe_document_part string_dec trim
prunes_expired = refl

keeps_recent : (prune any_order 4 5 10 two).1 ≡ ok 2
unfolding prune list_operations expire make_room delete_document safe_document_part string_dec trim
keeps_recent = refl

-- A later call finds the operation that has ended.
abbrev to_op_1 : String → String → String → String
to_op_1 task_id tool key = "op_1"

claim-replays_example :
    let call = λ (print : String).
      (claim any_order 4 5 to_op_1 "task_1" "run" "key" print "proc_2" "you" 10 10 two).1 in
    (call "f" ≡ ok (some ended, false))
    × (ended.run_id ≡ "proc_1")
    × (call "g" ≡ err idempotency_key_reused)
unfolding prune list_operations expire make_room delete_document safe_document_part string_dec trim
    claim_operation normalize_key select_value
claim-replays_example =
    claim-replays any_order 4 5 to_op_1 "task_1" "run" "key" "key" "f" "g" "proc_1" "me" "proc_2"
      "you" 5 10 10 2 none true two refl (next here (marked "proc_1" exited 7 ending)) other_text
      (refl, refl) refl refl refl refl

is_full : (prune any_order 4 1 10 two).1 ≡ err idempotency_retention_full
unfolding prune list_operations expire make_room evict delete_document safe_document_part string_dec
    trim
is_full = refl

prune_keeps_example :
    select_value "operation" "op_2" (prune any_order 3 5 10 two).0.rows ≡ some (some first)
unfolding safe_document_part select_value string_dec trim
prune_keeps_example =
    prune_keeps any_order 3 5 10 two "op_2" (some first) ((refl, refl, (refl, refl, tt))) refl refl

mark_missing_stays_example :
    select_value "operation" "op_3"
      (prune any_order 3 5 10 (mark "op_3" "proc_3" exited 8 two).0).0.rows
    ≡ some none
unfolding safe_document_part select_value string_dec trim
mark_missing_stays_example =
    mark_missing_stays any_order 3 5 8 10 two "op_3" "proc_3" exited (refl, refl, (refl, refl, tt))
      refl (refl, refl) refl
