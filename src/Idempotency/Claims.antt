-- ===== src/Idempotency/Claims.antt =====
-- idempotency-service.js: `claim`, with the `prune` that it begins with, on a key that has an operation.
use agentdock_mcp_harness.Base.{
  ℕ, String, Bool, false, ◌≡◌, ◌≢◌, Option, none, some, List, [], ◌∷◌, arith, Result, ok, err, keep,
  length, ltb, same, not, Bool-cases, inl, inr, ap, ok-injective, idempotency_key_reused,
}
use agentdock_mcp_harness.Store.{
  Row, Db, select_value, safe_document_part, delete_document, mutate_document,
}
use agentdock_mcp_harness.Idempotency.{Operation, claim_operation, current_of, normalize_key}
use agentdock_mcp_harness.Idempotency.Prune.{
  is_expired, chain, deleted, list_operations, expire, evict, make_room, prune, claim,
}
use agentdock_mcp_harness.Idempotency.Table.{operation_kind}
use agentdock_mcp_harness.Idempotency.Replay.{History, replay}

-- The database is not closed, and in no transaction.
abbrev pub IsOpen : Db (Option Operation) → Type 0
IsOpen db = (db.closed ≡ false) × (db.saved ≡ none)

chain-IsOpen :
    {A B : Type 0} (m : Db (Option Operation) × Result A)
    (k : A → Db (Option Operation) → Db (Option Operation) × Result B)
    → IsOpen m.0
    → ((a : A) (db : Db (Option Operation)) → IsOpen db → IsOpen (k a db).0)
    → IsOpen (chain m k).0
chain-IsOpen (db, ok a) k h f = f a db h
chain-IsOpen (db, err c) k h f = h

deleted-IsOpen :
    (id : String) (db : Db (Option Operation))
    → IsOpen db
    → IsOpen (deleted db (delete_document "operation" id db)).0
unfolding delete_document
deleted-IsOpen id db h = ground arith

chain-eq-ok :
    {A B : Type 0} (m : Db (Option Operation) × Result A)
    (k : A → Db (Option Operation) → Db (Option Operation) × Result B) {a : A}
    → m.1 ≡ ok a
    → chain m k ≡ k a m.0
chain-eq-ok (db, ok b) k h = ap (λ x. k x db) (ok-injective h)
chain-eq-ok (db, err c) k h = cc h

mutate_document-result :
    (id : String) (mutator : Option (Option Operation) → Result (Option Operation × Bool)) (now : ℕ)
    (db : Db (Option Operation)) (r : Result (Option Operation × Bool))
    → safe_document_part id ≡ ok id
    → IsOpen db
    → mutator (select_value "operation" id db.rows) ≡ r
    → (mutate_document "operation" id mutator now db).1 ≡ r
unfolding mutate_document
mutate_document-result id mutator now db (ok x) safe opened h = ground (arith, operation_kind)
mutate_document-result id mutator now db (err c) safe opened h = ground (arith, operation_kind)

module _ (order : String → String → Bool) (retention_ms max_records : ℕ) where
  expire-IsOpen :
      (now : ℕ) (documents : List (Row (Option Operation))) (db : Db (Option Operation))
      → IsOpen db
      → IsOpen (expire order retention_ms max_records now documents db).0
  unfolding expire
  expire-IsOpen now [] db h = h
  expire-IsOpen now (document ∷ documents) db h =
      elim (Bool-cases (is_expired order retention_ms max_records now document.value)) [
        | inl hit ↦ rw hit (
            chain-IsOpen (deleted db (delete_document "operation" document.id db)) _
              (deleted-IsOpen document.id db h) (λ _ next k. expire-IsOpen now documents next k))
        | inr miss ↦ rw miss (expire-IsOpen now documents db h)
      ]

  evict-IsOpen :
      (documents remaining : List (Row (Option Operation))) (db : Db (Option Operation))
      → IsOpen db
      → IsOpen (evict order retention_ms max_records documents remaining db).0
  unfolding evict
  evict-IsOpen [] remaining db h = h
  evict-IsOpen (document ∷ documents) remaining db h =
      elim (Bool-cases (ltb (length remaining) max_records)) [
        | inl room ↦ rw room h
        | inr full ↦ rw full (
            chain-IsOpen (deleted db (delete_document "operation" document.id db))
              (λ _ next.
                evict order retention_ms max_records documents
                  (keep (λ item. not (same item.id document.id)) remaining) next)
              (deleted-IsOpen document.id db h) (λ _ next k. evict-IsOpen documents _ next k))
      ]

  make_room-IsOpen :
      (remaining : List (Row (Option Operation))) (db : Db (Option Operation))
      → IsOpen db
      → IsOpen (make_room order retention_ms max_records remaining db).0
  unfolding make_room
  make_room-IsOpen remaining db h = elim (Bool-cases (ltb (length remaining) max_records)) [
    | inl room ↦ rw room h
    | inr full ↦ rw full (
        chain-IsOpen (evict order retention_ms max_records _ remaining db) _
          (evict-IsOpen _ remaining db h) (λ left next k. k))
  ]

  prune-IsOpen :
      (now : ℕ) (db : Db (Option Operation))
      → IsOpen db
      → IsOpen (prune order retention_ms max_records now db).0
  unfolding prune
  prune-IsOpen now db h =
      chain-IsOpen (db, list_operations order retention_ms max_records db) _ h
        (λ documents opened k.
          chain-IsOpen (expire order retention_ms max_records now documents opened) _
            (expire-IsOpen now documents opened k)
            (λ _ next l.
              chain-IsOpen (next, list_operations order retention_ms max_records next) _ l
                (λ remaining last m. make_room-IsOpen remaining last m)))

  -- What a `claim` does once its `prune` has returned.
  claim-pruned :
      (operation_id : String → String → String → String)
      (task_id tool key k fingerprint run_id owner : String) (now later n : ℕ)
      (db : Db (Option Operation)) (p : Operation) (r : Result (Option Operation × Bool))
      → IsOpen db
      → normalize_key key ≡ ok k
      → safe_document_part (operation_id task_id tool k) ≡ ok (operation_id task_id tool k)
      → (prune order retention_ms max_records now db).1 ≡ ok n
      → select_value "operation"
          (operation_id task_id tool k)
          (prune order retention_ms max_records now db).0.rows
        ≡ some (some p)
      → claim_operation task_id tool fingerprint
          (operation_id task_id tool k)
          run_id
          owner
          later
          (some p)
        ≡ r
      → (claim order retention_ms max_records operation_id task_id tool key fingerprint run_id owner
          now later db).1
        ≡ r
  unfolding claim
  claim-pruned operation_id task_id tool key k fingerprint run_id owner now later n db p r opened
        normal safe pruned stored h =
      let id = operation_id task_id tool k in
      let after = (prune order retention_ms max_records now db).0 in
      rw (chain-eq-ok (prune order retention_ms max_records now db) _ pruned, normal)
        (mutate_document-result id
          (λ current.
            claim_operation task_id tool fingerprint id run_id owner later (current_of current))
          later after r safe (prune-IsOpen now db opened) (rw stored h))

-- A call of claim that finds the operation of its key still stored, whatever was done to it by calls since it was
-- claimed: if the prune that the call begins with returns and leaves the operation stored (a prune does so while the
-- operation is not terminal), then the same request gets the Run of the first claim and creates nothing, and another
-- request under the key is refused.
pub claim-replays :
    (order : String → String → Bool) (retention_ms max_records : ℕ)
    (operation_id : String → String → String → String)
    (task_id tool key k fingerprint other_fingerprint run_id owner run_id' owner' : String)
    (first now later n : ℕ) (current : Option Operation) (created : Bool) {o p : Operation}
    (db : Db (Option Operation))
    → claim_operation task_id tool fingerprint
        (operation_id task_id tool k)
        run_id
        owner
        first
        current
      ≡ ok (some o, created)
    → History o p
    → other_fingerprint ≢ fingerprint
    → IsOpen db
    → normalize_key key ≡ ok k
    → safe_document_part (operation_id task_id tool k) ≡ ok (operation_id task_id tool k)
    → (prune order retention_ms max_records now db).1 ≡ ok n
    → select_value "operation"
        (operation_id task_id tool k)
        (prune order retention_ms max_records now db).0.rows
      ≡ some (some p)
    → let call = λ (print : String).
      (claim order retention_ms max_records operation_id task_id tool key print run_id' owner' now
        later db).1 in
      (call fingerprint ≡ ok (some p, false))
      × (p.run_id ≡ o.run_id)
      × (call other_fingerprint ≡ err idempotency_key_reused)
claim-replays order retention_ms max_records operation_id task_id tool key k fingerprint
      other_fingerprint run_id owner run_id' owner' first now later n current created {o} {p} db h
      history differs opened normal safe pruned stored =
    let (again, same_run, refused) =
      replay task_id tool fingerprint other_fingerprint (operation_id task_id tool k) run_id owner
        run_id' owner' first later current created h history differs in
    let call = claim-pruned order retention_ms max_records operation_id task_id tool key k in
    (
      call fingerprint run_id' owner' now later n db p _ opened normal safe pruned stored again,
      same_run,
      call other_fingerprint run_id' owner' now later n db p _ opened normal safe pruned stored
          refused,
    )
