-- ===== src/Idempotency/Prune.antt =====
-- idempotency-service.js: `prune`, and `claim`, which prunes first.
use agentdock_mcp_harness.Base.{
  ℕ, ◌+◌, String, Bool, false, not, ◌&&◌, Option, none, some, List, [], ◌∷◌, leb, ltb,
  if◌then◌else◌, same, length, keep, or_else, Result, ok, err, ◌>>◌, idempotency_retention_full,
}
use agentdock_mcp_harness.Store.{Row, Db, mutate_document, delete_document, assert_open}
use agentdock_mcp_harness.Idempotency.{
  Operation, claim_operation, current_of, is_terminal, normalize_key,
}

-- Statements in sequence on the database; the database is there beside a thrown error too.
abbrev pub chain {ℓ κ} :
    {S : Type 0} {A : Type ℓ} {B : Type κ} → S × Result A → (A → S → S × Result B) → S × Result B
chain (db, ok a) k = k a db
chain (db, err c) k = (db, err c)

module _ {A : Type 0} (before : A → A → Bool) where
  unfoldable pub insert_sorted : A → List A → List A
  insert_sorted x [] = x ∷ []
  insert_sorted x (y ∷ ys) = if before y x then y ∷ insert_sorted x ys else x ∷ y ∷ ys

  -- A stable sort: `before y x` says that `y` may stay in front of a later `x`.
  unfoldable pub sort : List A → List A → List A
  unfolding insert_sorted
  sort sorted [] = sorted
  sort sorted (x ∷ xs) = sort (insert_sorted x sorted) xs

abbrev pub status_terminal : Option Operation → Bool
status_terminal none = false
status_terminal (some operation) = is_terminal operation.status

-- `Date.parse(completed_at ?? updated_at ?? created_at)`
abbrev pub completed_time : Option Operation → ℕ
completed_time none = 0
completed_time (some operation) = or_else operation.completed_at operation.updated_at

abbrev pub no_later : Row (Option Operation) → Row (Option Operation) → Bool
no_later left right = leb (completed_time left.value) (completed_time right.value)

-- A `deleteDocument` inside a loop.
abbrev pub deleted :
    Db (Option Operation)
    → Result (Db (Option Operation))
    → Db (Option Operation) × Result (Unit {0})
deleted db (ok next) = (next, ok tt)
deleted db (err c) = (db, err c)

-- `id_order` is the order of `ORDER BY id`.
module _ (id_order : String → String → Bool) (retention_ms max_records : ℕ) where
  -- state-store.js: `listDocuments("operation")`
  unfoldable pub list_operations : Db (Option Operation) → Result (List (Row (Option Operation)))
  unfolding sort
  list_operations db = do
    assert_open db
    ok (sort (λ x y. id_order x.id y.id) [] (keep (λ row. same row.kind "operation") db.rows))

  -- The tests of the first loop of `prune`.
  abbrev pub is_expired : ℕ → Option Operation → Bool
  is_expired now value = status_terminal value && leb (completed_time value + retention_ms) now

  -- The first loop of `prune`.
  unfoldable pub expire :
      ℕ
      → List (Row (Option Operation))
      → Db (Option Operation)
      → Db (Option Operation) × Result (Unit {0})
  expire now [] db = (db, ok tt)
  expire now (document ∷ documents) db =
      if is_expired now document.value
      then chain (deleted db (delete_document "operation" document.id db))
          (λ _ next. expire now documents next)
      else expire now documents db

  -- The second loop of `prune`, from the documents that remain.
  unfoldable pub evict :
      List (Row (Option Operation))
      → List (Row (Option Operation))
      → Db (Option Operation)
      → Db (Option Operation) × Result (List (Row (Option Operation)))
  evict [] remaining db = (db, ok remaining)
  evict (document ∷ documents) remaining db =
      if ltb (length remaining) max_records
      then (db, ok remaining)
      else chain (deleted db (delete_document "operation" document.id db))
          (λ _ next. evict documents (keep (λ item. not (same item.id document.id)) remaining) next)

  -- `prune` from the second listing on.
  unfoldable pub make_room :
      List (Row (Option Operation)) → Db (Option Operation) → Db (Option Operation) × Result ℕ
  unfolding sort
  make_room remaining db =
      if ltb (length remaining) max_records
      then (db, ok (length remaining))
      else chain
          (evict (sort no_later [] (keep (λ row. status_terminal row.value) remaining)) remaining
            db)
          (λ left next. (
            next,
            if ltb (length left) max_records
                then ok (length left)
                else err idempotency_retention_full,
          ))

  -- `prune`
  unfoldable pub prune : ℕ → Db (Option Operation) → Db (Option Operation) × Result ℕ
  prune now db =
      chain (db, list_operations db)
        (λ documents opened. chain (expire now documents opened) (λ _ next.
          chain (next, list_operations next) (λ remaining last. make_room remaining last)))

  -- `claim`; `now` and `later` are its two readings of the clock.
  unfoldable pub claim :
      (String → String → String → String)
      → String
      → String
      → String
      → String
      → String
      → String
      → ℕ
      → ℕ
      → Db (Option Operation)
      → Db (Option Operation) × Result (Option Operation × Bool)
  claim operation_id task_id tool key fingerprint run_id owner now later db =
      chain (prune now db) (λ _ pruned.
        chain (pruned, normalize_key key)
          (λ normalized next.
            let id = operation_id task_id tool normalized in
            mutate_document "operation" id
              (λ stored.
                claim_operation task_id tool fingerprint id run_id owner later (current_of stored))
              later next))
