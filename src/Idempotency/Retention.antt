-- ===== src/Idempotency/Retention.antt =====
-- idempotency-service.js: the documents in the table before and after a `prune`.
use agentdock_mcp_harness.Base.{
  ℕ, String, Bool, false, not, ◌&&◌, ◌≡◌, refl, Option, none, some, List, [], ◌∷◌, arith, Result,
  ok, err, same_refl, All, any, keep, length, ltb, same, Result-cases, Bool-cases, inl, inr, subst,
}
use agentdock_mcp_harness.Store.{
  Row, Db, is_row, select_value, safe_document_part, delete_document, delete_rows, upsert,
  mutate_document,
}
use agentdock_mcp_harness.Store.Laws.{select_value-delete_rows, select_value-upsert}
use agentdock_mcp_harness.Idempotency.{Operation, mark, mark_operation, OperationStatus}
use agentdock_mcp_harness.Idempotency.Prune.{
  status_terminal, is_expired, chain, deleted, sort, list_operations, expire, evict, make_room,
  prune, no_later,
}
use agentdock_mcp_harness.Idempotency.Table.{
  All-sort, IsTable, IsTable-delete_rows, Other, Spared, is_operation, operation_kind, table-Spared,
}

module _ (id : String) (v : Option Operation) (live : status_terminal v ≡ false) where
  pub record Holds (db : Db (Option Operation)) : Type 0 where
    pub table : IsTable db.rows
    pub stored : select_value "operation" id db.rows ≡ some v

  chain-Holds :
      {A B : Type 0} (m : Db (Option Operation) × Result A)
      (k : A → Db (Option Operation) → Db (Option Operation) × Result B)
      → Holds m.0
      → ((a : A) (db : Db (Option Operation)) → Holds db → Holds (k a db).0)
      → Holds (chain m k).0
  chain-Holds (db, ok a) k h f = f a db h
  chain-Holds (db, err c) k h f = h

  delete-rows :
      (document : Row (Option Operation)) (db next : Db (Option Operation))
      → safe_document_part document.id ≡ ok document.id
      → delete_document "operation" document.id db ≡ ok next
      → next.rows ≡ delete_rows "operation" document.id db.rows
  unfolding delete_document
  delete-rows document db next safe e = ground (arith, operation_kind)

  Holds-next :
      (document : Row (Option Operation)) (db next : Db (Option Operation))
      → Other id document
      → Holds db
      → delete_document "operation" document.id db ≡ ok next
      → Holds next
  Holds-next document db next (safe, other) h e =
      let rows = delete-rows document db next safe e in
      record {
        table = rw rows (IsTable-delete_rows "operation" document.id db.rows h.table);
        stored =
            rw
              (rows, select_value-delete_rows "operation" document.id "operation" id db.rows, other)
              (ground (arith, h.stored));
      }

  deleted-Holds :
      (document : Row (Option Operation)) (db : Db (Option Operation))
      → Other id document
      → Holds db
      → Holds (deleted db (delete_document "operation" document.id db)).0
  deleted-Holds document db other h =
      elim (Result-cases (delete_document "operation" document.id db)) [
        | inl (next, e) ↦ rw e (Holds-next document db next other h e)
        | inr (c, e) ↦ rw e h
      ]

  terminal_others :
      (xs : List (Row (Option Operation)))
      → All (Spared id) xs
      → All (Other id) (keep (λ row. status_terminal row.value) xs)
  terminal_others [] h = tt
  terminal_others (x ∷ xs) h = ground (arith, terminal_others xs h.1)

  module _ (order : String → String → Bool) (retention_ms max_records now : ℕ) where
    expire-Holds :
        (documents : List (Row (Option Operation))) (db : Db (Option Operation))
        → All (Spared id) documents
        → Holds db
        → Holds (expire order retention_ms max_records now documents db).0
    unfolding expire
    expire-Holds [] db s h = h
    expire-Holds (document ∷ documents) db s h =
        elim (Bool-cases (is_expired order retention_ms max_records now document.value)) [
          | inl hit ↦ rw hit (
              chain-Holds (deleted db (delete_document "operation" document.id db))
                (λ _ next. expire order retention_ms max_records now documents next)
                (deleted-Holds document db (s.0 (ground arith)) h)
                (λ _ next k. expire-Holds documents next s.1 k))
          | inr miss ↦ rw miss (expire-Holds documents db s.1 h)
        ]

    evict-Holds :
        (documents remaining : List (Row (Option Operation))) (db : Db (Option Operation))
        → All (Other id) documents
        → Holds db
        → Holds (evict order retention_ms max_records documents remaining db).0
    unfolding evict
    evict-Holds [] remaining db s h = h
    evict-Holds (document ∷ documents) remaining db s h =
        elim (Bool-cases (ltb (length remaining) max_records)) [
          | inl room ↦ rw room h
          | inr full ↦ rw full (
              chain-Holds (deleted db (delete_document "operation" document.id db))
                (λ _ next.
                  evict order retention_ms max_records documents
                    (keep (λ item. not (same item.id document.id)) remaining) next)
                (deleted-Holds document db s.0 h) (λ _ next k. evict-Holds documents _ next s.1 k))
        ]

    make_room-Holds :
        (remaining : List (Row (Option Operation))) (db : Db (Option Operation))
        → All (Spared id) remaining
        → Holds db
        → Holds (make_room order retention_ms max_records remaining db).0
    unfolding make_room
    make_room-Holds remaining db s h = elim (Bool-cases (ltb (length remaining) max_records)) [
      | inl room ↦ rw room h
      | inr full ↦ rw full (
          chain-Holds (evict order retention_ms max_records _ remaining db) _
            (evict-Holds _ remaining db
              (All-sort (Other id) no_later [] _ tt (terminal_others remaining s)) h)
            (λ left next k. k))
    ]

    listed-Spared :
        (db : Db (Option Operation)) (documents : List (Row (Option Operation)))
        → Holds db
        → list_operations order retention_ms max_records db ≡ ok documents
        → All (Spared id) documents
    unfolding list_operations
    listed-Spared db documents h e =
        let operations = keep is_operation db.rows in
        let listed : sort (λ x y. order x.id y.id) [] operations ≡ documents = ground arith in
        subst (λ (xs : List (Row (Option Operation))). All (Spared id) xs) listed
          (All-sort (Spared id) (λ x y. order x.id y.id) [] operations tt
            (table-Spared id v db.rows h.table h.stored live))

    relist :
        (next : Db (Option Operation))
        → Holds next
        → Holds
            (chain
              (next, list_operations order retention_ms max_records next)
              (λ remaining last. make_room order retention_ms max_records remaining last)).0
    relist next k = elim (Result-cases (list_operations order retention_ms max_records next)) [
      | inr (c, e) ↦ rw e k
      | inl (remaining, e) ↦
          rw e (make_room-Holds remaining next (listed-Spared next remaining k e) k)
    ]

    prune_from :
        (db : Db (Option Operation))
        → Holds db
        → Holds (prune order retention_ms max_records now db).0
    unfolding prune
    prune_from db h = elim (Result-cases (list_operations order retention_ms max_records db)) [
      | inr (c, e) ↦ rw e h
      | inl (documents, e) ↦ rw e (
          chain-Holds (expire order retention_ms max_records now documents db) _
            (expire-Holds documents db (listed-Spared db documents h e) h)
            (λ _ next k. relist next k))
    ]

-- `prune`, however it ends, leaves every document in place whose operation is not terminal, a `null`
-- document included, for any retention time, any maximum and any order of the identifiers.
pub prune_keeps :
    (order : String → String → Bool) (retention_ms max_records now : ℕ) (db : Db (Option Operation))
    (id : String) (v : Option Operation)
    → IsTable db.rows
    → select_value "operation" id db.rows ≡ some v
    → status_terminal v ≡ false
    → select_value "operation" id (prune order retention_ms max_records now db).0.rows ≡ some v
prune_keeps order retention_ms max_records now db id v table stored live =
    (prune_from id v live order retention_ms max_records now db
      (record { table = table; stored = stored })).stored

any-upsert :
    (k i k' i' : String) (v : Option Operation) (now : ℕ) (rows : List (Row (Option Operation)))
    → any (is_row k' i') rows ≡ false
    → (same k k' && same i i') ≡ false
    → any (is_row k' i') (upsert k i v now rows) ≡ false
unfolding upsert
any-upsert k i k' i' v now [] h n = ground arith
any-upsert k i k' i' v now (row ∷ rows) h n = ground (arith, any-upsert k i k' i' v now rows)

IsTable-upsert :
    (k i : String) (v : Option Operation) (now : ℕ) (rows : List (Row (Option Operation)))
    → safe_document_part i ≡ ok i
    → IsTable rows
    → IsTable (upsert k i v now rows)
unfolding upsert
IsTable-upsert k i v now [] safe t = ground arith
IsTable-upsert k i v now (row ∷ rows) safe t =
    ground
      (arith, IsTable-upsert k i v now rows safe t.2, any-upsert k i row.kind row.id v now rows t.0)

mark-rows :
    (db : Db (Option Operation)) (id run_id : String) (status : OperationStatus) (now : ℕ)
    → safe_document_part id ≡ ok id
    → (db.closed ≡ false) × (db.saved ≡ none)
    → select_value "operation" id db.rows ≡ none
    → (mark id run_id status now db).0.rows ≡ upsert "operation" id none now db.rows
unfolding mark mutate_document mark_operation
mark-rows db id run_id status now safe opened missing = ground (arith, operation_kind)

-- `mark` on an operation that is not stored, in an open store outside any transaction, stores a
-- `null` document under its identifier, and no later `prune` removes it.
pub mark_missing_stays :
    (order : String → String → Bool) (retention_ms max_records now later : ℕ)
    (db : Db (Option Operation)) (id run_id : String) (status : OperationStatus)
    → IsTable db.rows
    → safe_document_part id ≡ ok id
    → (db.closed ≡ false) × (db.saved ≡ none)
    → select_value "operation" id db.rows ≡ none
    → select_value "operation" id
        (prune order retention_ms max_records later (mark id run_id status now db).0).0.rows
      ≡ some none
mark_missing_stays order retention_ms max_records now later db id run_id status table safe opened
      missing =
    let rows = mark-rows db id run_id status now safe opened missing in
    prune_keeps order retention_ms max_records later (mark id run_id status now db).0 id none
      (rw rows (IsTable-upsert "operation" id none now db.rows safe table))
      (rw (rows, select_value-upsert "operation" id "operation" id none now db.rows)
        (ground (arith, same_refl id)))
      refl
