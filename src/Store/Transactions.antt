-- ===== src/Store/Transactions.antt =====
-- `mutateDocument` as a transaction.
use agentdock_mcp_harness.Base.{
  ℕ, ◌+◌, String, false, ◌≡◌, Option, none, some, ◌&&◌, arith, if◌then◌else◌, same, Result, ok, err,
  Code, Result-cases, inl, inr, ap, ◌∙◌, same_refl,
}
use agentdock_mcp_harness.Store.{
  Db, Failures, no_failures, mutate_document_with, mutate_document, load_document,
  safe_document_part, select_value, upsert,
}
use agentdock_mcp_harness.Store.Laws.{select_value-upsert, revision_of, revision_of-upsert}

module _ {ℓ κ} {V : Type ℓ} {A : Type κ} (failures : Failures) (kind id : String)
    (mutator : Option V → Result (V × A)) (now : ℕ) (db : Db V) where
  -- A mutateDocument that throws leaves the database as it was before the call, in no new transaction, whether the
  -- store is closed, a key is refused, a transaction is open already, the mutator throws, its result is no JSON value,
  -- or the INSERT or COMMIT fails.
  pub mutate_document_rollback :
      (c : Code)
      → (mutate_document_with failures kind id mutator now db).1 ≡ err c
      → (mutate_document_with failures kind id mutator now db).0 ≡ db
  unfolding mutate_document_with
  mutate_document_rollback c h = ground arith

module _ {ℓ κ} {V : Type ℓ} {A : Type κ} (kind id : String) (mutator : Option V → Result (V × A))
    (now : ℕ) (db : Db V) {k i : String} {next : V} {a : A}
    (safe_kind : safe_document_part kind ≡ ok k) (safe_id : safe_document_part id ≡ ok i)
    (returned : (mutate_document kind id mutator now db).1 ≡ ok (next, a)) where
  pub mutate_document-rows :
      ((mutate_document kind id mutator now db).0.rows ≡ upsert k i next now db.rows)
      × ((mutate_document kind id mutator now db).0.saved ≡ none)
      × (mutator (select_value k i db.rows) ≡ ok (next, a))
  unfolding mutate_document
  mutate_document-rows = ground arith

  -- A mutation that returns has stored the returned value under its own key alone, computed from the
  -- value that was there, has counted one more revision and has left no transaction open.
  pub mutate_document_commit :
      let after = (mutate_document kind id mutator now db).0 in
      (mutator (select_value k i db.rows) ≡ ok (next, a))
      × ((k' i' : String)
          → select_value k' i' after.rows
            ≡ (if same k k' && same i i' then some next else select_value k' i' db.rows))
      × (revision_of k i after.rows ≡ revision_of k i db.rows + 1)
      × (after.saved ≡ none)
  mutate_document_commit =
      let (rows, done, computed) = mutate_document-rows in
      (
        computed,
        λ k' i'. rw rows (select_value-upsert k i k' i' next now db.rows),
        rw rows (revision_of-upsert k i next now db.rows),
        done,
      )

module _ {ℓ κ} {V : Type ℓ} {A : Type κ} (kind id : String) (mutator : Option V → Result (V × A))
    (now : ℕ) (db : Db V) where
  pub mutate_document-err :
      (c : Code)
      → (mutate_document kind id mutator now db).1 ≡ err c
      → (mutate_document kind id mutator now db).0 ≡ db
  unfolding mutate_document
  mutate_document-err c h = mutate_document_rollback no_failures kind id mutator now db c h

  pub mutate_document-keys :
      {next : V} {a : A}
      → (mutate_document kind id mutator now db).1 ≡ ok (next, a)
      → (k : String) × (i : String) × (safe_document_part kind ≡ ok k)
        × (safe_document_part id ≡ ok i)
        × (db.closed ≡ false)
        × ((mutate_document kind id mutator now db).0.closed ≡ false)
  unfolding mutate_document
  mutate_document-keys h = elim (Result-cases (safe_document_part kind)) [
    | inr (c, bad) ↦ absurd (ground arith)
    | inl (k, safe_kind) ↦ elim (Result-cases (safe_document_part id)) [
      | inr (c, bad) ↦ absurd (ground arith)
      | inl (i, safe_id) ↦ (k, i, safe_kind, safe_id, ground arith, ground arith)
    ]
  ]

  -- A mutation that returns is a read of the document, the mutator on what was read, and a
  -- document that the next read of the same key gives back.
  pub mutate_document-load :
      {next : V} {a : A}
      → (mutate_document kind id mutator now db).1 ≡ ok (next, a)
      → (old : Option V) × (load_document kind id db ≡ ok old)
        × (mutator old ≡ ok (next, a))
        × (load_document kind id (mutate_document kind id mutator now db).0 ≡ ok (some next))
  mutate_document-load {next} {a} h =
      let (k, i, safe_kind, safe_id, opened, still) = mutate_document-keys h in
      let (computed, views, _, _) =
        mutate_document_commit kind id mutator now db safe_kind safe_id h in
      (
        select_value k i db.rows,
        unfold load_document in rw (opened, safe_kind, safe_id),
        computed,
        unfold load_document in
            rw (still, safe_kind, safe_id) (ap ok (views k i ∙ rw (same_refl k, same_refl i))),
      )
