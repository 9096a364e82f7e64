-- ===== src/Task/Service.antt =====
-- `mutate` and `get` of task-service.js over the document store.
use agentdock_mcp_harness.Base.{
  ℕ, String, ◌≡◌, refl, Option, none, some, arith, Result, ok, err, Code, Bool-cases, true, sym, ap,
  ◌∙◌, inl, inr,
}
use agentdock_mcp_harness.Store.{Db, load_document, mutate_document}
use agentdock_mcp_harness.Store.Transactions.{mutate_document-err, mutate_document-load}
use agentdock_mcp_harness.Task.{Task, get, mutate, existing, matches_id}

get-load :
    (task_id : String) (valid : matches_id "task_" task_id ≡ true) (db : Db Task) (t : Task)
    → load_document "task" task_id db ≡ ok (some t)
    → get task_id db ≡ ok t
unfolding get
get-load task_id valid db t h = rw (valid, h)

module _ {A : Type 0} (task_id : String) (mutator : Task → Result (Task × A)) (now : ℕ)
    (db : Db Task) where
  -- A mutation that throws, whatever threw, leaves the stored Tasks as they were.
  pub mutate_rollback :
      (c : Code)
      → (mutate task_id mutator now db).1 ≡ err c
      → (mutate task_id mutator now db).0 ≡ db
  unfolding mutate
  mutate_rollback c h =
      ground (arith, mutate_document-err "task" task_id (existing mutator) now db c)

  -- The identifier of a mutation that returns is valid, so the store was reached.
  mutate_valid_id :
      {u : Task} {a : A}
      → (mutate task_id mutator now db).1 ≡ ok (u, a)
      → (matches_id "task_" task_id ≡ true)
        × (mutate task_id mutator now db ≡ mutate_document "task" task_id (existing mutator) now db)
  unfolding mutate
  mutate_valid_id h = elim (Bool-cases (matches_id "task_" task_id)) [
    | inl valid ↦ (valid, rw valid)
    | inr bad ↦ absurd (ground arith)
  ]

  -- A mutation that returns started from the Task that `get` reads, and `get` reads its result.
  pub mutate-get :
      {u : Task} {a : A}
      → (mutate task_id mutator now db).1 ≡ ok (u, a)
      → (t : Task) × (get task_id db ≡ ok t)
        × (mutator t ≡ ok (u, a))
        × (get task_id (mutate task_id mutator now db).0 ≡ ok u)
  mutate-get {u} {a} h =
      let (valid, stored) = mutate_valid_id h in
      let (old, before, computed, after) =
        mutate_document-load "task" task_id (existing mutator) now db
          (ap (λ r. r.1) (sym stored) ∙ h) in
      let (t, is_old, made) = existing-eq-ok old u a computed in
      (
        t,
        get-load task_id valid db t (before ∙ ap ok is_old),
        made,
        get-load task_id valid (mutate task_id mutator now db).0 u (rw stored after),
      )
    where
      existing-eq-ok :
          (old : Option Task) (u : Task) (a : A)
          → existing mutator old ≡ ok (u, a)
          → (t : Task) × (old ≡ some t) × (mutator t ≡ ok (u, a))
      existing-eq-ok none u a e = cc
      existing-eq-ok (some t) u a e = (t, refl, e)
