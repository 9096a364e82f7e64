-- ===== src/Plan/Start/Claims.antt =====
-- plan-service.js: the table of Plans before and after the claim of a new Plan by its driver in `start`.
use agentdock_mcp_harness.Base.{
  ℕ, ◌≤◌, String, Bool, true, Option, none, some, List, [], ◌∷◌, count, arith, ◌≡◌, refl, subst,
  sym, ap, ◌∙◌, inl, inr, Result, ok, err, Result-cases, not, ◌||◌, false, ok-injective, Bool-cases,
}
use agentdock_mcp_harness.Store.{
  Row, Db, load_document, mutate_document, select_value, upsert, is_row,
}
use agentdock_mcp_harness.Store.Transactions.{
  mutate_document-err, mutate_document-rows, mutate_document-keys,
}
use agentdock_mcp_harness.Plan.{Plan}
use agentdock_mcp_harness.Plan.Mutators.{is_running_plan}
use agentdock_mcp_harness.Plan.Driver.{ensure_driver}
use agentdock_mcp_harness.Plan.Start.{
  is_open_of, claim_mutator, ensure_stored, drive_created, is_driven, without_value, returning,
}

-- A document that is stored again with the Task and the openness that it had.
count-upsert_kept :
    (task_id k i : String) (plan next : Plan) (now : ℕ) (rows : List (Row Plan))
    → select_value k i rows ≡ some plan
    → next.task_id ≡ plan.task_id
    → next.status ≡ plan.status
    → count (is_open_of task_id) (upsert k i next now rows) ≡ count (is_open_of task_id) rows
unfolding select_value upsert
count-upsert_kept task_id k i plan next now [] h t s = cc
count-upsert_kept task_id k i plan next now (row ∷ rows) h t s =
    elim (Bool-cases (is_row k i row)) [
      | inl here ↦
          let same_value : row.value ≡ plan = cc (rw here at h) in
          let same_task : next.task_id ≡ row.value.task_id = cc (t, same_value) in
          let same_status : next.status ≡ row.value.status = cc (s, same_value) in
          rw here (rw (same_task, same_status) refl)
      | inr other ↦
          let rest = count-upsert_kept task_id k i plan next now rows (rw other at h) t s in
          rw (other, rest) refl
    ]

ensure_driver-keeps :
    (now : ℕ) (me : String) (plan : Plan)
    → ((ensure_driver now me plan).0.task_id ≡ plan.task_id)
      × ((ensure_driver now me plan).0.status ≡ plan.status)
unfolding ensure_driver
ensure_driver-keeps now me plan = ground arith

claim_mutator-keeps :
    (now : ℕ) (me : String) (current : Option Plan) (next : Plan) (claimed : Bool)
    → claim_mutator now me current ≡ ok (next, claimed)
    → (plan : Plan) × (current ≡ some plan)
      × (next.task_id ≡ plan.task_id)
      × (next.status ≡ plan.status)
claim_mutator-keeps now me none next claimed h = cc h
claim_mutator-keeps now me (some plan) next claimed h =
    let same_one : (ensure_driver now me plan).0 ≡ next = ap (λ r. r.0) (ok-injective h) in
    let kept = ensure_driver-keeps now me plan in
    (plan, refl, cc (same_one, kept.0), cc (same_one, kept.1))

without_value-rows :
    (task_id : String) (m : Db Plan × Result (Plan × Bool))
    → count (is_open_of task_id) (without_value m).0.rows ≡ count (is_open_of task_id) m.0.rows
without_value-rows task_id (db, ok r) = refl
without_value-rows task_id (db, err c) = refl

module _ (task_id : String) (now : ℕ) (me plan_id : String) where
  mutated-count :
      (db : Db Plan)
      → count
          (is_open_of task_id)
          (mutate_document "plan" plan_id (claim_mutator now me) now db).0.rows
        ≡ count (is_open_of task_id) db.rows
  mutated-count db =
      elim (Result-cases (mutate_document "plan" plan_id (claim_mutator now me) now db).1) [
        | inr (c, failed) ↦
            ap (λ (d : Db Plan). count (is_open_of task_id) d.rows)
              (mutate_document-err "plan" plan_id (claim_mutator now me) now db c failed)
        | inl (r, returned) ↦
            let (k, i, safe_kind, safe_id, opened, still) =
              mutate_document-keys "plan" plan_id (claim_mutator now me) now db returned in
            let (rows, done, computed) =
              mutate_document-rows "plan" plan_id (claim_mutator now me) now db safe_kind safe_id
                returned in
            let (plan, stored, same_task, same_status) =
              claim_mutator-keeps now me (select_value k i db.rows) r.0 r.1 computed in
            ap (λ v. count (is_open_of task_id) v) rows
            ∙ count-upsert_kept task_id k i plan r.0 now db.rows stored same_task same_status
      ]

  ensure_stored-count :
      (db : Db Plan)
      → count (is_open_of task_id) (ensure_stored now me plan_id db).0.rows
        ≡ count (is_open_of task_id) db.rows
  unfolding ensure_stored
  ensure_stored-count db =
      let mutated = mutated-count db in
      elim (Result-cases (load_document "plan" plan_id db)) [
        | inr (c, failed) ↦ rw failed refl
        | inl (none, missing) ↦ rw missing refl
        | inl (some plan, found) ↦
            rw found
              (elim (Bool-cases (not (is_running_plan plan.status) || is_driven now me plan)) [
                | inl stops ↦ rw stops refl
                | inr tries ↦ rw tries (
                    without_value-rows task_id
                      (mutate_document "plan" plan_id (claim_mutator now me) now db)
                    ∙ mutated)
              ])
      ]

returning-rows : (plan : Plan) (m : Db Plan × Result (Unit {0})) → (returning plan m).0 ≡ m.0
returning-rows plan (db, ok r) = refl
returning-rows plan (db, err c) = refl

pub drive_created-one_open :
    (task_id me plan_id : String) (logged : Result (Unit {0})) (now : ℕ)
    (m : Db Plan × Result (Plan × Bool))
    → count (is_open_of task_id) m.0.rows ≤ 1
    → count (is_open_of task_id) (drive_created me plan_id logged now m).0.rows ≤ 1
unfolding drive_created
drive_created-one_open task_id me plan_id logged now (db, err c) one = one
drive_created-one_open task_id me plan_id logged now (db, ok (plan, false)) one = one
drive_created-one_open task_id me plan_id (err c) now (db, ok (plan, true)) one = one
drive_created-one_open task_id me plan_id (ok u) now (db, ok (plan, true)) one =
    subst (λ n. n ≤ 1)
      (sym (
        ap (λ (d : Db Plan). count (is_open_of task_id) d.rows)
          (returning-rows plan (ensure_stored now me plan_id db))
        ∙ ensure_stored-count task_id now me plan_id db))
      one
