-- ===== src/Plan/Start/Replays.antt =====
-- plan-service.js: the table of Plans before and after `start`.
use agentdock_mcp_harness.Base.{
  ℕ, zero, ◌+◌, ◌≤◌, String, Bool, true, ◌&&◌, Option, none, some, List, [], ◌∷◌, count, find,
  if◌then◌else◌, arith, ◌≡◌, refl, subst, sym, ap, ◌∙◌, inl, inr, Result, ok, err, Result-cases,
  Option-cases, Bool-cases, string_dec, same, same_iff,
}
use agentdock_mcp_harness.Store.{Row, Db, mutate_document, select_value, upsert, new_row, is_row}
use agentdock_mcp_harness.Store.Transactions.{
  mutate_document-err, mutate_document-rows, mutate_document-keys,
}
use agentdock_mcp_harness.Task.{Task}
use agentdock_mcp_harness.Plan.{StepSpec, Plan}
use agentdock_mcp_harness.Plan.Validate.{StepInput}
use agentdock_mcp_harness.Plan.Start.{
  new_plan, is_open_of, start_mutator, store_plan, accepted, start,
}
use agentdock_mcp_harness.Plan.Start.Claims.{drive_created-one_open}

find-count :
    (p : Row Plan → Bool) (rows : List (Row Plan)) → find p rows ≡ none → count p rows ≡ zero
find-count p [] h = refl
find-count p (row ∷ rows) h = ground (arith, find-count p rows)

-- A document that is stored again counts as it did.
count-upsert_same :
    (task_id k i : String) (plan : Plan) (now : ℕ) (rows : List (Row Plan))
    → select_value k i rows ≡ some plan
    → count (is_open_of task_id) (upsert k i plan now rows) ≡ count (is_open_of task_id) rows
unfolding select_value upsert
count-upsert_same task_id k i plan now [] h = cc
count-upsert_same task_id k i plan now (row ∷ rows) h = elim (Bool-cases (is_row k i row)) [
  | inl here ↦
      let same_value : row.value ≡ plan = cc (rw here at h) in rw here (rw (sym same_value) refl)
  | inr other ↦
      let rest = count-upsert_same task_id k i plan now rows (rw other at h) in
      rw (other, rest) refl
]

count-upsert_new :
    (task_id k i : String) (plan : Plan) (now : ℕ) (rows : List (Row Plan))
    → select_value k i rows ≡ none
    → count (is_open_of task_id) (upsert k i plan now rows)
      ≡ count (is_open_of task_id) rows
        + (if is_open_of task_id (new_row k i plan now) then 1 else 0)
unfolding select_value upsert
count-upsert_new task_id k i plan now [] h = ground arith
count-upsert_new task_id k i plan now (row ∷ rows) h =
    ground (arith, count-upsert_new task_id k i plan now rows)

-- What the mutator of `start` returned.
pub start_mutator-some :
    (rows : List (Row Plan)) (plan current result : Plan) (created : Bool)
    → start_mutator rows plan (some current) ≡ ok (result, created)
    → (result ≡ current)
      × (result.task_id ≡ plan.task_id)
      × (result.request_fingerprint ≡ plan.request_fingerprint)
unfolding start_mutator
start_mutator-some rows plan current result created h =
    elim (Bool-cases (
      same current.task_id plan.task_id
      && same current.request_fingerprint plan.request_fingerprint)) [
        | inl matches ↦ found matches (cc (rw (matches, start_mutator) at h))
        | inr differs ↦ cc (rw (differs, start_mutator) at h)
      ]
  where
    found :
        (same current.task_id plan.task_id
            && same current.request_fingerprint plan.request_fingerprint)
          ≡ true
        → current ≡ result
        → (result ≡ current)
          × (result.task_id ≡ plan.task_id)
          × (result.request_fingerprint ≡ plan.request_fingerprint)
    found matches e = (
      sym e,
      ap (λ (q : Plan). q.task_id) (sym e)
          ∙ (same_iff current.task_id plan.task_id).0 (ground (arith, matches)),
      ap (λ (q : Plan). q.request_fingerprint) (sym e)
          ∙ (same_iff current.request_fingerprint plan.request_fingerprint).0
              (ground (arith, matches)),
    )

pub start_mutator-none :
    (rows : List (Row Plan)) (plan result : Plan) (created : Bool)
    → start_mutator rows plan none ≡ ok (result, created)
    → (result ≡ plan) × (find (is_open_of plan.task_id) rows ≡ none)
unfolding start_mutator
start_mutator-none rows plan result created h =
    elim (Option-cases (find (is_open_of plan.task_id) rows)) [
      | inl free ↦ (sym (cc (rw (free, start_mutator) at h)), free)
      | inr (row, taken) ↦ cc (rw (taken, start_mutator) at h)
    ]

-- The open Plans of a Task, when the mutator returns for the Plan `plan`.
mutated-one_open :
    (task_id k i : String) (plan result : Plan) (created : Bool) (now : ℕ) (rows : List (Row Plan))
    → start_mutator rows plan (select_value k i rows) ≡ ok (result, created)
    → count (is_open_of task_id) rows ≤ 1
    → count (is_open_of task_id) (upsert k i result now rows) ≤ 1
mutated-one_open task_id k i plan result created now rows h one =
    elim (Option-cases (select_value k i rows)) [
      | inr (current, stored) ↦
          let parts = start_mutator-some rows plan current result created (rw stored at h) in
          let kept = count-upsert_same task_id k i current now rows stored in
          subst (λ (q : Plan). count (is_open_of task_id) (upsert k i q now rows) ≤ 1) (sym parts.0)
            (rw kept one)
      | inl fresh ↦
          let parts = start_mutator-none rows plan result created (rw fresh at h) in
          subst (λ (q : Plan). count (is_open_of task_id) (upsert k i q now rows) ≤ 1) (sym parts.0)
            (rw (count-upsert_new task_id k i plan now rows fresh) (one_more parts.1))
    ]
  where
    one_more :
        find (is_open_of plan.task_id) rows ≡ none
        → count (is_open_of task_id) rows
            + (if is_open_of task_id (new_row k i plan now) then 1 else 0)
          ≤ 1
    one_more free = elim (string_dec plan.task_id task_id) [
      | yes e ↦
          let before =
            subst (λ t. count (is_open_of t) rows ≡ zero) e
              (find-count (is_open_of plan.task_id) rows free) in
          ground (arith, before)
      | no differ ↦ grind (arith, differ, one)
    ]

module _ (upper : String → String) (plan_id_for : String → String → String)
    (fingerprint : List StepSpec → String) (instance_id : String) where
  store_plan-one_open :
      (task_id key other : String) (now : ℕ) (db : Db Plan) (r : Result (List StepSpec))
      → count (is_open_of other) db.rows ≤ 1
      → count
          (is_open_of other)
          (store_plan upper plan_id_for fingerprint instance_id task_id key now db r).0.rows
        ≤ 1
  unfolding store_plan
  store_plan-one_open task_id key other now db (err c) one = one
  store_plan-one_open task_id key other now db (ok specs) one =
      let id = plan_id_for task_id key in
      let plan = new_plan id task_id (fingerprint specs) instance_id specs now in
      let mutator = start_mutator db.rows plan in
      elim (Result-cases (mutate_document "plan" id mutator now db).1) [
        | inr (c, failed) ↦
            subst (λ (d : Db Plan). count (is_open_of other) d.rows ≤ 1)
              (sym (mutate_document-err "plan" id mutator now db c failed)) one
        | inl (r, returned) ↦
            let (k, i, safe_kind, safe_id, opened, still) =
              mutate_document-keys "plan" id mutator now db returned in
            let (rows, done, computed) =
              mutate_document-rows "plan" id mutator now db safe_kind safe_id returned in
            subst (λ v. count (is_open_of other) v ≤ 1) (sym rows)
              (mutated-one_open other k i plan r.0 r.1 now db.rows computed one)
      ]

  -- A Task that has at most one open Plan has at most one after a `start` for it or for another Task, whether the
  -- call returns or throws.
  pub start-one_open :
      (me : String) (logged : Result (Unit {0})) (tasks : Db Task) (task_id key other : String)
      (steps : List (Option StepInput)) (now : ℕ) (db : Db Plan)
      → count (is_open_of other) db.rows ≤ 1
      → count
          (is_open_of other)
          (start upper plan_id_for fingerprint instance_id me logged tasks task_id key steps now
            db).0.rows
        ≤ 1
  unfolding start
  start-one_open me logged tasks task_id key other steps now db one =
      let specs = accepted upper plan_id_for fingerprint instance_id tasks task_id key steps in
      drive_created-one_open other me (plan_id_for task_id key) logged now
        (store_plan upper plan_id_for fingerprint instance_id task_id key now db specs)
        (store_plan-one_open task_id key other now db specs one)
