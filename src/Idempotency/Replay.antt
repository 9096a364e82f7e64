-- ===== src/Idempotency/Replay.antt =====
-- idempotency-service.js: the later calls on a stored operation.
use agentdock_mcp_harness.Base.{
  ℕ, String, Bool, false, ◌≡◌, ◌≢◌, refl, ◌∙◌, Option, none, some, arith, ok, err,
  idempotency_key_reused,
}
use agentdock_mcp_harness.Idempotency.{
  Operation, OperationStatus, claim_operation, takeover_operation, mark_operation,
}

-- A later call on the stored operation that returned.
pub data Later (o p : Operation) : Type 0 where
  claimed_again :
      (task_id tool fingerprint id run_id owner : String) (now : ℕ) (created : Bool)
      → claim_operation task_id tool fingerprint id run_id owner now (some o) ≡ ok (some p, created)
      → Later o p
  taken_over :
      (run_id owner : String) (now : ℕ)
      → takeover_operation run_id owner now (some o) ≡ ok (some p, tt)
      → Later o p
  marked :
      (run_id : String) (status : OperationStatus) (now : ℕ)
      → mark_operation run_id status now (some o) ≡ ok (some p, tt)
      → Later o p

pub data History (o : Operation) : Operation → Type 0 where
  here : History o o
  next : {p q : Operation} → History o p → Later p q → History o q

-- What an operation is bound to.
record Bound (o p : Operation) : Type 0 where
  task_id : p.task_id ≡ o.task_id
  tool : p.tool ≡ o.tool
  request_fingerprint : p.request_fingerprint ≡ o.request_fingerprint
  run_id : p.run_id ≡ o.run_id

Later-Bound : (o p : Operation) → Later o p → Bound o p
unfolding claim_operation takeover_operation mark_operation
Later-Bound o p (claimed_again task_id tool fingerprint id run_id owner now created h) =
    ground arith
Later-Bound o p (taken_over run_id owner now h) = ground arith
Later-Bound o p (marked run_id status now h) = ground arith

History-Bound : {o p : Operation} → History o p → Bound o p
History-Bound here = record {
  task_id = refl;
  tool = refl;
  request_fingerprint = refl;
  run_id = refl;
}
History-Bound (next {p} {q} h l) =
    let b = History-Bound h in
    let c = Later-Bound p q l in
    record {
      task_id = c.task_id ∙ b.task_id;
      tool = c.tool ∙ b.tool;
      request_fingerprint = c.request_fingerprint ∙ b.request_fingerprint;
      run_id = c.run_id ∙ b.run_id;
    }

claimed_for :
    (task_id tool fingerprint id run_id owner : String) (now : ℕ) (current : Option Operation)
    (created : Bool) (o : Operation)
    → claim_operation task_id tool fingerprint id run_id owner now current ≡ ok (some o, created)
    → (o.task_id ≡ task_id) × (o.tool ≡ tool) × (o.request_fingerprint ≡ fingerprint)
unfolding claim_operation
claimed_for task_id tool fingerprint id run_id owner now none created o h = ground arith
claimed_for task_id tool fingerprint id run_id owner now (some c) created o h = ground arith

-- Once a key has claimed an operation, and whatever is done to that operation afterwards, the same
-- request under the same key gets the Run of the first claim and creates nothing, while another
-- request under that key is refused.
pub replay :
    (task_id tool fingerprint other_fingerprint id run_id owner run_id' owner' : String)
    (now later : ℕ) (current : Option Operation) (created : Bool) {o p : Operation}
    → claim_operation task_id tool fingerprint id run_id owner now current ≡ ok (some o, created)
    → History o p
    → other_fingerprint ≢ fingerprint
    → (claim_operation task_id tool fingerprint id run_id' owner' later (some p)
        ≡ ok (some p, false))
      × (p.run_id ≡ o.run_id)
      × (claim_operation task_id tool other_fingerprint id run_id' owner' later (some p)
          ≡ err idempotency_key_reused)
unfolding claim_operation
replay task_id tool fingerprint other_fingerprint id run_id owner run_id' owner' now later current
      created {o} {p} h history differs =
    let b = History-Bound history in
    let (for_task, with_tool, of_request) =
      claimed_for task_id tool fingerprint id run_id owner now current created o h in
    let is_task : p.task_id ≡ task_id = b.task_id ∙ for_task in
    let is_tool : p.tool ≡ tool = b.tool ∙ with_tool in
    let is_request : p.request_fingerprint ≡ fingerprint = b.request_fingerprint ∙ of_request in
    (ground arith, b.run_id, ground arith)
