-- ===== src/Task/Starts.antt =====
-- task-service.js: the reservation of a Run start, its release, and the registration of a Run.
use agentdock_mcp_harness.Base.{
  ℕ, String, Bool, true, false, not, Option, none, some, List, [], ◌∷◌, ◌++◌, if◌then◌else◌, same,
  any, keep, includes, trim, truthy, Result, ok, err, ◌>>=◌, ◌>>◌, guard, invalid_process_id,
  invalid_runtime_instance_id, process_start_reservation_missing,
}
use agentdock_mcp_harness.Store.{Db}
use agentdock_mcp_harness.Task.{Task, Reservation, matches_id, assert_active_record, mutate}

abbrev pub reserves : String → Reservation → Bool
reserves process_id entry = same entry.process_id process_id

-- The entries that are not of the process.
abbrev pub without_start : String → List Reservation → List Reservation
without_start process_id = keep (λ entry. not (reserves process_id entry))

module _ (process_id : String) (now : ℕ) where
  abbrev pub new_reservation : Option String → Reservation
  new_reservation owner = record {
    process_id = process_id;
    owner_instance_id = owner;
    reserved_at = now;
  }

  -- The mutator of `reserveProcessStart`.
  unfoldable pub reserve : Option String → Task → Result (Task × Unit {0})
  reserve owner task = do
    assert_active_record task
    let entry = new_reservation owner
    let pending = task.pending_process_starts
    let next = if any (reserves process_id) pending then pending else pending ++ entry ∷ []
    ok (record task { pending_process_starts = next; updated_at = now }, tt)

  -- The mutator of `releaseProcessStart`.
  unfoldable pub release : Task → Result (Task × Unit {0})
  release task =
      let next = without_start process_id task.pending_process_starts in
      ok (record task { pending_process_starts = next; updated_at = now }, tt)

  -- The `if (reserved)` block of `addProcess`.
  take_reservation : Bool → Task → Result Task
  take_reservation false task = ok task
  take_reservation true task = do
    let pending = task.pending_process_starts
    guard (any (reserves process_id) pending) process_start_reservation_missing
    ok (record task { pending_process_starts = without_start process_id pending })

  push_process : Task → Task
  push_process task =
      if includes task.process_ids process_id
      then task
      else record task { process_ids = task.process_ids ++ process_id ∷ []; updated_at = now }

  -- The mutator of `addProcess`.
  unfoldable pub add : Bool → Task → Result (Task × Unit {0})
  unfolding take_reservation push_process
  add reserved task = do
    assert_active_record task
    taken ← take_reservation reserved task
    ok (push_process taken, tt)

-- The test of `ownerInstanceId`.
abbrev owner_ok : Option String → Bool
owner_ok none = true
owner_ok (some owner) = truthy (trim owner)

abbrev check_start : String → Option String → Result (Unit {0})
check_start process_id owner = do
  guard (matches_id "proc_" process_id) invalid_process_id
  guard (owner_ok owner) invalid_runtime_instance_id

after_check :
    Result (Unit {0})
    → (Task → Result (Task × Unit {0}))
    → String
    → ℕ
    → Db Task
    → Db Task × Result (Task × Unit {0})
after_check (ok _) mutator task_id now db = mutate task_id mutator now db
after_check (err c) mutator task_id now db = (db, err c)

-- `reserveProcessStart`
unfoldable pub reserve_process_start :
    String → String → Option String → ℕ → Db Task → Db Task × Result (Task × Unit {0})
unfolding after_check
reserve_process_start task_id process_id owner now db =
    after_check (check_start process_id owner) (reserve process_id now owner) task_id now db

-- `releaseProcessStart`
unfoldable pub release_process_start :
    String → String → ℕ → Db Task → Db Task × Result (Task × Unit {0})
release_process_start task_id process_id now db = mutate task_id (release process_id now) now db

-- `addProcess`
unfoldable pub add_process :
    String → String → Bool → ℕ → Db Task → Db Task × Result (Task × Unit {0})
add_process task_id process_id reserved now db = mutate task_id (add process_id now reserved) now db
