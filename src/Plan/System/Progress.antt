-- ===== src/Plan/System/Progress.antt =====
-- plan-service.js: the choice of the loop of `#drive` on a Plan whose dependencies were checked.
use agentdock_mcp_harness.Base.{
  ℕ, zero, suc, String, Bool, true, false, some, List, [], ◌∷◌, All, all, map, find, get_elem?,
  includes, arith, same, ◌≡◌, ◌≢◌, refl, subst, sym, inl, inr, ◌⊎◌, Bool-cases, ok, same_refl, ◌∙◌,
}
use agentdock_mcp_harness.Task.Invariant.{Distinct}
use agentdock_mcp_harness.Plan.{Step, StepSpec, PlanStatus, is_pending, is_running, is_passed}
use agentdock_mcp_harness.Plan.Dependencies.{dependencies, step_ids, validate_dependencies, Marks}
use agentdock_mcp_harness.Plan.Dependencies.Sorted.{Sorted, validate_dependencies-Sorted}
use agentdock_mcp_harness.Plan.Dependencies.Ranked.{All-includes}
use agentdock_mcp_harness.Plan.Driver.{
  dependency_passed, found_passed, is_ready, choose, Choice, work, block, complete,
}
use agentdock_mcp_harness.Plan.Updates.{Moves, ids_of, get_elem?-includes}
use agentdock_mcp_harness.Plan.System.{System, Reach, at_start, then_event}
use agentdock_mcp_harness.Plan.System.Invariant.{
  is_calm, IsCalm, AllPassed, IsSound, StatusHolds-running,
}
use agentdock_mcp_harness.Plan.System.Choices.{Chosen, choose-Chosen, IsActive, IsCalm-AllPassed}
use agentdock_mcp_harness.Plan.System.Preserves.{step-Moves, events-IsSound}

abbrev pub specs_of : List Step → List StepSpec
specs_of steps = map (λ step. step.spec) steps

-- The step that an identifier finds has the dependencies that the check saw.
dependencies-find :
    (steps : List Step) (id : String) (ids : List String)
    → dependencies (specs_of steps) id ≡ some ids
    → (x : Step) × (find (λ y. same y.spec.step_id id) steps ≡ some x) × (x.spec.depends_on ≡ ids)
dependencies-find [] id ids h = cc
dependencies-find (y ∷ steps) id ids h = elim (Bool-cases (same y.spec.step_id id)) [
  | inl here ↦ (y, rw here refl, cc (rw here at h))
  | inr other ↦
      let (x, found, deps) = dependencies-find steps id ids (rw other at h) in
      (x, rw other found, deps)
]

find-get_elem? :
    (p : Step → Bool) (xs : List Step) (x : Step)
    → find p xs ≡ some x
    → (i : ℕ) × (get_elem? xs i ≡ some x) × (p x ≡ true)
find-get_elem? p [] x h = cc
find-get_elem? p (y ∷ xs) x h = elim (Bool-cases (p y)) [
  | inl here ↦
      let same_step : y ≡ x = cc (rw here at h) in
      (zero, cc same_step, subst (λ z. p z ≡ true) same_step here)
  | inr other ↦
      let (i, there, holds) = find-get_elem? p xs x (rw other at h) in (suc i, there, holds)
]

find-All :
    (P : Step → Type 0) (p : Step → Bool) (xs : List Step) (x : Step)
    → find p xs ≡ some x
    → All P xs
    → P x
find-All P p [] x h all_P = cc
find-All P p (y ∷ xs) x h all_P = elim (Bool-cases (p y)) [
  | inl here ↦ subst P (cc (rw here at h)) all_P.0
  | inr other ↦ find-All P p xs x (rw other at h) all_P.1
]

get_elem?-find :
    (i : ℕ) (steps : List Step) (x : Step)
    → Distinct (ids_of steps)
    → get_elem? steps i ≡ some x
    → find (λ y. same y.spec.step_id x.spec.step_id) steps ≡ some x
get_elem?-find i [] x distinct here = cc
get_elem?-find zero (y ∷ steps) x distinct here =
    let same_step : y ≡ x = cc here in
    subst (λ v. find (λ y'. same y'.spec.step_id v.spec.step_id) (y ∷ steps) ≡ some v) same_step
      (ground (arith, same_refl y.spec.step_id))
get_elem?-find (suc i) (y ∷ steps) x distinct here = grind (
  arith,
  get_elem?-includes i steps {x = x} here,
  distinct.0,
  get_elem?-find i steps x distinct.1 here,
)

all-dependencies :
    (steps : List Step) (rest ids : List String)
    → All (λ d. dependency_passed steps d ≡ true) rest
    → All (λ d. includes rest d ≡ true) ids
    → all (dependency_passed steps) ids ≡ true
all-dependencies steps rest [] done behind = refl
all-dependencies steps rest (d ∷ ids) done behind = ground (
  arith,
  All-includes (λ y. dependency_passed steps y ≡ true) rest done d behind.0,
  all-dependencies steps rest ids done behind.1,
)

-- Where no step runs and none is ready, the steps pass one after another in the order of the check.
Sorted-passed :
    (steps : List Step) (xs : List String)
    → IsCalm steps
    → All (λ x. is_running x.status ≡ false) steps
    → All (λ x. is_ready steps x ≡ false) steps
    → Sorted (specs_of steps) xs
    → All (λ id. dependency_passed steps id ≡ true) xs
unfolding Sorted
Sorted-passed steps [] calm idle unready sorted = tt
Sorted-passed steps (id ∷ rest) calm idle unready sorted =
    let done = Sorted-passed steps rest calm idle unready sorted.1 in
    let (x, found, deps) = dependencies-find steps id sorted.0.0 sorted.0.1 in
    let ready : all (dependency_passed steps) x.spec.depends_on ≡ true =
      subst (λ ids. all (dependency_passed steps) ids ≡ true) (sym deps)
        (all-dependencies steps rest sorted.0.0 done sorted.0.2) in
    let is_at = (λ (y : Step). same y.spec.step_id id) in
    let x_calm = find-All (λ y. is_calm y.status ≡ true) is_at steps x found calm in
    let x_idle = find-All (λ y. is_running y.status ≡ false) is_at steps x found idle in
    let x_unready = find-All (λ y. is_ready steps y ≡ false) is_at steps x found unready in
    (rw found (ground (arith, ready, x_calm, x_idle, x_unready)), done)

step_ids-specs_of : (steps : List Step) → step_ids (specs_of steps) ≡ ids_of steps
step_ids-specs_of [] = refl
step_ids-specs_of (x ∷ steps) = cc (step_ids-specs_of steps)

not_both : (x : Step) → is_pending x.status ≡ true → is_passed x.status ≡ true → ⊥
not_both x waits done = ground (arith, waits, done)

-- The dependencies that were checked never block a Plan.
choose-is_not_block :
    (steps : List Step) (marks : Marks)
    → Distinct (ids_of steps)
    → IsCalm steps
    → validate_dependencies (specs_of steps) ≡ some (ok marks)
    → choose steps ≢ block
unfolding Chosen
choose-is_not_block steps marks distinct calm accepted blocks =
    let (idle, unready, x, found) = subst (Chosen steps) blocks (choose-Chosen steps) in
    let seen = validate_dependencies-Sorted (specs_of steps) marks accepted in
    let (i, here, waits) = find-get_elem? (λ y. is_pending y.status) steps x found in
    let passed_all = Sorted-passed steps marks.visited calm idle unready seen.0 in
    let member : includes (step_ids (specs_of steps)) x.spec.step_id ≡ true =
      subst (λ v. includes v x.spec.step_id ≡ true) (sym (step_ids-specs_of steps))
        (get_elem?-includes i steps {x = x} here) in
    let visited =
      All-includes (λ y. includes marks.visited y ≡ true) (step_ids (specs_of steps)) seen.1
        x.spec.step_id member in
    let done =
      All-includes (λ y. dependency_passed steps y ≡ true) marks.visited passed_all x.spec.step_id
        visited in
    let x_done = subst (λ o. found_passed o ≡ true) (get_elem?-find i steps x distinct here) done in
    not_both x waits x_done

Moves-specs_of : (steps xs ys : List Step) → Moves steps xs ys → specs_of ys ≡ specs_of xs
unfolding Moves
Moves-specs_of steps [] [] m = refl
Moves-specs_of steps [] (y ∷ ys) m = elim m [ ]
Moves-specs_of steps (x ∷ xs) [] m = elim m [ ]
Moves-specs_of steps (x ∷ xs) (y ∷ ys) m = cc (m.0.spec, Moves-specs_of steps xs ys m.1)

-- The work that is left: none, as every step is PASSED, or a step that runs or may run.
abbrev pub Goes : List Step → Type 0
Goes steps =
    ((choose steps ≡ complete) × AllPassed steps)
    ⊎ ((i : ℕ) × (x : Step) × (choose steps ≡ work i x)
        × (get_elem? steps i ≡ some x)
        × IsActive steps x)

Chosen-Goes :
    (steps : List Step)
    → IsCalm steps
    → choose steps ≢ block
    → (choice : Choice) → choose steps ≡ choice
    → Chosen steps choice
    → Goes steps
unfolding Chosen
Chosen-Goes steps calm never (work i x) e h = inr (i, x, e, h.0, h.1)
Chosen-Goes steps calm never complete e h = inl (e, IsCalm-AllPassed steps calm h.0 h.1)
Chosen-Goes steps calm never block e h = elim (never e) [ ]

module _ (me : String) (instance_id : String) where
  Reach-specs_of :
      {from s : System}
      → IsSound from
      → Reach me instance_id from s
      → specs_of s.plan.steps ≡ specs_of from.plan.steps
  Reach-specs_of sound at_start = refl
  Reach-specs_of sound (then_event {s} reach event) =
      Moves-specs_of s.plan.steps s.plan.steps _
        (step-Moves me instance_id event s (events-IsSound me instance_id sound reach))
      ∙ Reach-specs_of sound reach

  calm_of : {b : Bool} {C : Type 0} → b ≡ false → (b ≡ true) ⊎ C → C
  calm_of not_asked (inl asked) = cc
  calm_of not_asked (inr calm) = calm

  -- A sound Plan whose dependencies passed the check never comes to a standstill, whatever events happened: while it
  -- is RUNNING and not to be cancelled, all its steps are PASSED and the driver completes it, or the driver has a
  -- step to work on that runs or is PENDING with all its dependencies PASSED.
  pub Reach-Goes :
      {from s : System} (marks : Marks)
      → IsSound from
      → validate_dependencies (specs_of from.plan.steps) ≡ some (ok marks)
      → Reach me instance_id from s
      → s.plan.status ≡ PlanStatus.running
      → s.plan.cancel_requested ≡ false
      → Goes s.plan.steps
  Reach-Goes {s = s} marks sound accepted reach runs not_asked =
      let now_sound = events-IsSound me instance_id sound reach in
      let calm = calm_of not_asked (
        StatusHolds-running s.plan.steps s.plan.blocker s.plan.cancel_requested runs
          now_sound.status) in
      let still_accepted =
        subst (λ v. validate_dependencies v ≡ some (ok marks)) (sym (Reach-specs_of sound reach))
          accepted in
      Chosen-Goes s.plan.steps calm
        (choose-is_not_block s.plan.steps marks now_sound.distinct calm still_accepted)
        (choose s.plan.steps) refl (choose-Chosen s.plan.steps)
