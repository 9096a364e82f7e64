-- ===== src/Plan/Updates.antt =====
-- plan-service.js: assignments to one step of a list, and what they keep.
use agentdock_mcp_harness.Base.{
  ℕ, zero, suc, String, Bool, true, false, ◌||◌, Option, none, some, List, [], ◌∷◌, all, All, map,
  get_elem?, includes, update_first, same, Bool-cases, arith, ◌≡◌, refl, subst, ap, inl, inr, ◌⊎◌,
}
use agentdock_mcp_harness.Task.Invariant.{Distinct}
use agentdock_mcp_harness.Plan.{Step, StepSpec, is_pending, is_passed}
use agentdock_mcp_harness.Plan.Mutators.{update_at, shift, find_index}
use agentdock_mcp_harness.Plan.Driver.{dependency_passed, dependencies_passed}

module _ {A : Type 0} where
  pub All-update_at :
      (P : A → Type 0) (i : ℕ) (f : A → A) (xs : List A) {x : A}
      → get_elem? xs i ≡ some x
      → P (f x)
      → All P xs
      → All P (update_at i f xs)
  All-update_at P i f [] here new old = old
  All-update_at P zero f (x ∷ xs) here new old = (subst (λ y. P (f y)) (cc here) new, old.1)
  All-update_at P (suc i) f (x ∷ xs) here new old = (old.0, All-update_at P i f xs here new old.1)

  pub All-get_elem? :
      (P : A → Type 0) (i : ℕ) (xs : List A) {x : A} → get_elem? xs i ≡ some x → All P xs → P x
  All-get_elem? P i [] here all_P = cc
  All-get_elem? P zero (x ∷ xs) here all_P = subst P (cc here) all_P.0
  All-get_elem? P (suc i) (x ∷ xs) here all_P = All-get_elem? P i xs here all_P.1

  pub get_elem?-update_at :
      (i : ℕ) (f : A → A) (xs : List A) {x : A}
      → get_elem? xs i ≡ some x
      → get_elem? (update_at i f xs) i ≡ some (f x)
  get_elem?-update_at i f [] here = cc
  get_elem?-update_at zero f (x ∷ xs) here = cc here
  get_elem?-update_at (suc i) f (x ∷ xs) here = get_elem?-update_at i f xs here

  shift-some :
      (r : Option (ℕ × A)) {i : ℕ} {x : A}
      → shift r ≡ some (i, x)
      → (k : ℕ) × (r ≡ some (k, x)) × (i ≡ suc k)
  shift-some none h = cc
  shift-some (some (k, y)) h = (k, cc h, cc h)

  pub find_index-some :
      (p : A → Bool) (xs : List A) {i : ℕ} {x : A}
      → find_index p xs ≡ some (i, x)
      → (get_elem? xs i ≡ some x) × (p x ≡ true)
  find_index-some p [] h = cc
  find_index-some p (y ∷ xs) {i} {x} h = elim (Bool-cases (p y)) [
    | inl here ↦ first here (rw here at h)
    | inr other ↦
        later (shift-some (find_index p xs) {i = i} {x = x} (rw other at h))
          (λ k. find_index-some p xs {i = k} {x = x})
  ]
    where
      first :
          p y ≡ true
          → ◌≡◌ {A = Option (ℕ × A)} (some (zero, y)) (some (i, x))
          → (get_elem? (y ∷ xs) i ≡ some x) × (p x ≡ true)
      first here e =
          let at_zero : i ≡ zero = cc e in
          let is_item : y ≡ x = cc e in
          (rw at_zero (cc is_item), subst (λ z. p z ≡ true) is_item here)

      later :
          (k : ℕ) × (find_index p xs ≡ some (k, x)) × (i ≡ suc k)
          → ((k : ℕ) → find_index p xs ≡ some (k, x) → (get_elem? xs k ≡ some x) × (p x ≡ true))
          → (get_elem? (y ∷ xs) i ≡ some x) × (p x ≡ true)
      later (k, e, further) ih = (rw further (ih k e).0, (ih k e).1)

  pub find_index-none :
      (p : A → Bool) (xs : List A) → find_index p xs ≡ none → All (λ x. p x ≡ false) xs
  find_index-none p [] h = tt
  find_index-none p (x ∷ xs) h = (ground arith, find_index-none p xs (ground arith))

abbrev pub ids_of : List Step → List String
ids_of steps = map (λ step. step.spec.step_id) steps

-- What a step turns into: its PASSED stays, and it leaves PENDING only when its dependencies have passed.
pub record Move (steps : List Step) (before after : Step) : Type 0 where
  pub spec : after.spec ≡ before.spec
  pub keeps_passed : is_passed before.status ≡ true → is_passed after.status ≡ true
  pub waits :
      (is_pending after.status ≡ true)
      ⊎ (is_pending before.status ≡ false)
      ⊎ (dependencies_passed steps before ≡ true)

-- Every step of a list and the one in its place.
unfoldable pub Moves : List Step → List Step → List Step → Type 0
Moves steps [] [] = Unit
Moves steps (x ∷ xs) (y ∷ ys) = Move steps x y × Moves steps xs ys
Moves steps _ _ = ⊥

pub Move-refl : (steps : List Step) (step : Step) → Move steps step step
Move-refl steps step = record {
  spec = refl;
  keeps_passed = λ h. h;
  waits = elim (Bool-cases (is_pending step.status)) [ inl h ↦ inl h | inr h ↦ inr (inl h) ];
}

pub Moves-refl : (steps xs : List Step) → Moves steps xs xs
unfolding Moves
Moves-refl steps [] = tt
Moves-refl steps (x ∷ xs) = (Move-refl steps x, Moves-refl steps xs)

pub Moves-update_at :
    (steps : List Step) (i : ℕ) (f : Step → Step) (xs : List Step) {x : Step}
    → get_elem? xs i ≡ some x
    → Move steps x (f x)
    → Moves steps xs (update_at i f xs)
unfolding Moves
Moves-update_at steps i f [] here move = tt
Moves-update_at steps zero f (x ∷ xs) here move =
    (subst (λ y. Move steps y (f y)) (cc here) move, Moves-refl steps xs)
Moves-update_at steps (suc i) f (x ∷ xs) here move =
    (Move-refl steps x, Moves-update_at steps i f xs here move)

Moves-dependency_passed :
    (steps xs ys : List Step)
    → Moves steps xs ys
    → (id : String) → dependency_passed xs id ≡ true
    → dependency_passed ys id ≡ true
unfolding Moves
Moves-dependency_passed steps [] [] m id h = h
Moves-dependency_passed steps [] (y ∷ ys) m id h = elim m [ ]
Moves-dependency_passed steps (x ∷ xs) [] m id h = elim m [ ]
Moves-dependency_passed steps (x ∷ xs) (y ∷ ys) m id h =
    let same_id : y.spec.step_id ≡ x.spec.step_id = ap (λ (s : StepSpec). s.step_id) m.0.spec in
    grind (arith, Moves-dependency_passed steps xs ys m.1 id, m.0.keeps_passed, same_id)

all-dependency_passed :
    (steps xs ys : List Step)
    → Moves steps xs ys
    → (ids : List String) → all (dependency_passed xs) ids ≡ true
    → all (dependency_passed ys) ids ≡ true
all-dependency_passed steps xs ys m [] h = refl
all-dependency_passed steps xs ys m (id ∷ ids) h =
    ground
      (arith, Moves-dependency_passed steps xs ys m id, all-dependency_passed steps xs ys m ids)

-- A step that is not PENDING has its dependencies PASSED.
abbrev pub IsOrdered : List Step → Type 0
IsOrdered steps =
    All (λ step. (is_pending step.status || dependencies_passed steps step) ≡ true) steps

ordered_after :
    (steps after : List Step)
    → ((ids : List String)
        → all (dependency_passed steps) ids ≡ true
        → all (dependency_passed after) ids ≡ true)
    → (xs ys : List Step) → Moves steps xs ys
    → All (λ step. (is_pending step.status || dependencies_passed steps step) ≡ true) xs
    → All (λ step. (is_pending step.status || dependencies_passed after step) ≡ true) ys
unfolding Moves
ordered_after steps after keeps [] [] m ordered = tt
ordered_after steps after keeps [] (y ∷ ys) m ordered = elim m [ ]
ordered_after steps after keeps (x ∷ xs) [] m ordered = elim m [ ]
ordered_after steps after keeps (x ∷ xs) (y ∷ ys) m ordered =
    (still, ordered_after steps after keeps xs ys m.1 ordered.1)
  where
    same_deps : y.spec.depends_on ≡ x.spec.depends_on
    same_deps = ap (λ (s : StepSpec). s.depends_on) m.0.spec

    after_deps : dependencies_passed steps x ≡ true → dependencies_passed after y ≡ true
    after_deps h = rw same_deps (keeps x.spec.depends_on h)

    still : (is_pending y.status || dependencies_passed after y) ≡ true
    still = elim m.0.waits [
      | inl now_pending ↦ ground (arith, now_pending)
      | inr (inl left) ↦ ground (arith, after_deps, left, ordered.0)
      | inr (inr ready) ↦ ground (arith, after_deps, ready)
    ]

pub Moves-IsOrdered :
    (steps after : List Step) → Moves steps steps after → IsOrdered steps → IsOrdered after
Moves-IsOrdered steps after m ordered =
    ordered_after steps after (all-dependency_passed steps steps after m) steps after m ordered

pub Moves-ids : (steps xs ys : List Step) → Moves steps xs ys → ids_of ys ≡ ids_of xs
unfolding Moves
Moves-ids steps [] [] m = refl
Moves-ids steps [] (y ∷ ys) m = elim m [ ]
Moves-ids steps (x ∷ xs) [] m = elim m [ ]
Moves-ids steps (x ∷ xs) (y ∷ ys) m =
    let same_id : y.spec.step_id ≡ x.spec.step_id = ap (λ (s : StepSpec). s.step_id) m.0.spec in
    cc (same_id, Moves-ids steps xs ys m.1)

pub get_elem?-includes :
    (i : ℕ) (steps : List Step) {x : Step}
    → get_elem? steps i ≡ some x
    → includes (ids_of steps) x.spec.step_id ≡ true
get_elem?-includes i [] here = cc
get_elem?-includes zero (y ∷ steps) {x} here =
    let same_id : y.spec.step_id ≡ x.spec.step_id = cc here in ground (arith, same_id)
get_elem?-includes (suc i) (y ∷ steps) {x} here =
    ground (arith, get_elem?-includes i steps {x = x} here)

-- With distinct identifiers, an assignment by identifier is one by index.
pub update_first-at :
    (i : ℕ) (f : Step → Step) (steps : List Step) {x : Step}
    → Distinct (ids_of steps)
    → get_elem? steps i ≡ some x
    → update_first (λ step. same step.spec.step_id x.spec.step_id) f steps ≡ update_at i f steps
update_first-at i f [] distinct here = cc
update_first-at zero f (y ∷ steps) {x} distinct here =
    let same_id : y.spec.step_id ≡ x.spec.step_id = cc here in ground (arith, same_id)
update_first-at (suc i) f (y ∷ steps) {x} distinct here = grind (
  arith,
  get_elem?-includes i steps {x = x} here,
  distinct.0,
  update_first-at i f steps {x = x} distinct.1 here,
)
