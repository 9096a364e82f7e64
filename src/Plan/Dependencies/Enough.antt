-- ===== src/Plan/Dependencies/Enough.antt =====
-- plan-service.js: the fuel of `validateDependencies`. Each level of the search adds a step to `visiting`.
use agentdock_mcp_harness.Base.{
  ℕ, zero, suc, ◌≤◌, ◌<◌, String, true, false, not, Option, none, some, List, [], ◌∷◌, length,
  count, includes, string_dec, same_refl, Result, ok, err, Bool-cases, arith, ◌≡◌, refl, sym, subst,
  inl, inr, Result-cases,
}
use agentdock_mcp_harness.Plan.{StepSpec}
use agentdock_mcp_harness.Plan.Dependencies.{
  Marks, Search, found, thrown, exhausted, and_then, visit, visit_all, visit_dependencies,
  search_cycle, enter, leave, step_ids, dependencies, validate_dependencies, check_known, outcome,
  no_marks,
}

-- How many of the identifiers are not in `visiting`.
outside : List String → List String → ℕ
outside visiting ids = count (λ id. not (includes visiting id)) ids

outside-cons-le :
    (id : String) (visiting ids : List String) → outside (id ∷ visiting) ids ≤ outside visiting ids
unfolding outside
outside-cons-le id visiting [] = omega arith
outside-cons-le id visiting (x ∷ xs) = ground (arith, outside-cons-le id visiting xs)

outside-cons-here :
    (id : String) (visiting ids : List String)
    → includes visiting id ≡ false
    → outside (id ∷ visiting) (id ∷ ids) < outside visiting (id ∷ ids)
unfolding outside
outside-cons-here id visiting ids absent =
    rw (same_refl id, absent) (omega (arith, outside-cons-le id visiting ids))

outside-cons-lt :
    (id : String) (visiting ids : List String)
    → includes ids id ≡ true
    → includes visiting id ≡ false
    → outside (id ∷ visiting) ids < outside visiting ids
unfolding outside
outside-cons-lt id visiting [] member absent = cc
outside-cons-lt id visiting (x ∷ xs) member absent = elim (string_dec x id) [
  | yes e ↦
      subst (λ y. outside (id ∷ visiting) (y ∷ xs) < outside visiting (y ∷ xs)) (sym e)
        (outside-cons-here id visiting xs absent)
  | no differ ↦ grind (arith, outside-cons-lt id visiting xs)
]

outside-le : (visiting ids : List String) → outside visiting ids ≤ length ids
unfolding outside
outside-le visiting [] = omega arith
outside-le visiting (x ∷ xs) = ground (arith, outside-le visiting xs)

pub length-step_ids : (steps : List StepSpec) → length (step_ids steps) ≡ length steps
length-step_ids [] = refl
length-step_ids (step ∷ steps) = cc (length-step_ids steps)

-- A step that has dependencies to visit is one of the steps.
pub dependencies-some :
    (steps : List StepSpec) (id : String) {ids : List String}
    → dependencies steps id ≡ some ids
    → includes (step_ids steps) id ≡ true
dependencies-some [] id h = cc
dependencies-some (step ∷ steps) id h = grind (arith, dependencies-some steps id)

-- The search came back and left `visiting` as it was, or threw where that is `Allowed`.
unfoldable pub Returns : Type 0 → List String → Search → Type 0
Returns Allowed visiting (found marks) = marks.visiting ≡ visiting
Returns Allowed visiting (thrown _) = Allowed
Returns Allowed visiting exhausted = ⊥

-- `Safe` is what holds of an identifier that is visited, with the ones that are being visited.
module _ (steps : List StepSpec) (Allowed : Type 0) (Safe : String → List String → Type 0)
    (meets : (id : String) (visiting : List String)
      → Safe id visiting
      → includes visiting id ≡ true
      → Allowed)
    (misses : (id : String) (visiting : List String)
      → Safe id visiting
      → dependencies steps id ≡ none
      → Allowed)
    (descends : (id d : String) (visiting ids : List String)
      → Safe id visiting
      → dependencies steps id ≡ some ids
      → includes ids d ≡ true
      → Safe d (id ∷ visiting)) where
  and_then-Returns :
      (visiting : List String) (s : Search) (continue : Marks → Search)
      → Returns Allowed visiting s
      → ((marks : Marks) → marks.visiting ≡ visiting → Returns Allowed visiting (continue marks))
      → Returns Allowed visiting (and_then s continue)
  unfolding Returns
  and_then-Returns visiting (found marks) continue h next = next marks h
  and_then-Returns visiting (thrown _) continue h next = h
  and_then-Returns visiting exhausted continue h next = h

  visit_all-Returns :
      (visit_one : String → Marks → Search) (visiting ids : List String)
      → ((id : String) (marks : Marks)
          → includes ids id ≡ true
          → marks.visiting ≡ visiting
          → Returns Allowed visiting (visit_one id marks))
      → (marks : Marks) → marks.visiting ≡ visiting
      → Returns Allowed visiting (visit_all steps visit_one ids marks)
  unfolding Returns
  visit_all-Returns visit_one visiting [] each marks h = h
  visit_all-Returns visit_one visiting (id ∷ ids) each marks h =
      and_then-Returns visiting (visit_one id marks) (visit_all steps visit_one ids)
        (each id marks (ground (arith, same_refl id)) h)
        (visit_all-Returns visit_one visiting ids (λ other at member. each other at (ground arith)))

  leave-Returns :
      (id : String) (visiting : List String) (s : Search)
      → Returns Allowed (id ∷ visiting) s
      → Returns Allowed visiting (and_then s (λ after. found (leave id after)))
  unfolding Returns
  leave-Returns id visiting (found after) h = grind (arith, same_refl id)
  leave-Returns id visiting (thrown _) h = h
  leave-Returns id visiting exhausted h = h

  visit_dependencies-Returns :
      (visit_one : String → Marks → Search) (id : String) (marks : Marks)
      (deps : Option (List String))
      → (deps ≡ none → Allowed)
      → ((ids : List String)
          → deps ≡ some ids
          → (d : String) (at : Marks) → includes ids d ≡ true
          → at.visiting ≡ id ∷ marks.visiting
          → Returns Allowed (id ∷ marks.visiting) (visit_one d at))
      → Returns Allowed
          (id ∷ marks.visiting)
          (visit_dependencies steps visit_one deps (enter id marks))
  unfolding Returns
  visit_dependencies-Returns visit_one id marks none missing each = missing refl
  visit_dependencies-Returns visit_one id marks (some ids) missing each =
      visit_all-Returns visit_one (id ∷ marks.visiting) ids (each ids refl) (enter id marks) refl

  visit-Returns :
      (fuel : ℕ) (id : String) (marks : Marks) (visiting : List String)
      → marks.visiting ≡ visiting
      → Safe id visiting
      → outside visiting (step_ids steps) < fuel
      → Returns Allowed visiting (visit steps fuel id marks)
  unfolding visit Returns
  visit-Returns zero id marks visiting e safe h = omega arith
  visit-Returns (suc fuel) id marks visiting e safe h =
      elim (Bool-cases (includes marks.visiting id)) [
        | inl here ↦
            rw (here, Returns) (meets id visiting safe (subst (λ v. includes v id ≡ true) e here))
        | inr absent ↦ elim (Bool-cases (includes marks.visited id)) [
          | inl done ↦ rw (absent, done, Returns) e
          | inr fresh ↦
              rw (absent, fresh, Returns)
                (leave-Returns id visiting _ (
                  subst
                    (λ v. Returns Allowed (id ∷ v) (
                      visit_dependencies steps (visit steps fuel) (dependencies steps id)
                        (enter id marks)))
                    e
                    (visit_dependencies-Returns (visit steps fuel) id marks (dependencies steps id)
                      (misses id visiting safe)
                      (λ ids known d at member same_visiting.
                        visit-Returns fuel d at (id ∷ marks.visiting) same_visiting
                          (subst (λ v. Safe d (id ∷ v)) (sym e)
                            (descends id d visiting ids safe known member))
                          (subst (λ v. outside (id ∷ v) (step_ids steps) < fuel) (sym e)
                            (omega (
                              arith,
                              h,
                              outside-cons-lt id visiting (step_ids steps)
                                  (dependencies-some steps id known)
                                  (subst (λ v. includes v id ≡ false) e absent),
                            )))))))
        ]
      ]

  -- The whole search, where `Safe` holds of every step.
  pub search_cycle-Returns :
      ((id : String) → includes (step_ids steps) id ≡ true → Safe id [])
      → Returns Allowed [] (search_cycle steps)
  unfolding search_cycle
  search_cycle-Returns safe =
      visit_all-Returns (visit steps (suc (length steps))) [] (step_ids steps)
        (λ id marks member e.
          visit-Returns (suc (length steps)) id marks [] e (safe id member)
            (omega (arith, outside-le [] (step_ids steps), length-step_ids steps)))
        (no_marks steps) refl

outcome-some : (s : Search) → Returns (Unit {0}) [] s → (r : Result Marks) × (outcome s ≡ some r)
unfolding Returns
outcome-some (found marks) h = (ok marks, refl)
outcome-some (thrown c) h = (err c, refl)
outcome-some exhausted h = elim h [ ]

-- The dependency check ends for every list of steps, distinct or not, cyclic or not: it accepts them with its
-- sets of visited steps or throws an error, and never meets the end of the fuel.
pub validate_dependencies-ends :
    (steps : List StepSpec) → (r : Result Marks) × (validate_dependencies steps ≡ some r)
unfolding validate_dependencies
validate_dependencies-ends steps = elim (Result-cases (check_known (step_ids steps) steps)) [
  | inl (t, h) ↦
      rw (h, validate_dependencies)
        (outcome-some (search_cycle steps) (
          search_cycle-Returns steps Unit (λ _ _. Unit) (λ _ _ _ _. tt) (λ _ _ _ _. tt)
            (λ _ _ _ _ _ _ _. tt) (λ _ _. tt)))
  | inr (c, h) ↦ rw (h, validate_dependencies) (err c, refl)
]
