-- ===== src/Plan/System/Choices.antt =====
-- plan-service.js: what the loop of `#drive` knows of the step that it chose, and of the steps when it chose none.
use agentdock_mcp_harness.Base.{
  ℕ, Bool, true, false, ◌||◌, Option, none, some, List, [], ◌∷◌, All, get_elem?, find, arith, ◌≡◌,
  refl, inl, inr, ◌⊎◌, Bool-cases,
}
use agentdock_mcp_harness.Plan.{Step, is_pending, is_running, is_waiting}
use agentdock_mcp_harness.Plan.Mutators.{find_index, cancel_current}
use agentdock_mcp_harness.Plan.Driver.{
  dependencies_passed, is_ready, Choice, work, block, complete, choose, running_choice,
  ready_choice,
}
use agentdock_mcp_harness.Plan.Updates.{
  find_index-some, find_index-none, Moves, Moves-refl, Move-refl,
}
use agentdock_mcp_harness.Plan.System.Invariant.{IsCalm, AllPassed, HasAttempts}

abbrev pub IsActive : List Step → Step → Type 0
IsActive steps x =
    (is_running x.status ≡ true)
    ⊎ ((is_pending x.status ≡ true) × (dependencies_passed steps x ≡ true))

unfoldable pub Chosen : List Step → Choice → Type 0
Chosen steps (work i x) = (get_elem? steps i ≡ some x) × IsActive steps x
Chosen steps block =
    All (λ x. is_running x.status ≡ false) steps
    × All (λ x. is_ready steps x ≡ false) steps
    × (x : Step) × (find (λ y. is_pending y.status) steps ≡ some x)
Chosen steps complete =
    All (λ x. is_running x.status ≡ false) steps × All (λ x. is_pending x.status ≡ false) steps

find-none : (p : Step → Bool) (xs : List Step) → find p xs ≡ none → All (λ x. p x ≡ false) xs
find-none p [] h = tt
find-none p (x ∷ xs) h = (ground arith, find-none p xs (ground arith))

pub choose-Chosen : (steps : List Step) → Chosen steps (choose steps)
unfolding Chosen choose
choose-Chosen steps = by_running (find_index (λ x. is_running x.status) steps) refl
  where
    by_pending :
        (o : Option Step)
        → find (λ x. is_pending x.status) steps ≡ o
        → All (λ x. is_running x.status ≡ false) steps
        → All (λ x. is_ready steps x ≡ false) steps
        → Chosen steps (elim o [ none ↦ complete | some _ ↦ block ])
    by_pending none e idle unready = (idle, find-none (λ x. is_pending x.status) steps e)
    by_pending (some x) e idle unready = (idle, unready, x, e)

    by_ready :
        (o : Option (ℕ × Step))
        → find_index (is_ready steps) steps ≡ o
        → All (λ x. is_running x.status ≡ false) steps
        → Chosen steps (ready_choice steps o)
    by_ready none e idle =
        by_pending (find (λ x. is_pending x.status) steps) refl idle
          (find_index-none (is_ready steps) steps e)
    by_ready (some (i, x)) e idle =
        let here = find_index-some (is_ready steps) steps {i = i} {x = x} e in
        (here.0, inr (ground (arith, here.1), ground (arith, here.1)))

    by_running :
        (o : Option (ℕ × Step))
        → find_index (λ x. is_running x.status) steps ≡ o
        → Chosen steps (running_choice steps o)
    by_running none e =
        by_ready (find_index (is_ready steps) steps) refl
          (find_index-none (λ x. is_running x.status) steps e)
    by_running (some (i, x)) e =
        let here = find_index-some (λ x. is_running x.status) steps {i = i} {x = x} e in
        (here.0, inl here.1)

-- Calm steps of which none runs and none is pending have passed.
pub IsCalm-AllPassed :
    (steps : List Step)
    → IsCalm steps
    → All (λ x. is_running x.status ≡ false) steps
    → All (λ x. is_pending x.status ≡ false) steps
    → AllPassed steps
IsCalm-AllPassed [] calm not_running not_pending = tt
IsCalm-AllPassed (x ∷ steps) calm not_running not_pending = (
  ground (arith, calm.0, not_running.0, not_pending.0),
  IsCalm-AllPassed steps calm.1 not_running.1 not_pending.1,
)

-- The step that a cancellation ends was RUNNING or WAITING.
pub Moves-cancel_current :
    (steps : List Step) (now : ℕ) (xs : List Step) → Moves steps xs (cancel_current now xs)
unfolding Moves
Moves-cancel_current steps now [] = tt
Moves-cancel_current steps now (x ∷ xs) =
    elim (Bool-cases (is_running x.status || is_waiting x.status)) [
      | inl ends ↦ rw ends (
        record {
          spec = refl;
          keeps_passed = ground (arith, ends);
          waits = inr (inl (ground (arith, ends)));
        },
        Moves-refl steps xs,
      )
      | inr other ↦ rw other (Move-refl steps x, Moves-cancel_current steps now xs)
    ]

pub HasAttempts-cancel_current :
    (now : ℕ) (xs : List Step) → All HasAttempts xs → All HasAttempts (cancel_current now xs)
HasAttempts-cancel_current now [] h = tt
HasAttempts-cancel_current now (x ∷ xs) h =
    elim (Bool-cases (is_running x.status || is_waiting x.status)) [
      | inl ends ↦ rw ends ((h.0.0, λ never. cc), h.1)
      | inr other ↦ rw other (h.0, HasAttempts-cancel_current now xs h.1)
    ]
