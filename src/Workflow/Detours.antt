-- ===== src/Workflow/Detours.antt =====
-- workflow-service.js: `return_phase`, across the events that leave a phase and come back to it.
use agentdock_mcp_harness.Base.{
  String, arith, refl, ℕ, Bool, true, ◌≡◌, ◌∙◌, ap, subst, none, some, ok, ◌⊎◌, inl, inr,
}
use agentdock_mcp_harness.Workflow.{
  Phase, grilling, prototype, Event, prototype_needed, prototype_complete, resume, Workflow,
  known_phase, or_grilling,
}
use agentdock_mcp_harness.Workflow.Evidence.{Outside}
use agentdock_mcp_harness.Workflow.Advance.{transition, advance_workflow, AdvanceInput}
use agentdock_mcp_harness.Workflow.Steps.{Step, advance-Step}
use agentdock_mcp_harness.Workflow.Update.{update_workflow, UpdateInput}
use agentdock_mcp_harness.Workflow.Runs.{update-Stays}
use agentdock_mcp_harness.Workflow.Gates.{
  transition_block, transition-resume, transition_prototype_needed, transition_prototype_complete,
  or_grilling_known,
}

module _ (outside : Outside) (configured : Bool) (now : ℕ) (input : AdvanceInput)
    (w v : Workflow) where
  at_phase :
      (e : Event) (p : Phase)
      → (s : Step outside configured now e input w v) → w.phase ≡ p
      → transition outside configured now e p s.ready ≡ ok s.moved
  at_phase e p s at =
      subst (λ (phase : Phase). transition outside configured now e phase s.ready ≡ ok s.moved)
        (s.prepared.phase ∙ at) s.taken

  block_keeps :
      advance_workflow outside configured now Event.blocked input w ≡ ok v
      → (known_phase w.phase ≡ true) × (v.phase ≡ Phase.blocked) × (v.return_phase ≡ some w.phase)
  block_keeps h =
      let s = advance-Step outside configured now Event.blocked input w v h in
      let (stopped, stored) = transition_block outside configured now s.ready s.moved s.taken in
      (
        s.known,
        s.logged.phase ∙ stopped,
        s.logged.return_phase ∙ stored ∙ ap (λ (p : Phase). some p) s.prepared.phase,
      )

  resume_returns :
      w.phase ≡ Phase.blocked
      → advance_workflow outside configured now resume input w ≡ ok v
      → (v.phase ≡ or_grilling w.return_phase) × (v.return_phase ≡ none)
  resume_returns at h =
      let s = advance-Step outside configured now resume input w v h in
      let (back, cleared) =
        transition-resume outside configured now s.ready s.moved
          (at_phase resume Phase.blocked s at) in
      (
        s.logged.phase ∙ back ∙ ap or_grilling s.prepared.return_phase,
        s.logged.return_phase ∙ cleared,
      )

  prototype_keeps :
      advance_workflow outside configured now prototype_needed input w ≡ ok v
      → (known_phase w.phase ≡ true) × (v.phase ≡ prototype) × (v.return_phase ≡ some w.phase)
  prototype_keeps h =
      let s = advance-Step outside configured now prototype_needed input w v h in
      let (entered, stored) =
        transition_prototype_needed outside configured now s.ready s.moved
          (ap known_phase s.prepared.phase ∙ s.known) s.taken in
      (
        s.known,
        s.logged.phase ∙ entered,
        s.logged.return_phase ∙ stored ∙ ap (λ (p : Phase). some p) s.prepared.phase,
      )

  prototype_returns :
      w.phase ≡ prototype
      → advance_workflow outside configured now prototype_complete input w ≡ ok v
      → v.phase ≡ or_grilling w.return_phase
  prototype_returns at h =
      let s = advance-Step outside configured now prototype_complete input w v h in
      let back =
        transition_prototype_complete outside configured now s.ready s.moved
          (at_phase prototype_complete prototype s at) in
      s.logged.phase ∙ back ∙ ap or_grilling s.prepared.return_phase

  only_resume :
      (e : Event) (r m : Workflow)
      → transition outside configured now e Phase.blocked r ≡ ok m
      → e ≡ resume
  unfolding transition
  only_resume e r m h = ground arith

  -- Nothing but `resume` leaves BLOCKED.
  blocked_resumes :
      (e : Event)
      → w.phase ≡ Phase.blocked
      → advance_workflow outside configured now e input w ≡ ok v
      → e ≡ resume
  blocked_resumes e at h =
      let s = advance-Step outside configured now e input w v h in
      only_resume e s.ready s.moved (at_phase e Phase.blocked s at)

-- Any number of calls of `update` that returned.
pub data Updates (outside : Outside) (w : Workflow) : Workflow → Type 0 where
  no_update : Updates outside w w
  updated :
      {u v : Workflow} (upper : String → String) (now : ℕ) (input : UpdateInput)
      → Updates outside w u
      → update_workflow outside upper now input u ≡ ok v
      → Updates outside w v

Updates-keep :
    (outside : Outside) {w v : Workflow}
    → Updates outside w v
    → (v.phase ≡ w.phase) × (v.return_phase ≡ w.return_phase)
Updates-keep outside no_update = (refl, refl)
Updates-keep outside (updated {u} {v} upper now input before h) =
    let kept = Updates-keep outside before in
    let stays = update-Stays outside upper now input u v h in
    (stays.phase ∙ kept.0, stays.return_phase ∙ kept.1)

module _ (outside : Outside) (configured : Bool) where
  -- After a block, and any updates, the next event that is accepted brings the workflow back to the phase that it was
  -- blocked in. A prototype that is completed with nothing but updates since it was asked for leads back to the phase
  -- that asked for it.
  pub detour_returns :
      (e f : Event) (t₁ t₂ : ℕ) (i₁ i₂ : AdvanceInput) (w v x u : Workflow)
      → (e ≡ Event.blocked) ⊎ ((e ≡ prototype_needed) × (f ≡ prototype_complete))
      → advance_workflow outside configured t₁ e i₁ w ≡ ok v
      → Updates outside v x
      → advance_workflow outside configured t₂ f i₂ x ≡ ok u
      → u.phase ≡ w.phase
  detour_returns e f t₁ t₂ i₁ i₂ w v x u (inl is_block) h updates k =
      let (known, at, stored) =
        block_keeps outside configured t₁ i₁ w v (
          subst (λ (y : Event). advance_workflow outside configured t₁ y i₁ w ≡ ok v) is_block h) in
      let (same_phase, same_return) = Updates-keep outside updates in
      let still = same_phase ∙ at in
      let is_resume = blocked_resumes outside configured t₂ i₂ x u f still k in
      let (back, _) =
        resume_returns outside configured t₂ i₂ x u still (
          subst (λ (y : Event). advance_workflow outside configured t₂ y i₂ x ≡ ok u) is_resume
            k) in
      back ∙ ap or_grilling (same_return ∙ stored) ∙ or_grilling_known w.phase known
  detour_returns e f t₁ t₂ i₁ i₂ w v x u (inr (is_needed, is_complete)) h updates k =
      let (known, at, stored) =
        prototype_keeps outside configured t₁ i₁ w v (
          subst (λ (y : Event). advance_workflow outside configured t₁ y i₁ w ≡ ok v) is_needed
            h) in
      let (same_phase, same_return) = Updates-keep outside updates in
      let back = prototype_returns outside configured t₂ i₂ x u (same_phase ∙ at) (
        subst (λ (y : Event). advance_workflow outside configured t₂ y i₂ x ≡ ok u) is_complete
          k) in
      back ∙ ap or_grilling (same_return ∙ stored) ∙ or_grilling_known w.phase known

module _ (outside : Outside) (configured : Bool) (input : AdvanceInput) where
  -- `advance` with the arguments left as they are, at a time.
  abbrev pub Moves : ℕ → Event → Workflow → Workflow → Type 0
  Moves now e w v = advance_workflow outside configured now e input w ≡ ok v

  -- A prototype that is blocked and resumed forgets the phase that asked for it: its completion
  -- leads to GRILLING, whatever that phase was.
  pub blocked_prototype_forgets :
      (t₁ t₂ t₃ t₄ : ℕ) (w a b c d : Workflow)
      → Moves t₁ prototype_needed w a
      → Moves t₂ Event.blocked a b
      → Moves t₃ resume b c
      → Moves t₄ prototype_complete c d
      → d.phase ≡ grilling
  blocked_prototype_forgets t₁ t₂ t₃ t₄ w a b c d h₁ h₂ h₃ h₄ =
      let (_, entered, _) = prototype_keeps outside configured t₁ input w a h₁ in
      let (known, stopped, stored) = block_keeps outside configured t₂ input a b h₂ in
      let (resumed, cleared) = resume_returns outside configured t₃ input b c stopped h₃ in
      let in_prototype = resumed ∙ ap or_grilling (stored ∙ ap (λ (p : Phase). some p) entered) in
      prototype_returns outside configured t₄ input c d in_prototype h₄ ∙ ap or_grilling cleared
