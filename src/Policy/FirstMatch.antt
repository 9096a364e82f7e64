-- ===== src/Policy/FirstMatch.antt =====
-- policy-service.js: the rule at which `evaluate` stops, and the prefixes of a command.
use agentdock_mcp_harness.Base.{
  ℕ, zero, suc, String, true, false, ◌≡◌, refl, ap, ◌∙◌, ◌⊎◌, inl, inr, ◌↔◌, Option, some, List, [],
  ◌∷◌, ◌++◌, arith, All, Bool-cases, drop, length, length-append, get_elem?, same_option_iff,
}
use agentdock_mcp_harness.Policy.{
  Rule, evaluate, rule_matches, decision_of, default_allow, prefix_matches, prefix_every,
}

module _ (tool : String) (shell : Option String) (argv : Option (List String)) where
  -- The rule at which the loop stops.
  pub record First (rules : List Rule) (rule : Rule) : Type 0 where
    pub before : List Rule
    pub after : List Rule
    pub at : rules ≡ before ++ rule ∷ after
    pub matched : rule_matches tool shell argv rule ≡ true
    pub skipped : All (λ r. rule_matches tool shell argv r ≡ false) before

  evaluate_hit :
      (rule : Rule) (rules : List Rule)
      → rule_matches tool shell argv rule ≡ true
      → evaluate (rule ∷ rules) tool shell argv ≡ decision_of rule
  unfolding evaluate
  evaluate_hit rule rules h = rw h

  evaluate_miss :
      (rule : Rule) (rules : List Rule)
      → rule_matches tool shell argv rule ≡ false
      → evaluate (rule ∷ rules) tool shell argv ≡ evaluate rules tool shell argv
  unfolding evaluate
  evaluate_miss rule rules h = rw h

  First-cons :
      (rule r : Rule) (rules : List Rule)
      → rule_matches tool shell argv rule ≡ false
      → First rules r
      → First (rule ∷ rules) r
  First-cons rule r rules miss f = record {
    before = rule ∷ f.before;
    after = f.after;
    at = ap (λ l. rule ∷ l) f.at;
    matched = f.matched;
    skipped = (miss, f.skipped);
  }

  -- The decision is that of the first rule that matches, and `default-allow` if none does.
  pub evaluate-First :
      (rules : List Rule)
      → ((rule : Rule) × First rules rule × (evaluate rules tool shell argv ≡ decision_of rule))
        ⊎ (All (λ r. rule_matches tool shell argv r ≡ false) rules
            × (evaluate rules tool shell argv ≡ default_allow))
  evaluate-First [] = inr (tt, unfold evaluate in refl)
  evaluate-First (rule ∷ rules) = elim (Bool-cases (rule_matches tool shell argv rule)) [
    | inl hit ↦ inl (
      rule,
      record { before = []; after = rules; at = refl; matched = hit; skipped = tt },
      evaluate_hit rule rules hit,
    )
    | inr miss ↦ elim (evaluate-First rules) [
      | inl (r, f, e) ↦ inl (r, First-cons rule r rules miss f, evaluate_miss rule rules miss ∙ e)
      | inr (none_before, e) ↦ inr ((miss, none_before), evaluate_miss rule rules miss ∙ e)
    ]
  ]

-- The items of a list from an index on.
get_elem?-drop :
    (xs : List String) (i : ℕ) (x : String) (rest : List String)
    → drop i xs ≡ x ∷ rest
    → (get_elem? xs i ≡ some x) × (drop (suc i) xs ≡ rest)
get_elem?-drop [] zero x rest h = cc
get_elem?-drop [] (suc i) x rest h = cc
get_elem?-drop (y ∷ xs) zero x rest h = ground arith
get_elem?-drop (y ∷ xs) (suc i) x rest h = get_elem?-drop xs i x rest h

drop-cons :
    (xs : List String) (i : ℕ) (x : String)
    → get_elem? xs i ≡ some x
    → drop i xs ≡ x ∷ drop (suc i) xs
drop-cons [] i x h = cc
drop-cons (y ∷ xs) zero x h = ground arith
drop-cons (y ∷ xs) (suc i) x h = drop-cons xs i x h

prefix_every_sound :
    (value prefix : List String) (index : ℕ)
    → prefix_every value prefix index ≡ true
    → (rest : List String) × (drop index value ≡ prefix ++ rest)
unfolding prefix_every
prefix_every_sound value [] index h = (drop index value, refl)
prefix_every_sound value (item ∷ prefix) index h =
    let at : get_elem? value index ≡ some item =
      (same_option_iff (get_elem? value index) (some item)).0 (ground arith) in
    let (rest, e) = prefix_every_sound value prefix (suc index) (ground arith) in
    (rest, drop-cons value index item at ∙ ap (λ l. item ∷ l) e)

prefix_every_complete :
    (value prefix rest : List String) (index : ℕ)
    → drop index value ≡ prefix ++ rest
    → prefix_every value prefix index ≡ true
unfolding prefix_every
prefix_every_complete value [] rest index h = refl
prefix_every_complete value (item ∷ prefix) rest index h =
    let (at, e) = get_elem?-drop value index item (prefix ++ rest) h in
    rw (
      (same_option_iff (get_elem? value index) (some item)).1 at,
      prefix_every_complete value prefix rest (suc index) e,
    )

-- A command matches `argv_prefix` exactly when it is that prefix followed by more arguments or none.
pub prefix_matches_iff :
    (value prefix : List String)
    → (prefix_matches (some value) (some prefix) ≡ true)
      ↔ ((rest : List String) × (value ≡ prefix ++ rest))
unfolding prefix_matches
prefix_matches_iff value prefix = (
  λ h. prefix_every_sound value prefix 0 (ground arith),
  λ (rest, e).
      ground (
        arith,
        prefix_every_complete value prefix rest 0 e,
        length-append prefix rest,
        ap length e,
      ),
)
