-- ===== src/Policy/Examples.antt =====
-- A small configuration of policy-service.js, and what it decides.
use agentdock_mcp_harness.Base.{
  false, ◌≡◌, ok, some, refl, ◌⊎◌, none, some, List, [], ◌∷◌, All, string_dec,
}
use agentdock_mcp_harness.Base.Json.{Json, array, text, object, nil, cons, field, end}
use agentdock_mcp_harness.Policy.{
  Rule, ask, deny, parse_rules, evaluate, rule_matches, decision_of, default_allow,
}
use agentdock_mcp_harness.Policy.FirstMatch.{First, evaluate-First}

abbrev no_push : Rule
no_push = record {
  id = "no-push";
  effect = deny;
  tool = "run";
  approval_scope = "no-push";
  shell_regex = none;
  argv_prefix = some ("git" ∷ "push" ∷ []);
}

abbrev ask_git : Rule
ask_git = record {
  id = "git";
  effect = ask;
  tool = "*";
  approval_scope = "git-all";
  shell_regex = none;
  argv_prefix = some ("git" ∷ []);
}

abbrev rules : List Rule
rules = no_push ∷ ask_git ∷ []

denied_first : evaluate rules "run" none (some ("git" ∷ "push" ∷ "-f" ∷ [])) ≡ decision_of no_push
unfolding evaluate rule_matches string_dec
denied_first = refl

asked : evaluate rules "run" none (some ("git" ∷ "log" ∷ [])) ≡ decision_of ask_git
unfolding evaluate rule_matches string_dec
asked = refl

allowed_by_default : evaluate rules "run" (some "ls") none ≡ default_allow
unfolding evaluate rule_matches string_dec
allowed_by_default = refl

evaluate-First_example :
    ((rule : Rule) × First "run" none (some ("git" ∷ [])) rules rule
      × (evaluate rules "run" none (some ("git" ∷ [])) ≡ decision_of rule))
    ⊎ (All (λ r. rule_matches "run" none (some ("git" ∷ [])) r ≡ false) rules
        × (evaluate rules "run" none (some ("git" ∷ [])) ≡ default_allow))
evaluate-First_example = evaluate-First "run" none (some ("git" ∷ [])) rules

abbrev item : Json
item = object (field "id" (text "git") (field "effect" (text "ask") (field "tool" (text "*") end)))

abbrev parsed : Rule
parsed = record {
  id = "git";
  effect = ask;
  tool = "*";
  approval_scope = "git";
  shell_regex = none;
  argv_prefix = none;
}

parsed_rules : parse_rules (λ s. none) (some (array (cons item nil))) ≡ ok (parsed ∷ [])
unfolding parse_rules string_dec
parsed_rules = refl
