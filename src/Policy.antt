-- ===== src/Policy.antt =====
-- policy-service.js: the rules of the configuration, and the first rule that an operation matches.
-- `new RegExp` is the argument `compile`: the test of a pattern, or nothing for an invalid pattern.
pub mod FirstMatch
pub mod Rules
mod Examples
use agentdock_mcp_harness.Base.{
  ℕ, suc, String, Bool, true, false, ◌&&◌, ◌||◌, Option, none, some, List, [], ◌∷◌, if◌then◌else◌,
  same, same_option, leb, or_else, length, get_elem?, truthy, Result, ok, err, ◌>>=◌, ◌>>◌, guard,
  invalid_policy_config,
}
use agentdock_mcp_harness.Base.Json.{
  Json, null, boolean, number, text, array, object, Items, nil, cons, Fields, member,
}

pub data Effect : Type 0 where
  allow ask deny : Effect

pub record Rule : Type 0 where
  pub id : String
  pub effect : Effect
  pub tool : String
  pub approval_scope : String
  pub shell_regex : Option (String → Bool)
  pub argv_prefix : Option (List String)

-- What `evaluate` returns.
pub record PolicyDecision : Type 0 where
  pub rule_id : String
  pub effect : Effect
  pub approval_scope : String

-- `EFFECTS.has(rule.effect)`
effect_of : Option Json → Result Effect
effect_of (some (text s)) =
    if same s "allow"
    then ok allow
    else if same s "ask"
    then ok ask
    else if same s "deny"
    then ok deny
    else err invalid_policy_config
effect_of _ = err invalid_policy_config

-- A field that must be a non-empty text.
required_text : Option Json → Result String
required_text (some (text s)) = if truthy s then ok s else err invalid_policy_config
required_text _ = err invalid_policy_config

strings_of : Items → Result (List String)
strings_of nil = ok []
strings_of (cons (text s) items) = do rest ← strings_of items; ok (s ∷ rest)
strings_of (cons _ items) = err invalid_policy_config

prefix_of : Option Json → Result (Option (List String))
unfolding strings_of
prefix_of none = ok none
prefix_of (some (array items)) = do prefix ← strings_of items; ok (some prefix)
prefix_of (some _) = err invalid_policy_config

scope_of : Option Json → String → String
scope_of (some (text s)) id = if truthy s then s else id
scope_of _ id = id

module _ (compile : String → Option (String → Bool)) where
  compiled : Option (String → Bool) → Result (Option (String → Bool))
  compiled none = err invalid_policy_config
  compiled (some test) = ok (some test)

  regex_of : Option Json → Result (Option (String → Bool))
  unfolding compiled
  regex_of none = ok none
  regex_of (some (text s)) = compiled (compile s)
  regex_of (some _) = err invalid_policy_config

  -- One round of the `map` in `parseRules`.
  pub parse_rule : Json → Result Rule
  parse_rule (object rule) = do
    effect ← effect_of (member "effect" rule)
    id ← required_text (member "id" rule)
    tool ← required_text (member "tool" rule)
    shell_regex ← regex_of (member "shell_regex" rule)
    argv_prefix ← prefix_of (member "argv_prefix" rule)
    ok (record {
      id = id;
      effect = effect;
      tool = tool;
      approval_scope = scope_of (member "approval_scope" rule) id;
      shell_regex = shell_regex;
      argv_prefix = argv_prefix;
    })
  parse_rule _ = err invalid_policy_config

  pub parse_items : Items → Result (List Rule)
  parse_items nil = ok []
  parse_items (cons rule items) = do
    parsed ← parse_rule rule
    rest ← parse_items items
    ok (parsed ∷ rest)

  -- `parseRules`
  unfoldable pub parse_rules : Option Json → Result (List Rule)
  unfolding parse_items parse_rule effect_of required_text prefix_of scope_of regex_of
  parse_rules none = ok []
  parse_rules (some null) = ok []
  parse_rules (some (array items)) = parse_items items
  parse_rules (some _) = err invalid_policy_config

-- `prefix.every((item, index) => value[index] === item)`, from an index on
prefix_every : List String → List String → ℕ → Bool
prefix_every value [] index = true
prefix_every value (item ∷ prefix) index =
    same_option (get_elem? value index) (some item) && prefix_every value prefix (suc index)

-- `prefixMatches`
unfoldable pub prefix_matches : Option (List String) → Option (List String) → Bool
unfolding prefix_every
prefix_matches value none = true
prefix_matches none (some prefix) = false
prefix_matches (some value) (some prefix) =
    leb (length prefix) (length value) && prefix_every value prefix 0

abbrev regex_matches : Option (String → Bool) → Option String → Bool
regex_matches none shell = true
regex_matches (some test) shell = test (or_else shell "")

-- The three tests of the loop in `evaluate`.
unfoldable pub rule_matches : String → Option String → Option (List String) → Rule → Bool
unfolding prefix_matches
rule_matches tool shell argv rule =
    (same rule.tool "*" || same rule.tool tool)
    && regex_matches rule.shell_regex shell
    && prefix_matches argv rule.argv_prefix

abbrev pub decision_of : Rule → PolicyDecision
decision_of rule = record {
  rule_id = rule.id;
  effect = rule.effect;
  approval_scope = rule.approval_scope;
}

abbrev pub default_allow : PolicyDecision
default_allow = record {
  rule_id = "default-allow";
  effect = allow;
  approval_scope = "default-allow";
}

-- `evaluate`
unfoldable pub evaluate : List Rule → String → Option String → Option (List String) → PolicyDecision
evaluate [] tool shell argv = default_allow
evaluate (rule ∷ rules) tool shell argv =
    if rule_matches tool shell argv rule then decision_of rule else evaluate rules tool shell argv
