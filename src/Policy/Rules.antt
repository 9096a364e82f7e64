-- ===== src/Policy/Rules.antt =====
-- The rules that `parseRules` accepts.
use agentdock_mcp_harness.Base.{
  ℕ, suc, String, Bool, true, ◌≡◌, ap, Option, some, List, arith, All, truthy, length, ok,
  >>=-eq-ok, ok-injective,
}
use agentdock_mcp_harness.Base.Json.{Json, array, object, Items, nil, cons, member}
use agentdock_mcp_harness.Policy.{
  Rule, required_text, scope_of, parse_rule, parse_items, parse_rules,
}

-- A rule has an identifier, a tool and a scope, none of them empty.
pub record IsUsable (rule : Rule) : Type 0 where
  pub has_id : truthy rule.id ≡ true
  pub has_tool : truthy rule.tool ≡ true
  pub has_scope : truthy rule.approval_scope ≡ true

abbrev pub count_items : Items → ℕ
count_items nil = 0
count_items (cons _ items) = suc (count_items items)

required_text-truthy : (v : Option Json) (s : String) → required_text v ≡ ok s → truthy s ≡ true
unfolding required_text
required_text-truthy v s h = ground arith

scope_of-truthy : (v : Option Json) (id : String) → truthy id ≡ true → truthy (scope_of v id) ≡ true
unfolding scope_of
scope_of-truthy v id h = ground arith

module _ (compile : String → Option (String → Bool)) where
  parse_rule-IsUsable : (v : Json) (rule : Rule) → parse_rule compile v ≡ ok rule → IsUsable rule
  unfolding parse_rule
  parse_rule-IsUsable (object fields) rule h = ground (
    arith,
    required_text-truthy (member "id" fields) rule.id,
    required_text-truthy (member "tool" fields) rule.tool,
    scope_of-truthy (member "approval_scope" fields) rule.id,
  )
  parse_rule-IsUsable v rule h = cc

  parse_items-IsUsable :
      (items : Items) (rules : List Rule)
      → parse_items compile items ≡ ok rules
      → All IsUsable rules × (length rules ≡ count_items items)
  unfolding parse_items
  parse_items-IsUsable nil rules h = ground arith
  parse_items-IsUsable (cons v items) rules h =
      let (first, parsed, h') = >>=-eq-ok (parse_rule compile v) _ h in
      let (rest, parsed_rest, e) = >>=-eq-ok (parse_items compile items) _ h' in
      let (usable, count) = parse_items-IsUsable items rest parsed_rest in
      rw (← ok-injective e) ((parse_rule-IsUsable v first parsed, usable), ap suc count)

  -- A configuration that is accepted gives one rule for each item of its array, in the same
  -- number, and each has a non-empty identifier, tool and approval scope.
  pub parse_rules-IsUsable :
      (items : Items) (rules : List Rule)
      → parse_rules compile (some (array items)) ≡ ok rules
      → All IsUsable rules × (length rules ≡ count_items items)
  parse_rules-IsUsable items rules h = parse_items-IsUsable items rules (unfold parse_rules in h)
