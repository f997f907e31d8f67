-- ===== src/Samples/RuleSets.antt =====
-- Loading rules, and changing those in force.
use mathlib.Core.List.Perm
use lynx_sentinel.Base.{List, ◌≡◌, ◌≢◌, refl, true, [], ◌∷◌, none, arith, eq_iff, All, Perm}
use lynx_sentinel.Rules.{
  flow_rule, cb_rule, reload_rules, load_flow_rules, load_circuit_breaker_rules, load_system_rules,
  new_flow_rule, add_flow_rule, remove_flow_rule, new_cb_rule, add_circuit_breaker_rule,
  remove_circuit_breaker_rule,
}
use lynx_sentinel.Rules.Table.{
  Update, adds_flow, removes_flow, adds_cb, removes_cb, reloads, update, update_all,
}
use lynx_sentinel.Rules.Multisets.{rules_in_force, change_all, update_all-change_all}
use lynx_sentinel.Rules.Additions.{update_all-Perm}
use lynx_sentinel.Rules.Updates.{remove_flow_rule-add_flow_rule}
use lynx_sentinel.Samples.{Loaded, small_core, small_core_laws, two_rules}

abbrev two_loaded : Loaded
two_loaded = record {
  flow_rules =
      new_flow_rule small_core "a" 10 "reject" ∷ new_flow_rule small_core "b" 20 "throttling" ∷ [];
  cb_rules = new_cb_rule small_core "a" 1 5 10 ∷ [];
  system_rules = [];
  open_entries = [];
}

add_flow_fine : (add_flow_rule small_core "c" 30 "throttling" two_loaded).0 ≡ none
unfolding add_flow_rule
add_flow_fine = refl

new_flow_valid :
    small_core_laws.flow_laws.valid (new_flow_rule small_core "c" 30 "throttling") ≡ true
unfolding small_core_laws new_flow_rule
new_flow_valid = refl

remove_new_fine :
    (remove_flow_rule small_core "c" (add_flow_rule small_core "c" 30 "throttling" two_loaded).1).0
    ≡ none
unfolding remove_flow_rule
remove_new_fine = refl

others : All (λ rule. rule.resource ≢ "c") (small_core.flow.get two_loaded)
unfolding new_flow_rule
others = (ground (arith, eq_iff "a" "c"), (ground (arith, eq_iff "b" "c"), tt))

remove_flow_rule-add_flow_rule_example :
    Perm
      (small_core.flow.get
        (remove_flow_rule small_core "c"
          (add_flow_rule small_core "c" 30 "throttling" two_loaded).1).1)
      (small_core.flow.get two_loaded)
remove_flow_rule-add_flow_rule_example =
    remove_flow_rule-add_flow_rule small_core small_core_laws "c" 30 "throttling" two_loaded
      add_flow_fine new_flow_valid others remove_new_fine

-- A rule that Sentinel ignores, a removal, and a reload.
abbrev updates : List Update
updates =
    adds_flow "" 10 "reject"
    ∷ adds_flow "c" 30 "throttling"
    ∷ removes_flow "a"
    ∷ adds_cb "c" 2 3 5
    ∷ reloads two_rules
    ∷ removes_cb "a"
    ∷ []

updates_fine : (update_all small_core updates two_loaded).0 ≡ none
unfolding update_all update add_flow_rule remove_flow_rule add_circuit_breaker_rule
    remove_circuit_breaker_rule reload_rules load_flow_rules load_circuit_breaker_rules
    load_system_rules flow_rule cb_rule
updates_fine = refl

update_all-change_all_example :
    rules_in_force small_core (update_all small_core updates two_loaded).1
    ≡ change_all small_core small_core_laws updates (rules_in_force small_core two_loaded)
update_all-change_all_example =
    update_all-change_all small_core small_core_laws updates two_loaded updates_fine

-- Three additions, of which Sentinel ignores one, and the same in another order.
abbrev additions : List Update
additions = adds_flow "c" 30 "reject" ∷ adds_flow "" 10 "reject" ∷ adds_cb "c" 2 3 5 ∷ []

abbrev other_additions : List Update
other_additions = adds_flow "" 10 "reject" ∷ adds_flow "c" 30 "reject" ∷ adds_cb "c" 2 3 5 ∷ []

additions_fine : (update_all small_core additions two_loaded).0 ≡ none
unfolding update_all update add_flow_rule add_circuit_breaker_rule
additions_fine = refl

other_additions_fine : (update_all small_core other_additions two_loaded).0 ≡ none
unfolding update_all update add_flow_rule add_circuit_breaker_rule
other_additions_fine = refl

update_all-Perm_example :
    rules_in_force small_core (update_all small_core additions two_loaded).1
    ≡ rules_in_force small_core (update_all small_core other_additions two_loaded).1
update_all-Perm_example =
    update_all-Perm small_core small_core_laws additions other_additions two_loaded
      (tt, (tt, (tt, tt))) (Perm.swap _ _ _) additions_fine other_additions_fine
