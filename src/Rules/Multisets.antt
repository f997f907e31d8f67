-- ===== src/Rules/Multisets.antt =====
-- The rules in force as multisets, since GetRules has no fixed order, and the calls that change them
-- as functions of these multisets.
use mathlib.Core.List.Perm
use mathlib.Core.Quot
use mathlib.Mathlib.Data.Multiset.Defs.{Multiset, of_list, Multiset-set}
use mathlib.Mathlib.Data.Multiset.AddSub.{add}
use lynx_sentinel.Base.{
  ◌≡◌, refl, ap, ◌∙◌, Bool, List, [], ◌∷◌, map, none, keep, keep-Perm, if◌then◌else◌, Bool-cases,
  inl, inr,
}
use lynx_sentinel.Config.{SentinelConfig}
use lynx_sentinel.Engine.{CoreFlowRule, CoreCbRule, CoreSystemRule, Engine, EngineLaws}
use lynx_sentinel.Rules.{
  reload_rules, is_empty, flow_rule, cb_rule, system_rule, new_flow_rule, new_cb_rule,
}
use lynx_sentinel.Rules.Updates.{others}
use lynx_sentinel.Rules.Table.{
  Update, adds_flow, removes_flow, adds_cb, removes_cb, reloads, Table, update_all, apply,
  apply_all, Represents, update_all-Represents, reload_rules-Represents,
}

-- The rules of each kind, each as often as it is in force.
pub record RuleSets : Type 0 where
  pub flow : Multiset CoreFlowRule
  pub cb : Multiset CoreCbRule
  pub system : Multiset CoreSystemRule

pub RuleSets-set : IsSet RuleSets
RuleSets-set = hlevel (Multiset-set)

unfoldable pub without_order : Table → RuleSets
without_order t = record { flow = of_list t.flow; cb = of_list t.cb; system = of_list t.system }

unfoldable pub keep_those : {R : Type 0} → (R → Bool) → Multiset R → Multiset R
keep_those p =
    Quot.lift Multiset-set (λ l. of_list (keep p l)) (λ l l' h. Quot.sound (keep-Perm p h))

pub RuleSets-eq : {x y : RuleSets} → x.flow ≡ y.flow → x.cb ≡ y.cb → x.system ≡ y.system → x ≡ y
RuleSets-eq f c s i = record { flow = f i; cb = c i; system = s i }

module _ {S O : Type 0} (core : Engine S O) where
  unfoldable pub rules_in_force : S → RuleSets
  rules_in_force s = record {
    flow = of_list (core.flow.get s);
    cb = of_list (core.circuit_breaker.get s);
    system = of_list (core.system.get s);
  }

  module _ (laws : EngineLaws core) where
    open laws use {flow_laws, cb_laws, system_laws}

    -- A rule, if Sentinel accepts it.
    unfoldable pub accepted_flow : CoreFlowRule → Multiset CoreFlowRule
    accepted_flow rule = of_list (keep flow_laws.valid (rule ∷ []))

    unfoldable pub accepted_cb : CoreCbRule → Multiset CoreCbRule
    accepted_cb rule = of_list (keep cb_laws.valid (rule ∷ []))

    unfoldable pub change : Update → RuleSets → RuleSets
    change (adds_flow resource qps_limit behavior) x = record x {
      flow = add (accepted_flow (new_flow_rule core resource qps_limit behavior)) x.flow;
    }
    change (removes_flow resource) x = record x {
      flow = keep_those (others (λ rule. rule.resource) resource) x.flow;
    }
    change (adds_cb resource strategy threshold min_request_amount) x = record x {
      cb = add (accepted_cb (new_cb_rule core resource strategy threshold min_request_amount)) x.cb;
    }
    change (removes_cb resource) x = record x {
      cb = keep_those (others (λ rule. rule.resource) resource) x.cb;
    }
    change (reloads conf) x = record {
      flow = of_list (keep flow_laws.valid (map flow_rule conf.flow_rules));
      cb = of_list (keep cb_laws.valid (map cb_rule conf.cb_rules));
      system =
          if is_empty conf.system_rules
          then x.system
          else of_list (keep system_laws.valid (map system_rule conf.system_rules));
    }

    unfoldable pub change_all : List Update → RuleSets → RuleSets
    change_all [] x = x
    change_all (u ∷ us) x = change_all us (change u x)

module _ {S O : Type 0} (core : Engine S O) (laws : EngineLaws core) where
  apply-change :
      (u : Update) (t : Table)
      → without_order (apply core laws u t) ≡ change core laws u (without_order t)
  unfolding without_order apply change keep_those accepted_flow accepted_cb
  apply-change (adds_flow resource qps_limit behavior) t = refl
  apply-change (removes_flow resource) t = refl
  apply-change (adds_cb resource strategy threshold min_request_amount) t = refl
  apply-change (removes_cb resource) t = refl
  apply-change (reloads conf) t = elim (Bool-cases (is_empty conf.system_rules)) [
    | inl e ↦ rw e refl
    | inr e ↦ rw e refl
  ]

  apply_all-change_all :
      (us : List Update) (t : Table)
      → without_order (apply_all core laws us t) ≡ change_all core laws us (without_order t)
  unfolding apply_all change_all
  apply_all-change_all [] t = refl
  apply_all-change_all (u ∷ us) t =
      apply_all-change_all us (apply core laws u t)
      ∙ ap (change_all core laws us) (apply-change u t)

  Represents-without_order :
      (s : S) (t : Table) → Represents core s t → rules_in_force core s ≡ without_order t
  unfolding rules_in_force without_order
  Represents-without_order s t r =
      RuleSets-eq (Quot.sound r.flow) (Quot.sound r.cb) (Quot.sound r.system)

  abbrev table_of : S → Table
  table_of s = record {
    flow = core.flow.get s;
    cb = core.circuit_breaker.get s;
    system = core.system.get s;
  }

  pub reload_rules-change :
      (conf : SentinelConfig) (s : S)
      → (reload_rules core conf s).0 ≡ none
      → rules_in_force core (reload_rules core conf s).1
        ≡ change core laws (reloads conf) (rules_in_force core s)
  unfolding rules_in_force without_order
  reload_rules-change conf s done =
      Represents-without_order (reload_rules core conf s).1
        (apply core laws (reloads conf) (table_of s))
        (reload_rules-Represents core laws conf s (table_of s) done
          (record { flow = Perm.rfl; cb = Perm.rfl; system = Perm.rfl }))
      ∙ apply-change (reloads conf) (table_of s)

  -- Any sequence of additions, removals and reloads of rules that returns nil changes the multisets
  -- of the rules in force as it changes abstract multisets, in which an addition of an unacceptable
  -- rule is ignored, a removal drops the rules of a resource, and a reload replaces all but the
  -- system rules of a configuration that has none.
  pub update_all-change_all :
      (us : List Update) (s : S)
      → (update_all core us s).0 ≡ none
      → rules_in_force core (update_all core us s).1
        ≡ change_all core laws us (rules_in_force core s)
  unfolding rules_in_force without_order
  update_all-change_all us s done =
      Represents-without_order (update_all core us s).1 (apply_all core laws us (table_of s)) (
        update_all-Represents core laws us s (table_of s) done
          (record { flow = Perm.rfl; cb = Perm.rfl; system = Perm.rfl }))
      ∙ apply_all-change_all us (table_of s)
