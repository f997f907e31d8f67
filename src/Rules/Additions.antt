-- ===== src/Rules/Additions.antt =====
-- Rules that are added in one order or another.
use mathlib.Core.Logic.{∥∥₁_elim}
use mathlib.Core.List.{Permᴰ}
use mathlib.Mathlib.Data.Multiset.Defs.{Multiset}
use mathlib.Mathlib.Data.Multiset.AddSub.{add, add_assoc, add_comm}
use lynx_sentinel.Base.{◌≡◌, refl, sym, ap, ap₂, subst, ◌∙◌, List, none, Perm, All}
use lynx_sentinel.Engine.{Engine, EngineLaws}
use lynx_sentinel.Rules.{new_flow_rule, new_cb_rule}
use lynx_sentinel.Rules.Table.{
  Update, adds_flow, removes_flow, adds_cb, removes_cb, reloads, update_all,
}
use lynx_sentinel.Rules.Multisets.{
  RuleSets, RuleSets-set, RuleSets-eq, rules_in_force, accepted_flow, accepted_cb, change,
  change_all, update_all-change_all,
}

-- The calls that add a rule.
abbrev pub Adds : Update → Type 0
Adds (adds_flow resource qps_limit behavior) = Unit
Adds (removes_flow resource) = ⊥
Adds (adds_cb resource strategy threshold min_request_amount) = Unit
Adds (removes_cb resource) = ⊥
Adds (reloads conf) = ⊥

add_left_comm : {R : Type 0} (x y z : Multiset R) → add x (add y z) ≡ add y (add x z)
add_left_comm x y z = sym (add_assoc x y z) ∙ ap (λ w. add w z) (add_comm x y) ∙ add_assoc y x z

module _ {S O : Type 0} (core : Engine S O) (laws : EngineLaws core) where
  change_comm :
      (u u' : Update) (x : RuleSets)
      → Adds u
      → Adds u'
      → change core laws u (change core laws u' x) ≡ change core laws u' (change core laws u x)
  unfolding change
  change_comm (removes_flow resource) u' x a a' = elim a [ ]
  change_comm (removes_cb resource) u' x a a' = elim a [ ]
  change_comm (reloads conf) u' x a a' = elim a [ ]
  change_comm u (removes_flow resource) x a a' = elim a' [ ]
  change_comm u (removes_cb resource) x a a' = elim a' [ ]
  change_comm u (reloads conf) x a a' = elim a' [ ]
  change_comm (adds_flow r q b) (adds_flow r' q' b') x a a' =
      RuleSets-eq
        (add_left_comm (accepted_flow core laws (new_flow_rule core r q b))
          (accepted_flow core laws (new_flow_rule core r' q' b')) x.flow)
        refl refl
  change_comm (adds_flow _ _ _) (adds_cb _ _ _ _) x a a' = refl
  change_comm (adds_cb _ _ _ _) (adds_flow _ _ _) x a a' = refl
  change_comm (adds_cb r k t m) (adds_cb r' k' t' m') x a a' =
      RuleSets-eq refl
        (add_left_comm (accepted_cb core laws (new_cb_rule core r k t m))
          (accepted_cb core laws (new_cb_rule core r' k' t' m')) x.cb)
        refl

  Adds-Permᴰ : {us us' : List Update} → Permᴰ us us' → All Adds us → All Adds us'
  Adds-Permᴰ Permᴰ.nil a = a
  Adds-Permᴰ (Permᴰ.cons e d) (a, rest) = (subst Adds e a, Adds-Permᴰ d rest)
  Adds-Permᴰ (Permᴰ.swap e e') (a, (a', rest)) = (subst Adds e' a', (subst Adds e a, rest))
  Adds-Permᴰ (Permᴰ.trans d d') a = Adds-Permᴰ d' (Adds-Permᴰ d a)

  change_all-Permᴰ :
      {us us' : List Update} (x : RuleSets)
      → Permᴰ us us'
      → All Adds us
      → change_all core laws us x ≡ change_all core laws us' x
  unfolding change_all
  change_all-Permᴰ x Permᴰ.nil a = refl
  change_all-Permᴰ x (Permᴰ.cons {a = u} {l₂ = us'} e d) (a, rest) =
      change_all-Permᴰ (change core laws u x) d rest
      ∙ ap (λ v. change_all core laws us' (change core laws v x)) e
  change_all-Permᴰ x (Permᴰ.swap {a = u} {b = v} {l = us} e e') (a, (a', rest)) =
      ap (change_all core laws us)
        (change_comm v u x a' a ∙ ap₂ (λ w w'. change core laws w (change core laws w' x)) e e')
  change_all-Permᴰ x (Permᴰ.trans d d') a =
      change_all-Permᴰ x d a ∙ change_all-Permᴰ x d' (Adds-Permᴰ d a)

  -- Flow and circuit breaker rules that are added one after the other put the same multisets of
  -- rules in force in whatever order they are added, when all calls return nil.
  pub update_all-Perm :
      (us us' : List Update) (s : S)
      → All Adds us
      → Perm us us'
      → (update_all core us s).0 ≡ none
      → (update_all core us' s).0 ≡ none
      → rules_in_force core (update_all core us s).1 ≡ rules_in_force core (update_all core us' s).1
  update_all-Perm us us' s a h done done' =
      update_all-change_all core laws us s done
      ∙ ∥∥₁_elim h (RuleSets-set _ _) (λ d. change_all-Permᴰ (rules_in_force core s) d a)
      ∙ sym (update_all-change_all core laws us' s done')
