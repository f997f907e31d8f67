-- ===== src/Rules/Merging.antt =====
-- Loads over the rules in force, against a list that has the same rules in some order.
use mathlib.Core.List.{perm_append_singleton}
use mathlib.Core.List.Perm
use lynx_sentinel.Base.{
  ◌≡◌, sym, subst, Bool, List, [], ◌∷◌, ◌++◌, append-nil, none, keep, keep-append, keep-Perm, Perm,
  Bool-cases, inl, inr,
}
use lynx_sentinel.Engine.{RuleManager, RuleManagerLaws}
use lynx_sentinel.Rules.Updates.{keep-valid, load-kept}

module _ {S R : Type 0} {manager : RuleManager S R} (laws : RuleManagerLaws manager) where
  open laws use {valid, get-load}

  -- One more rule, valid or not, after those in force or before them.
  keep_last :
      (rule : R) (rules : List R)
      → Perm (rules ++ keep valid (rule ∷ [])) (keep valid (rule ∷ []) ++ rules)
  keep_last rule rules = elim (Bool-cases (valid rule)) [
    | inl good ↦ rw good (perm_append_singleton rule rules)
    | inr bad ↦ rw (bad, append-nil rules) Perm.rfl
  ]

  load_one_more :
      (rule : R) (s : S)
      → (manager.load (manager.get s ++ rule ∷ []) s).0 ≡ none
      → Perm
          (manager.get (manager.load (manager.get s ++ rule ∷ []) s).1)
          (keep valid (rule ∷ []) ++ manager.get s)
  load_one_more rule s done = Perm.trans (get-load _ s done) (
      rw (keep-append valid (manager.get s) (rule ∷ []), keep-valid laws s)
        (keep_last rule (manager.get s)))

  pub load_added-table :
      (rule : R) (s : S) {rules : List R}
      → (manager.load (manager.get s ++ rule ∷ []) s).0 ≡ none
      → Perm (manager.get s) rules
      → Perm
          (manager.get (manager.load (manager.get s ++ rule ∷ []) s).1)
          (keep valid (rule ∷ []) ++ rules)
  load_added-table rule s done h =
      Perm.trans (load_one_more rule s done) (Perm.append_left (keep valid (rule ∷ [])) h)

  pub load_kept-table :
      (p : R → Bool) (s : S) {rules : List R}
      → (manager.load (keep p (manager.get s)) s).0 ≡ none
      → Perm (manager.get s) rules
      → Perm (manager.get (manager.load (keep p (manager.get s)) s).1) (keep p rules)
  load_kept-table p s done h = Perm.trans (load-kept laws p s done) (keep-Perm p h)

-- A list that a call does not change.
pub same_table : {R : Type 0} {xs ys rules : List R} → xs ≡ ys → Perm ys rules → Perm xs rules
same_table {rules = rules} e h = subst (λ xs. Perm xs rules) (sym e) h
