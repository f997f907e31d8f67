-- ===== src/Rules/Errors.antt =====
-- Errors that pass through a loader or a sequence of them.
use lynx_sentinel.Base.{String, ◌≡◌, refl, Option, none, some, arith}
use lynx_sentinel.Rules.{RuleError, wrap, ◌>>◌}

pub wrap-none :
    {S : Type 0} (error : String → RuleError) (r : Option String × S)
    → (wrap error r).0 ≡ none
    → r.0 ≡ none
wrap-none error (none, s) h = refl
wrap-none error (some text, s) h = cc

pub wrap-state :
    {S : Type 0} (error : String → RuleError) (r : Option String × S) → (wrap error r).1 ≡ r.1
wrap-state error (none, s) = refl
wrap-state error (some text, s) = refl

-- A sequence that succeeds is one whose steps succeed.
pub >>-none :
    {S : Type 0} (m n : S → Option RuleError × S) (s : S)
    → ((m >> n) s).0 ≡ none
    → ((m s).0 ≡ none) × ((n (m s).1).0 ≡ none) × (((m >> n) s).1 ≡ (n (m s).1).1)
>>-none m n s h = ground arith
