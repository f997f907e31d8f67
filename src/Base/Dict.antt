-- ===== src/Base/Dict.antt =====
-- Go's `map[string]V`: an association list with one entry for each key. A write keeps the place
-- of an old key and appends a new one; Go fixes no order.
use lynx_sentinel.Base.{
  ◌++◌, Bool, true, false, sym, inl, inr, Bool-cases, String, ◌≡◌, refl, ◌≢◌, List, [], ◌∷◌, Option,
  none, some, arith, str_eq, eq_iff, eq_refl, if◌then◌else◌, All, str_eq-false,
}

abbrev pub Dict {ℓ} : Type ℓ → Type ℓ
Dict V = List (String × V)

-- Each key has one entry.
abbrev pub IsUnused : String → List String → Type 0
IsUnused k ks = All (λ j. j ≢ k) ks

abbrev pub HasDistinctKeys : List String → Type 0
HasDistinctKeys [] = Unit {0}
HasDistinctKeys (k ∷ ks) = IsUnused k ks × HasDistinctKeys ks

module _ {ℓ} {V : Type ℓ} where
  unfoldable pub lookup : String → Dict V → Option V
  lookup wanted [] = none
  lookup wanted ((key, value) ∷ rest) = if str_eq key wanted then some value else lookup wanted rest

  unfoldable pub insert : String → V → Dict V → Dict V
  insert new value [] = (new, value) ∷ []
  insert new value ((key, old) ∷ rest) =
      if str_eq key new then (key, value) ∷ rest else (key, old) ∷ insert new value rest

  -- `m[k]`, with the zero value where the key is missing.
  unfoldable pub get_or : V → String → Dict V → V
  get_or zero_value k [] = zero_value
  get_or zero_value k ((j, v) ∷ m) = if str_eq j k then v else get_or zero_value k m

  -- The keys that `range m` visits.
  abbrev pub keys : Dict V → List String
  keys [] = []
  keys ((j, v) ∷ m) = j ∷ keys m

  pub get_or-insert :
      (zero_value : V) (new wanted : String) (value : V) (entries : Dict V)
      → get_or zero_value wanted (insert new value entries)
        ≡ (if str_eq new wanted then value else get_or zero_value wanted entries)
  unfolding insert get_or
  get_or-insert zero_value new wanted value [] = refl
  get_or-insert zero_value new wanted value ((key, old) ∷ rest) = ground (
    get_or-insert zero_value new wanted value rest,
    eq_iff key wanted,
    eq_iff key new,
    eq_iff new wanted,
    arith,
  )

  pub get_or-insert_self : (d : V) (k : String) (v : V) (m : Dict V) → get_or d k (insert k v m) ≡ v
  get_or-insert_self d k v m = ground (arith, get_or-insert d k k v m, eq_refl k)

  pub get_or-insert_ne :
      (d : V) (k j : String) (v : V) (m : Dict V) → k ≢ j → get_or d j (insert k v m) ≡ get_or d j m
  get_or-insert_ne d k j v m h = ground (arith, get_or-insert d k j v m, str_eq-false k j h)

-- Does the list hold the key?
unfoldable pub has : String → List String → Bool
has k [] = false
has k (j ∷ ks) = if str_eq j k then true else has k ks

pub has-IsUnused : (k : String) (ks : List String) → has k ks ≡ false → IsUnused k ks
unfolding has
has-IsUnused k [] _ = tt
has-IsUnused k (j ∷ ks) h = ground (arith, eq_iff j k, has-IsUnused k ks)

pub has_of_IsUnused : (k : String) (ks : List String) → IsUnused k ks → has k ks ≡ false
unfolding has
has_of_IsUnused k [] _ = refl
has_of_IsUnused k (j ∷ ks) (h, hs) = ground (arith, eq_iff j k, has_of_IsUnused k ks hs)

module _ {ℓ} {V : Type ℓ} where
  -- A read of the key that was written, or of another.
  pub lookup-insert :
      (new wanted : String) (value : V) (entries : Dict V)
      → lookup wanted (insert new value entries)
        ≡ (if str_eq new wanted then some value else lookup wanted entries)
  unfolding insert lookup
  lookup-insert new wanted value [] = refl
  lookup-insert new wanted value ((key, old) ∷ rest) = ground (
    lookup-insert new wanted value rest,
    eq_iff key wanted,
    eq_iff key new,
    eq_iff new wanted,
    arith,
  )

  -- A write adds its key if it is new.
  pub keys-insert :
      (k : String) (v : V) (m : Dict V)
      → keys (insert k v m) ≡ (if has k (keys m) then keys m else keys m ++ k ∷ [])
  unfolding insert has
  keys-insert k v [] = refl
  keys-insert k v ((j, w) ∷ m) = ground (arith, keys-insert k v m)

  pub get_or_missing : (d : V) (k : String) (m : Dict V) → has k (keys m) ≡ false → get_or d k m ≡ d
  unfolding get_or has
  get_or_missing d k [] _ = refl
  get_or_missing d k ((j, w) ∷ m) h = ground (arith, get_or_missing d k m)

IsUnused-concat :
    (j k : String) (ks : List String) → IsUnused j ks → k ≢ j → IsUnused j (ks ++ k ∷ [])
IsUnused-concat j k [] _ h = (h, tt)
IsUnused-concat j k (i ∷ ks) (u, us) h = (u, IsUnused-concat j k ks us h)

HasDistinctKeys-concat :
    (k : String) (ks : List String)
    → HasDistinctKeys ks
    → IsUnused k ks
    → HasDistinctKeys (ks ++ k ∷ [])
HasDistinctKeys-concat k [] _ _ = (tt, tt)
HasDistinctKeys-concat k (j ∷ ks) (u, d) (h, hs) =
    (IsUnused-concat j k ks u (λ e. h (sym e)), HasDistinctKeys-concat k ks d hs)

pub insert-HasDistinctKeys {ℓ} :
    {V : Type ℓ} (k : String) (v : V) (m : Dict V)
    → HasDistinctKeys (keys m)
    → HasDistinctKeys (keys (insert k v m))
insert-HasDistinctKeys k v m d = elim (Bool-cases (has k (keys m))) [
  | inl old ↦ rw (keys-insert k v m, old) d
  | inr new ↦
      rw (keys-insert k v m, new)
        (HasDistinctKeys-concat k (keys m) d (has-IsUnused k (keys m) new))
]
