-- ===== src/Plugin/Flights.antt =====
-- Requests by Execute of several goroutines at a time: others may act while the caller's function of one
-- runs.
use lynx_sentinel.Base.{
  suc, ap, ◌++◌, false, ◌==◌, zero, refl, ℕ, String, ◌≡◌, subst, ◌∙◌, List, [], ◌∷◌, Option, none,
  some, arith, get_elem?, without,
}
use lynx_sentinel.Base.Float.{Platform}
use lynx_sentinel.Engine.{Engine}
use lynx_sentinel.Plugin.{
  execute, protect, nil_value, other_value, sentinel_entry, World, Ran, AnyValue, PluginError,
  runtime_state, entry, as_entry, finish, check_flow,
}
use lynx_sentinel.Plugin.Balance.{
  without_entry-other, Fresh, without_entry, without_entry-first, EntryLaws, open_in, Opened,
  entry-Opened, finish-open, check_flow-open,
}

-- An Execute whose function runs: the entry, the collector that it has read, and its resource.
pub record Flight : Type 0 where
  pub handle : ℕ
  pub collector : Option ℕ
  pub resource : String

module _ {S H O : Type 0} (core : Engine S O) where
  -- `Execute` from the answer of `Entry` to the call of the function, which an error prevents.
  unfoldable pub take_off :
      String → (AnyValue × Option PluginError) × World S H → List Flight → World S H × List Flight
  take_off resource ((value, some e), w) flights = (w, flights)
  take_off resource ((value, none), w) flights = elim (as_entry value) [
    | none ↦ (w, flights)
    | some handle ↦ (
      w,
      record { handle = handle; collector = (runtime_state w).1; resource = resource } ∷ flights,
    )
  ]

  module _ (platform : Platform) where
    -- The function of a flight returns or panics, and Execute ends.
    unfoldable pub land : Flight → Ran → ℕ → World S H → World S H
    land f ran elapsed w = (finish core platform f.collector f.handle f.resource elapsed (ran, w)).1

    pub data Step : World S H × List Flight → World S H × List Flight → Type 0 where
      takes_off :
          (resource : String) (opts : List O) (w : World S H) (flights : List Flight)
          → Step (w, flights) (take_off resource (entry core resource opts w) flights)
      lands :
          (i : ℕ) (f : Flight) (ran : Ran) (elapsed : ℕ) (w : World S H) (flights : List Flight)
          → get_elem? flights i ≡ some f
          → Step (w, flights) (land f ran elapsed w, without flights i)
      checks :
          (resource : String) (now : ℕ) (w : World S H) (flights : List Flight)
          → Step (w, flights) ((check_flow core resource now w).1, flights)

    pub data Reach (from : World S H) : World S H × List Flight → Type 0 where
      idle : Reach from (from, [])
      next : {a b : World S H × List Flight} → Reach from a → Step a b → Reach from b

module _ {S H O : Type 0} (core : Engine S O) (platform : Platform) where
  -- An Execute whose function does nothing to the world but return or panic, in two steps.
  abbrev flies : Ran → ℕ → World S H × List Flight → World S H
  flies ran elapsed (w, []) = w
  flies ran elapsed (w, f ∷ flights) = land core platform f ran elapsed w

  protect-flies :
      (resource : String) (ran : Ran) (elapsed : ℕ) (value : AnyValue) (e : Option PluginError)
      (w : World S H)
      → (protect core platform resource (λ w'. (ran, w')) elapsed ((value, e), w)).1
        ≡ flies ran elapsed (take_off core resource ((value, e), w) [])
  unfolding protect take_off land as_entry
  protect-flies resource ran elapsed value (some e) w = refl
  protect-flies resource ran elapsed nil_value none w = refl
  protect-flies resource ran elapsed other_value none w = refl
  protect-flies resource ran elapsed (sentinel_entry handle) none w = refl

  -- Execute, of a function that only returns or panics, is its two steps one after the other.
  execute-flies :
      (resource : String) (ran : Ran) (elapsed : ℕ) (opts : List O) (w : World S H)
      → (execute core platform resource (λ w'. (ran, w')) elapsed opts w).1
        ≡ flies ran elapsed (take_off core resource (entry core resource opts w) [])
  unfolding execute
  execute-flies resource ran elapsed opts w =
      let r = entry core resource opts w in protect-flies resource ran elapsed r.0.0 r.0.1 r.1

abbrev pub handles : List Flight → List ℕ
handles [] = []
handles (f ∷ flights) = f.handle ∷ handles flights

-- Each entry is new to those that were open before.
AllFresh : List Flight → List ℕ → Type 0
AllFresh [] l = Unit
AllFresh (f ∷ flights) l = Fresh f.handle (handles flights ++ l) × AllFresh flights l

some-eq : {f g : Flight} → some f ≡ some g → f ≡ g
some-eq e = cc

Fresh-found :
    (n : ℕ) (flights : List Flight) (i : ℕ) (f : Flight) (l : List ℕ)
    → get_elem? flights i ≡ some f
    → Fresh n (handles flights ++ l)
    → (f.handle == n) ≡ false
Fresh-found n [] i f l e h = cc
Fresh-found n (g ∷ flights) zero f l e (h, hs) = subst (λ x. (x.handle == n) ≡ false) (some-eq e) h
Fresh-found n (g ∷ flights) (suc i) f l e (h, hs) = Fresh-found n flights i f l e hs

Fresh-without :
    (n : ℕ) (flights : List Flight) (i : ℕ) (l : List ℕ)
    → Fresh n (handles flights ++ l)
    → Fresh n (handles (without flights i) ++ l)
Fresh-without n [] i l h = h
Fresh-without n (g ∷ flights) zero l (h, hs) = hs
Fresh-without n (g ∷ flights) (suc i) l (h, hs) = (h, Fresh-without n flights i l hs)

AllFresh-without :
    (flights : List Flight) (i : ℕ) (l : List ℕ)
    → AllFresh flights l
    → AllFresh (without flights i) l
unfolding AllFresh
AllFresh-without [] i l h = h
AllFresh-without (g ∷ flights) zero l (h, hs) = hs
AllFresh-without (g ∷ flights) (suc i) l (h, hs) =
    (Fresh-without g.handle flights i l h, AllFresh-without flights i l hs)

-- One entry is exited.
landed :
    (flights : List Flight) (i : ℕ) (f : Flight) (l : List ℕ)
    → get_elem? flights i ≡ some f
    → AllFresh flights l
    → without_entry f.handle (handles flights ++ l) ≡ handles (without flights i) ++ l
unfolding AllFresh
landed [] i f l e h = cc
landed (g ∷ flights) zero f l e (h, hs) =
    subst (λ x. without_entry x.handle (handles (g ∷ flights) ++ l) ≡ handles flights ++ l)
      (some-eq e) (without_entry-first g.handle (handles flights ++ l) h)
landed (g ∷ flights) (suc i) f l e (h, hs) =
    let other : (g.handle == f.handle) ≡ false =
      ground (arith, Fresh-found g.handle flights i f l e h) in
    without_entry-other f.handle g.handle (handles flights ++ l) other
    ∙ ap (λ k. g.handle ∷ k) (landed flights i f l e hs)

module _ {S H O : Type 0} (core : Engine S O) (entry_laws : EntryLaws core) where
  -- The open entries are those of the flights, and those from before.
  record Open (l : List ℕ) (a : World S H × List Flight) : Type 0 where
    entries : open_in core entry_laws a.0 ≡ handles a.1 ++ l
    fresh : AllFresh a.1 l

  take_off-Open :
      (resource : String) (l : List ℕ) (value : AnyValue) (e : Option PluginError) (w : World S H)
      (flights : List Flight)
      → AllFresh flights l
      → Opened core entry_laws (handles flights ++ l) ((value, e), w)
      → Open l (take_off core resource ((value, e), w) flights)
  unfolding take_off AllFresh
  take_off-Open resource l value (some e) w flights h o = record { entries = o; fresh = h }
  take_off-Open resource l value none w flights h (handle, entered, new, o) =
      rw (entered, take_off) (record { entries = o; fresh = (new, h) })

  module _ (platform : Platform) where
    Step-Open :
        (l : List ℕ) {a b : World S H × List Flight} → Step core platform a b → Open l a → Open l b
    unfolding land
    Step-Open l (takes_off resource opts w flights) o =
        let r = entry core resource opts w in
        take_off-Open resource l r.0.0 r.0.1 r.1 flights o.fresh (
          subst (λ m. Opened core entry_laws m r) o.entries
            (entry-Opened core entry_laws resource opts w))
    Step-Open l (lands i f ran elapsed w flights h) o = record {
      entries =
          finish-open core entry_laws platform f.collector f.handle f.resource elapsed ran w
          ∙ ap (without_entry f.handle) o.entries
          ∙ landed flights i f l h o.fresh;
      fresh = AllFresh-without flights i l o.fresh;
    }
    Step-Open l (checks resource now w flights) o = record {
      entries = check_flow-open core entry_laws resource now w ∙ o.entries;
      fresh = o.fresh;
    }

    Reach-Open :
        {w : World S H} {b : World S H × List Flight}
        → Reach core platform w b
        → Open (open_in core entry_laws w) b
    unfolding AllFresh
    Reach-Open idle = record { entries = refl; fresh = tt }
    Reach-Open (next r s) = Step-Open _ s (Reach-Open r)

    -- While requests by Execute of any number of goroutines arrive and end in any order, with
    -- functions that only return or panic, and CheckFlow is called in between, the entries of
    -- sentinel-golang that are open are those of the functions that still run and those that were
    -- open before, and no others.
    pub Reach-open :
        (w : World S H) (b : World S H × List Flight)
        → Reach core platform w b
        → open_in core entry_laws b.0 ≡ handles b.1 ++ open_in core entry_laws w
    Reach-open w b r = (Reach-Open r).entries
