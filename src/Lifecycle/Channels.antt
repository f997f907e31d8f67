-- ===== src/Lifecycle/Channels.antt =====
-- Stop channels and the workers that listen to them.
use lynx_sentinel.Base.{
  ℕ, zero, suc, ◌<◌, ◌≡◌, refl, sym, ap, subst, ◌⊎◌, inl, inr, Bool, true, false, List, [], ◌∷◌,
  ◌++◌, Option, none, some, arith, All, length, length-append, set, Bool-cases,
}
use lynx_sentinel.Plugin.{Worker}
use lynx_sentinel.Lifecycle.{is_closed, close_once, is_told, is_stop_channel_closed, all_told}

is_closed-append :
    (l : List Bool) (c : ℕ) → is_closed l c ≡ true → is_closed (l ++ false ∷ []) c ≡ true
unfolding is_closed
is_closed-append [] c h = cc
is_closed-append (b ∷ l) zero h = h
is_closed-append (b ∷ l) (suc c) h = is_closed-append l c h

is_told-append :
    (closed : List Bool) (c : Option ℕ)
    → is_told closed c ≡ true
    → is_told (closed ++ false ∷ []) c ≡ true
unfolding is_told
is_told-append closed none h = h
is_told-append closed (some c) h = is_closed-append closed c h

told_parts :
    (closed : List Bool) (worker : Worker) (workers : List Worker)
    → all_told closed (worker ∷ workers) ≡ true
    → (is_told closed worker.channel ≡ true) × (all_told closed workers ≡ true)
unfolding all_told
told_parts closed worker workers h = ground arith

pub all_told-append :
    (closed : List Bool) (workers : List Worker)
    → all_told closed workers ≡ true
    → all_told (closed ++ false ∷ []) workers ≡ true
unfolding all_told
all_told-append closed [] h = refl
all_told-append closed (worker ∷ workers) h =
    let (first, rest) = told_parts closed worker workers h in
    ground (arith, is_told-append closed worker.channel first, all_told-append closed workers rest)

pub is_closed-new : (l : List Bool) → is_closed (l ++ false ∷ []) (length l) ≡ false
unfolding is_closed
is_closed-new [] = refl
is_closed-new (b ∷ l) = is_closed-new l

is_closed-set_self : (l : List Bool) (c : ℕ) → c < length l → is_closed (set l c true) c ≡ true
unfolding is_closed
is_closed-set_self [] c h = elim h [ ]
is_closed-set_self (b ∷ l) zero h = refl
is_closed-set_self (b ∷ l) (suc c) h = is_closed-set_self l c (omega arith)

is_closed-set : (l : List Bool) (c d : ℕ) → is_closed l d ≡ true → is_closed (set l c true) d ≡ true
unfolding is_closed
is_closed-set [] c d h = h
is_closed-set (b ∷ l) zero zero h = refl
is_closed-set (b ∷ l) zero (suc d) h = h
is_closed-set (b ∷ l) (suc c) zero h = h
is_closed-set (b ∷ l) (suc c) (suc d) h = is_closed-set l c d h

length-set : (l : List Bool) (c : ℕ) (b : Bool) → length (set l c b) ≡ length l
length-set [] c b = refl
length-set (x ∷ l) zero b = refl
length-set (x ∷ l) (suc c) b = ap suc (length-set l c b)

-- A worker listens to a channel that is closed, or is the one that the plugin will close.
abbrev pub Listens : List Bool → Option ℕ → Worker → Type 0
Listens closed stop worker =
    (c : ℕ) × (worker.channel ≡ some c) × ((is_closed closed c ≡ true) ⊎ (stop ≡ some c))

-- Where `closed` are the channels and `stop` is the plugin's one.
pub record IsTidyOver (closed : List Bool) (stop : Option ℕ) (workers : List Worker) : Type 0 where
  pub known : (c : ℕ) → stop ≡ some c → c < length closed
  pub listening : All (Listens closed stop) workers

module _ (closed : List Bool) (c : ℕ) where
  told_after_close :
      (workers : List Worker)
      → c < length closed
      → All (Listens closed (some c)) workers
      → all_told (set closed c true) workers ≡ true
  unfolding all_told is_told
  told_after_close [] _ _ = refl
  told_after_close (worker ∷ workers) h ((d, e, inl shut), ls) =
      rw e (ground (arith, is_closed-set closed c d shut, told_after_close workers h ls))
  told_after_close (worker ∷ workers) h ((d, e, inr own), ls) =
      rw e (ground (arith, is_closed-set_self closed c h, told_after_close workers h ls))

told_already :
    (closed : List Bool) (stop : Option ℕ) (workers : List Worker)
    → ((c : ℕ) → stop ≡ some c → is_closed closed c ≡ true)
    → All (Listens closed stop) workers
    → all_told closed workers ≡ true
unfolding all_told is_told
told_already closed stop [] h _ = refl
told_already closed stop (worker ∷ workers) h ((d, e, inl shut), ls) =
    rw e (ground (arith, told_already closed stop workers h ls))
told_already closed stop (worker ∷ workers) h ((d, e, inr own), ls) =
    rw e (ground (arith, h d own, told_already closed stop workers h ls))

Listens-shut :
    (closed closed' : List Bool) (stop stop' : Option ℕ) (workers : List Worker)
    → ((c : ℕ) → is_closed closed c ≡ true → is_closed closed' c ≡ true)
    → ((c : ℕ) → stop ≡ some c → (is_closed closed' c ≡ true) ⊎ (stop' ≡ some c))
    → All (Listens closed stop) workers
    → All (Listens closed' stop') workers
Listens-shut closed closed' stop stop' [] grow own _ = tt
Listens-shut closed closed' stop stop' (worker ∷ workers) grow own ((d, e, inl shut), ls) =
    ((d, e, inl (grow d shut)), Listens-shut closed closed' stop stop' workers grow own ls)
Listens-shut closed closed' stop stop' (worker ∷ workers) grow own ((d, e, inr mine), ls) =
    ((d, e, own d mine), Listens-shut closed closed' stop stop' workers grow own ls)

close_once-shut :
    (closed : List Bool) (c : ℕ) → is_closed closed c ≡ true → close_once closed (some c) ≡ closed
unfolding close_once
close_once-shut closed c e = rw e

close_once-open :
    (closed : List Bool) (c : ℕ)
    → is_closed closed c ≡ false
    → close_once closed (some c) ≡ set closed c true
unfolding close_once
close_once-open closed c e = rw e

-- The channels after the stop signal.
pub record StoppedAs (closed : List Bool) (stop : Option ℕ) (workers : List Worker) : Type 0 where
  pub told : all_told closed workers ≡ true
  pub shut : is_stop_channel_closed closed stop ≡ true
  pub tidy : IsTidyOver closed stop workers

abbrev pub Stopped : List Bool → Option ℕ → List Worker → Type 0
Stopped closed stop workers = StoppedAs (close_once closed stop) stop workers

some-eq : {c d : ℕ} → some c ≡ some d → c ≡ d
some-eq e = cc

Stopped-of :
    {closed' : List Bool} (closed : List Bool) {stop : Option ℕ} {workers : List Worker}
    → closed' ≡ close_once closed stop
    → StoppedAs closed' stop workers
    → Stopped closed stop workers
Stopped-of closed {stop = stop} {workers = workers} e s = subst (λ l. StoppedAs l stop workers) e s

pub close_once-Stopped :
    (closed : List Bool) (stop : Option ℕ) (workers : List Worker)
    → IsTidyOver closed stop workers
    → Stopped closed stop workers
unfolding close_once is_stop_channel_closed
close_once-Stopped closed none workers t = record {
  told = told_already closed none workers (λ c e. cc) t.listening;
  shut = refl;
  tidy = t;
}
close_once-Stopped closed (some c) workers t = elim (Bool-cases (is_closed closed c)) [
  | inl shut ↦ Stopped-of closed (sym (close_once-shut closed c shut)) (record {
    told =
        told_already closed (some c) workers
          (λ d e. subst (λ x. is_closed closed x ≡ true) (some-eq e) shut) t.listening;
    shut = shut;
    tidy = t;
  })
  | inr unshut ↦ Stopped-of closed (sym (close_once-open closed c unshut)) (record {
    told = told_after_close closed c workers (t.known c refl) t.listening;
    shut = is_closed-set_self closed c (t.known c refl);
    tidy = record {
      known = λ d e. rw (length-set closed c true) (t.known d e);
      listening =
          Listens-shut closed (set closed c true) (some c) (some c) workers (is_closed-set closed c)
            (λ d e. inr e) t.listening;
    };
  })
]

pub fresh_channel-tidy :
    (closed : List Bool) (stop : Option ℕ) (workers : List Worker)
    → is_stop_channel_closed closed stop ≡ true
    → IsTidyOver closed stop workers
    → IsTidyOver (closed ++ false ∷ []) (some (length closed)) workers
unfolding is_stop_channel_closed
fresh_channel-tidy closed stop workers e t = record {
  known = λ c h. omega (arith, some-eq h, length-append closed (false ∷ []));
  listening =
      Listens-shut closed _ stop _ workers (is_closed-append closed)
        (λ c own.
          inl
            (is_closed-append closed c (subst (λ s. is_stop_channel_closed closed s ≡ true) own e)))
        t.listening;
}

pub open_channel :
    (closed : List Bool) (stop : Option ℕ)
    → is_stop_channel_closed closed stop ≡ false
    → (c : ℕ) × (stop ≡ some c) × (is_closed closed c ≡ false)
unfolding is_stop_channel_closed
open_channel closed none e = cc
open_channel closed (some c) e = (c, refl, e)
