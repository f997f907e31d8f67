-- ===== src/Lifecycle/Departures.antt =====
-- The goroutines of a plugin as they return, one by one: each calls `wg.Done()`, and the wait for
-- the group ends with the last. A goroutine that is told to stop returns. It may also return before:
-- a collector that is disabled does so at once, and a dashboard server that cannot bind its port.
use lynx_sentinel.Base.{
  without, ℕ, zero, suc, ◌≡◌, refl, Bool, true, List, [], ◌∷◌, some, arith, All, get_elem?,
}
use lynx_sentinel.Plugin.{World, Worker}
use lynx_sentinel.Lifecycle.{is_told, all_told}
use lynx_sentinel.Lifecycle.Workers.{IsTidy}

All-without : {A : Type 0} (P : A → Type 0) (l : List A) (i : ℕ) → All P l → All P (without l i)
All-without P [] i h = tt
All-without P (x ∷ l) zero (p, h) = h
All-without P (x ∷ l) (suc i) (p, h) = (p, All-without P l i h)

all_told-without :
    (closed : List Bool) (l : List Worker) (i : ℕ)
    → all_told closed l ≡ true
    → all_told closed (without l i) ≡ true
unfolding all_told
all_told-without closed [] i h = refl
all_told-without closed (x ∷ l) zero h = ground arith
all_told-without closed (x ∷ l) (suc i) h = ground (arith, all_told-without closed l i)

module _ {S H : Type 0} where
  -- The deferred `wg.Done()` of the goroutine in place `i`.
  unfoldable pub leave : ℕ → World S H → World S H
  leave i w = record w { plugin = record (w.plugin) { workers = without w.plugin.workers i } }

  pub data Departure : World S H → World S H → Type 0 where
    told :
        (i : ℕ) (w : World S H) {worker : Worker}
        → get_elem? w.plugin.workers i ≡ some worker
        → is_told w.closed worker.channel ≡ true
        → Departure w (leave i w)
    early :
        (i : ℕ) (w : World S H) {worker : Worker}
        → get_elem? w.plugin.workers i ≡ some worker
        → Departure w (leave i w)

  pub data Departures (from : World S H) : World S H → Type 0 where
    stay : Departures from from
    more : {w w' : World S H} → Departures from w → Departure w w' → Departures from w'

  leave-IsTidy : (i : ℕ) (w : World S H) → IsTidy w → IsTidy (leave i w)
  unfolding leave
  leave-IsTidy i w t = record {
    known = t.known;
    listening = All-without _ w.plugin.workers i t.listening;
  }

  pub Departure-IsTidy : {w w' : World S H} → Departure w w' → IsTidy w → IsTidy w'
  Departure-IsTidy (told i w e h) t = leave-IsTidy i w t
  Departure-IsTidy (early i w e) t = leave-IsTidy i w t

  pub Departures-IsTidy : {w w' : World S H} → Departures w w' → IsTidy w → IsTidy w'
  Departures-IsTidy stay t = t
  Departures-IsTidy (more ds d) t = Departure-IsTidy d (Departures-IsTidy ds t)

  abbrev pub AllTold : World S H → Type 0
  AllTold w = all_told w.closed w.plugin.workers ≡ true

  Departure-AllTold : {w w' : World S H} → Departure w w' → AllTold w → AllTold w'
  unfolding leave
  Departure-AllTold (told i w e _) h = all_told-without w.closed w.plugin.workers i h
  Departure-AllTold (early i w e) h = all_told-without w.closed w.plugin.workers i h

  pub Departures-AllTold : {w w' : World S H} → Departures w w' → AllTold w → AllTold w'
  Departures-AllTold stay h = h
  Departures-AllTold (more ds d) h = Departure-AllTold d (Departures-AllTold ds h)
