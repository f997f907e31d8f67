-- ===== src/Dashboard/Leaking.antt =====
-- Several Starts of one server: a later one replaces the `http.Server` that an earlier one serves by.
use lynx_sentinel.Base.{
  false, ℕ, zero, suc, ◌≡◌, refl, sym, ap, ◌∙◌, subst, ◌≢◌, List, [], ◌∷◌, ◌++◌, Option, none, some,
  arith, get_elem?, set,
}
use lynx_sentinel.Dashboard.{new_dashboard_server, is_running, set_running}
use lynx_sentinel.Dashboard.Listening.{Reach-Serves}
use lynx_sentinel.Dashboard.Serving.{
  stopping, returns, return_run, Reach, Phase, launched, probing, serving, finished, served, Board,
  launch_run, begin_run, fail_run, bind_run, accept, serve_run, release, shut_down, stop_run, Step,
  launches, begins, fails, binds, accepts, stops, Steps, here, next,
}

-- A run that has made its server.
abbrev Begun : ℕ → List Phase → Type 0
Begun p runs = (phase : Phase) × (get_elem? runs p ≡ some phase) × (phase ≢ launched)

Begun-append : (p : ℕ) (runs : List Phase) → Begun p runs → Begun p (runs ++ launched ∷ [])
Begun-append p [] (phase, e, h) = cc
Begun-append zero (x ∷ runs) b = b
Begun-append (suc p) (x ∷ runs) b = Begun-append p runs b

Begun-set :
    (p i : ℕ) (new : Phase) (runs : List Phase)
    → new ≢ launched
    → Begun p runs
    → Begun p (set runs i new)
Begun-set p i new [] h (phase, e, g) = cc
Begun-set zero zero new (x ∷ runs) h b = (new, refl, h)
Begun-set zero (suc i) new (x ∷ runs) h b = b
Begun-set (suc p) zero new (x ∷ runs) h b = b
Begun-set (suc p) (suc i) new (x ∷ runs) h b = Begun-set p i new runs h b

accept-served :
    (h : Option ℕ) (shut : List ℕ) (i p : ℕ) → accept h shut (some (served i p)) ≡ some (served i p)
unfolding accept
accept-served none shut i p = refl
accept-served (some q) shut i p = refl

-- Server `p` serves the port, and nobody will shut it down.
record Leaked (i p : ℕ) (b : Board) : Type 0 where
  held : b.listener ≡ some (served i p)
  apart : b.handler ≢ some p
  begun : Begun p b.runs

shut_down-listener :
    (i p : ℕ) (h : Option ℕ) (b : Board)
    → h ≢ some p
    → b.listener ≡ some (served i p)
    → (shut_down h b).listener ≡ some (served i p)
unfolding shut_down release
shut_down-listener i p none b apart e = e
shut_down-listener i p (some q) b apart e = ground arith

shut_down-handler : (h : Option ℕ) (b : Board) → (shut_down h b).handler ≡ b.handler
unfolding shut_down
shut_down-handler none b = refl
shut_down-handler (some q) b = refl

-- A run that is about to begin is another one.
other_run :
    {i p : ℕ} (runs : List Phase)
    → get_elem? runs i ≡ some launched
    → Begun p runs
    → some i ≢ some p
other_run runs e (phase, e', h) same = h (cc)

module _ (i p : ℕ) where
  Step-Leaked : {b b' : Board} → Step b b' → Leaked i p b → Leaked i p b'
  unfolding launch_run begin_run fail_run bind_run serve_run stop_run return_run
  Step-Leaked (launches b) k = record {
    held = k.held;
    apart = k.apart;
    begun = Begun-append p b.runs k.begun;
  }
  Step-Leaked (begins j now b e) k = record {
    held = k.held;
    apart = other_run b.runs e k.begun;
    begun = Begun-set p j probing b.runs (λ h. cc) k.begun;
  }
  Step-Leaked (fails j b e) k = record {
    held = k.held;
    apart = k.apart;
    begun = Begun-set p j finished b.runs (λ h. cc) k.begun;
  }
  Step-Leaked (binds j b e free) k = cc (k.held)
  Step-Leaked (accepts b) k = record {
    held = ap (accept b.handler b.shut) k.held ∙ accept-served b.handler b.shut i p;
    apart = k.apart;
    begun = k.begun;
  }
  Step-Leaked (stops j b e) k = record {
    held = shut_down-listener i p b.handler b k.apart k.held;
    apart = subst (λ h. h ≢ some p) (sym (shut_down-handler b.handler b)) k.apart;
    begun = Begun-set p j stopping b.runs (λ h. cc) k.begun;
  }
  Step-Leaked (returns j b e) k = record {
    held = k.held;
    apart = k.apart;
    begun = Begun-set p j finished b.runs (λ h. cc) k.begun;
  }

  Steps-Leaked : {b b' : Board} → Steps b b' → Leaked i p b → Leaked i p b'
  Steps-Leaked here k = k
  Steps-Leaked (next r st) k = Step-Leaked st (Steps-Leaked r k)

-- When a single Start of a new dashboard server serves its connections and a second Start begins,
-- the listener of the first holds the port from then on for ever, whatever happens, also after both
-- have returned.
pub second_start_leaks :
    (port now : ℕ) (collector : Option ℕ) (b b' : Board)
    → Reach (new_dashboard_server port collector) b
    → b.runs ≡ serving ∷ []
    → Steps (begin_run 1 now (launch_run (serve_run b))) b'
    → b'.listener ≡ some (served 0 0)
unfolding begin_run launch_run serve_run
second_start_leaks port now collector b b' r alone steps =
    let s = Reach-Serves port collector b r alone in
    (Steps-Leaked 0 0 steps (record {
      held = s.listener;
      apart = λ e. cc;
      begun = rw alone (serving, refl, λ h. cc);
    })).held

shut_down-server : (h : Option ℕ) (b : Board) → (shut_down h b).server ≡ b.server
unfolding shut_down
shut_down-server none b = refl
shut_down-server (some q) b = refl

-- While the port is held nobody can bind it, and so nobody sets the flag again.
Step-off :
    (i p : ℕ) {b b' : Board}
    → Step b b'
    → Leaked i p b
    → b.server.running ≡ false
    → b'.server.running ≡ false
unfolding launch_run begin_run fail_run bind_run serve_run stop_run return_run set_running
Step-off i p (launches b) k off = off
Step-off i p (begins j now b e) k off = off
Step-off i p (fails j b e) k off = refl
Step-off i p (binds j b e free) k off = cc (k.held)
Step-off i p (accepts b) k off = off
Step-off i p (stops j b e) k off =
    ap (λ server. server.running) (shut_down-server b.handler b) ∙ off
Step-off i p (returns j b e) k off = refl

Steps-off :
    (i p : ℕ) {b b' : Board}
    → Steps b b'
    → Leaked i p b
    → b.server.running ≡ false
    → b'.server.running ≡ false
Steps-off i p here k off = off
Steps-off i p (next r st) k off = Step-off i p st (Steps-Leaked i p r k) (Steps-off i p r k off)

-- When a single Start of a new dashboard server serves its connections and a second Start begins
-- and fails to bind the port, the server says from then on for ever, whatever happens, that it is
-- not running, while the listener of the first holds the port.
pub second_start_hides :
    (port now : ℕ) (collector : Option ℕ) (b b' : Board)
    → Reach (new_dashboard_server port collector) b
    → b.runs ≡ serving ∷ []
    → Steps (fail_run 1 (begin_run 1 now (launch_run (serve_run b)))) b'
    → (is_running b'.server ≡ false) × (b'.listener ≡ some (served 0 0))
unfolding begin_run launch_run serve_run fail_run set_running is_running
second_start_hides port now collector b b' r alone steps =
    let s = Reach-Serves port collector b r alone in
    let leaked : Leaked 0 0 (fail_run 1 (begin_run 1 now (launch_run (serve_run b)))) = record {
      held = s.listener;
      apart = λ e. cc;
      begun = rw alone (serving, refl, λ h. cc);
    } in
    (Steps-off 0 0 steps leaked refl, (Steps-Leaked 0 0 steps leaked).held)
