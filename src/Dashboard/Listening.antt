-- ===== src/Dashboard/Listening.antt =====
-- A single Start: when the port is bound.
use lynx_sentinel.Base.{
  ℕ, zero, suc, ◌≤◌, ◌≡◌, refl, sym, ap, ◌∙◌, subst, ◌⊎◌, inl, inr, true, List, [], ◌∷◌, ◌++◌,
  Option, none, some, arith, get_elem?, set, length, length-append, is_some,
}
use lynx_sentinel.Dashboard.{new_dashboard_server}
use lynx_sentinel.Dashboard.Running.{length-set_run}
use lynx_sentinel.Dashboard.Serving.{
  Phase, launched, probing, serving, finished, bound, served, Board, launch_run, begin_run,
  fail_run, bind_run, is_shut, accept, serve_run, release, shut_down, stop_run, Step, launches,
  begins, fails, binds, accepts, stops, Steps, here, next, Reach, any_listening, returns, stopping,
  return_run,
}

-- The states of a server for which Start was launched once at most.
abbrev Lone : Option Phase → Board → Type 0
Lone none b = (b.listener ≡ none) × (b.shut ≡ [])
Lone (some launched) b = (b.listener ≡ none) × (b.shut ≡ [])
Lone (some probing) b = (b.handler ≡ some 0) × (b.listener ≡ none) × (b.shut ≡ [])
Lone (some serving) b =
    (b.handler ≡ some 0)
    × (b.shut ≡ [])
    × ((b.listener ≡ some (bound 0)) ⊎ (b.listener ≡ some (served 0 0)))
Lone (some stopping) b =
    (b.listener ≡ none)
    ⊎ ((b.handler ≡ some 0) × (is_shut 0 b.shut ≡ true) × (b.listener ≡ some (bound 0)))
Lone (some finished) b =
    (b.listener ≡ none)
    ⊎ ((b.handler ≡ some 0) × (is_shut 0 b.shut ≡ true) × (b.listener ≡ some (bound 0)))

-- The only run.
single :
    (runs : List Phase) (i : ℕ) {phase : Phase}
    → get_elem? runs i ≡ some phase
    → length runs ≤ 1
    → (i ≡ 0) × (runs ≡ phase ∷ [])
single [] i e short = cc
single (x ∷ []) zero e short = (refl, cc)
single (x ∷ []) (suc i) e short = cc
single (x ∷ y ∷ runs) i e short = absurd (omega arith)

accept-none : (h : Option ℕ) (shut : List ℕ) → accept h shut none ≡ none
unfolding accept
accept-none none shut = refl
accept-none (some p) shut = refl

accept_shut : (shut : List ℕ) → is_shut 0 shut ≡ true → accept (some 0) shut (some (bound 0)) ≡ none
unfolding accept
accept_shut shut e = rw e refl

serve_run-Lone : (o : Option Phase) (b : Board) → Lone o b → Lone o (serve_run b)
unfolding serve_run accept is_shut
serve_run-Lone none b (e, s) = (ap (accept b.handler b.shut) e ∙ accept-none b.handler b.shut, s)
serve_run-Lone (some launched) b (e, s) =
    (ap (accept b.handler b.shut) e ∙ accept-none b.handler b.shut, s)
serve_run-Lone (some probing) b (h, e, s) =
    (h, ap (accept b.handler b.shut) e ∙ accept-none b.handler b.shut, s)
serve_run-Lone (some serving) b (h, s, inl e) = (h, s, inr (rw (h, s, e) refl))
serve_run-Lone (some serving) b (h, s, inr e) = (h, s, inr (rw (h, s, e) refl))
serve_run-Lone (some stopping) b (inl e) =
    inl (ap (accept b.handler b.shut) e ∙ accept-none b.handler b.shut)
serve_run-Lone (some stopping) b (inr (h, s, e)) = inl (rw (h, e) (accept_shut b.shut s))
serve_run-Lone (some finished) b (inl e) =
    inl (ap (accept b.handler b.shut) e ∙ accept-none b.handler b.shut)
serve_run-Lone (some finished) b (inr (h, s, e)) = inl (rw (h, e) (accept_shut b.shut s))

abbrev IsLone : Board → Type 0
IsLone b = length b.runs ≤ 1 → Lone (get_elem? b.runs 0) b

-- What was the case of the only run.
before :
    (b : Board) (i : ℕ) {phase : Phase} (new : Phase)
    → get_elem? b.runs i ≡ some phase
    → IsLone b
    → length (set b.runs i new) ≤ 1
    → (i ≡ 0) × (b.runs ≡ phase ∷ []) × Lone (some phase) b
before b i new e k short =
    let short' : length b.runs ≤ 1 = omega (arith, length-set_run b.runs i new) in
    let (i0, alone) = single b.runs i e short' in
    (i0, alone, subst (λ o. Lone o b) (ap (λ l. get_elem? l 0) alone) (k short'))

no_run : (runs : List Phase) → length (runs ++ launched ∷ []) ≤ 1 → runs ≡ []
no_run [] short = refl
no_run (x ∷ runs) short = absurd (omega (arith, length-append runs (launched ∷ [])))

stopped-Lone :
    (h : Option ℕ) (b : Board)
    → h ≡ some 0
    → b.handler ≡ some 0
    → (b.listener ≡ some (bound 0)) ⊎ (b.listener ≡ some (served 0 0))
    → Lone (some stopping) (shut_down h b)
unfolding shut_down release is_shut
stopped-Lone none b e h held = cc
stopped-Lone (some q) b e h (inl held) = inr (h, ground arith, rw held refl)
stopped-Lone (some q) b e h (inr held) = inl (ground arith)

Step-IsLone : {b b' : Board} → Step b b' → IsLone b → IsLone b'
unfolding launch_run begin_run fail_run bind_run serve_run stop_run return_run
Step-IsLone (launches b) k short =
    let none_yet = no_run b.runs short in
    let k' : Lone none b =
      subst (λ l. Lone (get_elem? l 0) b) none_yet (k (omega (arith, ap length none_yet))) in
    rw none_yet k'
Step-IsLone (begins i now b e) k short =
    let (i0, alone, (free, clear)) = before b i probing e k short in
    rw (i0, alone) (refl, free, clear)
Step-IsLone (fails i b e) k short =
    let (i0, alone, (h, free, clear)) = before b i finished e k short in rw (i0, alone) (inl free)
Step-IsLone (binds i b e free) k short =
    let (i0, alone, (h, _, clear)) = before b i serving e k short in
    rw (i0, alone) (h, clear, inl refl)
Step-IsLone (accepts b) k short = serve_run-Lone (get_elem? b.runs 0) b (k short)
Step-IsLone (stops i b e) k short =
    let (i0, alone, (h, clear, held)) = before b i stopping e k short in
    let last : get_elem? (set b.runs i stopping) 0 ≡ some stopping = rw (i0, alone) refl in
    subst (λ o. Lone o (stop_run i b)) (sym last) (stopped-Lone b.handler b h h held)
Step-IsLone (returns i b e) k short =
    let (i0, alone, shut) = before b i finished e k short in rw (i0, alone) shut

Steps-IsLone : {b b' : Board} → Steps b b' → IsLone b → IsLone b'
Steps-IsLone here k = k
Steps-IsLone (next r st) k = Step-IsLone st (Steps-IsLone r k)

-- The port, once the goroutine that serves has run.
Lone-listener :
    (runs : List Phase) (b : Board)
    → length runs ≤ 1
    → Lone (get_elem? runs 0) (serve_run b)
    → Lone (get_elem? runs 0) b
    → is_some (serve_run b).listener ≡ any_listening runs
unfolding serve_run accept any_listening
Lone-listener [] b short (e, s) k = ap is_some e
Lone-listener (launched ∷ []) b short (e, s) k = ap is_some e
Lone-listener (probing ∷ []) b short (h, e, s) k = ap is_some e
Lone-listener (serving ∷ []) b short (h, s, inl e) k = ap is_some e
Lone-listener (serving ∷ []) b short (h, s, inr e) k = ap is_some e
Lone-listener (stopping ∷ []) b short k' (inl e) =
    ap is_some (ap (accept b.handler b.shut) e ∙ accept-none b.handler b.shut)
Lone-listener (stopping ∷ []) b short k' (inr (h, s, e)) =
    rw (h, e) (ap is_some (accept_shut b.shut s))
Lone-listener (finished ∷ []) b short k' (inl e) =
    ap is_some (ap (accept b.handler b.shut) e ∙ accept-none b.handler b.shut)
Lone-listener (finished ∷ []) b short k' (inr (h, s, e)) =
    rw (h, e) (ap is_some (accept_shut b.shut s))
Lone-listener (x ∷ y ∷ runs) b short k' k = absurd (omega arith)

Reach-IsLone :
    (port : ℕ) (collector : Option ℕ) (b : Board)
    → Reach (new_dashboard_server port collector) b
    → IsLone b
Reach-IsLone port collector b r = Steps-IsLone r (λ short. (refl, refl))

-- A single Start that serves, once its server accepts connections.
pub record Serves (b : Board) : Type 0 where
  pub handler : b.handler ≡ some 0
  pub listener : (serve_run b).listener ≡ some (served 0 0)

Lone-Serves : (b : Board) → Lone (some serving) b → Serves b
unfolding serve_run accept is_shut
Lone-Serves b (h, s, inl e) = record { handler = h; listener = rw (h, s, e) refl }
Lone-Serves b (h, s, inr e) = record { handler = h; listener = rw (h, s, e) refl }

pub Reach-Serves :
    (port : ℕ) (collector : Option ℕ) (b : Board)
    → Reach (new_dashboard_server port collector) b
    → b.runs ≡ serving ∷ []
    → Serves b
Reach-Serves port collector b r alone = Lone-Serves b (
    subst (λ runs. Lone (get_elem? runs 0) b) alone
      (Reach-IsLone port collector b r (omega (arith, ap length alone))))

-- As long as Start of a new dashboard server was launched at most once, once the goroutine that
-- serves has had its turn the port is held exactly while the goroutine of Start has bound the port
-- and not begun the shutdown.
pub serve_run_alone :
    (port : ℕ) (collector : Option ℕ) (b : Board)
    → Reach (new_dashboard_server port collector) b
    → length b.runs ≤ 1
    → is_some (serve_run b).listener ≡ any_listening b.runs
serve_run_alone port collector b r short =
    let k = Reach-IsLone port collector b r short in
    Lone-listener b.runs b short (serve_run-Lone (get_elem? b.runs 0) b k) k
