-- ===== src/Dashboard/Running.antt =====
-- The running flag against what the goroutines do.
use lynx_sentinel.Base.{
  ℕ, zero, suc, ◌+◌, ◌≤◌, ◌≡◌, refl, sym, ap, ◌∙◌, inl, inr, true, false, List, [], ◌∷◌, ◌++◌,
  Option, none, some, arith, get_elem?, set, length, length-append, Bool-cases,
}
use lynx_sentinel.Dashboard.{new_dashboard_server, set_running, is_running}
use lynx_sentinel.Dashboard.Serving.{
  serve_run, accepts, Phase, launched, probing, serving, stopping, finished, Board, launch_run,
  begin_run, fail_run, bind_run, stop_run, return_run, shut_down, any_serving, Step, launches,
  begins, fails, binds, stops, returns, Reach, here, next,
}

abbrev weight : Phase → ℕ
weight launched = 0
weight probing = 0
weight serving = 1
weight stopping = 1
weight finished = 0

-- Serving goroutines, counted.
count_serving : List Phase → ℕ
count_serving [] = 0
count_serving (phase ∷ phases) = weight phase + count_serving phases

any_serving-count : (l : List Phase) → any_serving l ≡ true → 1 ≤ count_serving l
unfolding any_serving count_serving
any_serving-count [] h = cc
any_serving-count (launched ∷ l) h = omega (arith, any_serving-count l h)
any_serving-count (probing ∷ l) h = omega (arith, any_serving-count l h)
any_serving-count (serving ∷ l) h = omega arith
any_serving-count (stopping ∷ l) h = omega arith
any_serving-count (finished ∷ l) h = omega (arith, any_serving-count l h)

none_serving : (l : List Phase) → any_serving l ≡ false → count_serving l ≡ 0
unfolding any_serving count_serving
none_serving [] h = refl
none_serving (launched ∷ l) h = omega (arith, none_serving l h)
none_serving (probing ∷ l) h = omega (arith, none_serving l h)
none_serving (serving ∷ l) h = cc
none_serving (stopping ∷ l) h = cc
none_serving (finished ∷ l) h = omega (arith, none_serving l h)

count-any_serving : (l : List Phase) → 1 ≤ count_serving l → any_serving l ≡ true
count-any_serving l h = elim (Bool-cases (any_serving l)) [
  | inl busy ↦ busy
  | inr idle ↦ absurd (omega (arith, none_serving l idle))
]

no-any_serving : (l : List Phase) → count_serving l ≡ 0 → any_serving l ≡ false
no-any_serving l h = elim (Bool-cases (any_serving l)) [
  | inl busy ↦ absurd (omega (arith, any_serving-count l busy))
  | inr idle ↦ idle
]

some-eq : {p q : Phase} → some p ≡ some q → p ≡ q
some-eq e = cc

-- One goroutine goes on to another phase.
count_serving-set :
    (l : List Phase) (i : ℕ) (old new : Phase)
    → get_elem? l i ≡ some old
    → count_serving (set l i new) + weight old ≡ count_serving l + weight new
unfolding count_serving
count_serving-set [] i old new h = cc
count_serving-set (phase ∷ l) zero old new h = omega (arith, ap weight (some-eq h))
count_serving-set (phase ∷ l) (suc i) old new h = omega (arith, count_serving-set l i old new h)

count_serving-launched : (l : List Phase) → count_serving (l ++ launched ∷ []) ≡ count_serving l
unfolding count_serving
count_serving-launched [] = omega arith
count_serving-launched (phase ∷ l) = omega (arith, count_serving-launched l)

pub length-set_run : (l : List Phase) (i : ℕ) (phase : Phase) → length (set l i phase) ≡ length l
length-set_run [] i phase = refl
length-set_run (p ∷ l) zero phase = refl
length-set_run (p ∷ l) (suc i) phase = omega (arith, length-set_run l i phase)

-- A single goroutine.
count_serving_alone :
    (l : List Phase) (i : ℕ) (phase : Phase)
    → get_elem? l i ≡ some phase
    → length l ≤ 1
    → count_serving l ≡ weight phase
unfolding count_serving
count_serving_alone [] i phase h short = cc
count_serving_alone (p ∷ []) zero phase h short = omega (arith, ap weight (some-eq h))
count_serving_alone (p ∷ []) (suc i) phase h short = cc
count_serving_alone (p ∷ q ∷ l) i phase h short = absurd (omega arith)

shut_down-running : (h : Option ℕ) (b : Board) → (shut_down h b).server.running ≡ b.server.running
unfolding shut_down
shut_down-running none b = refl
shut_down-running (some p) b = refl

-- The flag is set only if a goroutine has bound the port and not returned, and for a single
-- goroutine exactly then.
record IsHonest (b : Board) : Type 0 where
  sound : b.server.running ≡ true → 1 ≤ count_serving b.runs
  alone : length b.runs ≤ 1 → b.server.running ≡ false → count_serving b.runs ≡ 0

Step-IsHonest : {b b' : Board} → Step b b' → IsHonest b → IsHonest b'
unfolding launch_run begin_run fail_run bind_run stop_run return_run serve_run set_running
Step-IsHonest (launches b) h = record {
  sound = λ on. omega (arith, h.sound on, count_serving-launched b.runs);
  alone = λ short off. omega (
    arith,
    h.alone (omega (arith, length-append b.runs (launched ∷ []))) off,
    count_serving-launched b.runs,
  );
}
Step-IsHonest (begins i now b e) h =
    let same = count_serving-set b.runs i launched probing e in
    record {
      sound = λ on. omega (arith, h.sound on, same);
      alone = λ short off.
          omega (arith, h.alone (omega (arith, length-set_run b.runs i probing)) off, same);
    }
Step-IsHonest (fails i b e) h =
    let same = count_serving-set b.runs i probing finished e in
    record {
      sound = λ on. cc;
      alone = λ short off. omega (
        arith,
        same,
        count_serving_alone b.runs i probing e (omega (arith, length-set_run b.runs i finished)),
      );
    }
Step-IsHonest (binds i b e free) h =
    let same = count_serving-set b.runs i probing serving e in
    record { sound = λ on. omega (arith, same); alone = λ short off. cc }
Step-IsHonest (accepts b) h = record { sound = h.sound; alone = h.alone }
Step-IsHonest (stops i b e) h =
    let same = count_serving-set b.runs i serving stopping e in
    let flag = shut_down-running b.handler b in
    record {
      sound = λ on. omega (arith, same, h.sound (sym flag ∙ on));
      alone = λ short off.
          omega (
            arith,
            same,
            h.alone (omega (arith, length-set_run b.runs i stopping)) (sym flag ∙ off),
          );
    }
Step-IsHonest (returns i b e) h =
    let same = count_serving-set b.runs i stopping finished e in
    record {
      sound = λ on. cc;
      alone = λ short off. omega (
        arith,
        same,
        count_serving_alone b.runs i stopping e (omega (arith, length-set_run b.runs i finished)),
      );
    }

module _ (port : ℕ) (collector : Option ℕ) where
  Reach-IsHonest : {b : Board} → Reach (new_dashboard_server port collector) b → IsHonest b
  unfolding count_serving
  Reach-IsHonest here = record { sound = λ on. cc; alone = λ short off. refl }
  Reach-IsHonest (next r st) = Step-IsHonest st (Reach-IsHonest r)

  -- Whatever goroutines Start of a new dashboard server was launched in, and in whatever order they
  -- act, the server says that it is running only if one of them has bound the port and not
  -- returned.
  pub is_running-any_serving :
      (b : Board)
      → Reach (new_dashboard_server port collector) b
      → is_running b.server ≡ true
      → any_serving b.runs ≡ true
  unfolding is_running
  is_running-any_serving b r on = count-any_serving b.runs ((Reach-IsHonest r).sound on)

  -- If Start was launched at most once, the server says that it is running exactly while it has bound the
  -- port and not returned.
  pub is_running_alone :
      (b : Board)
      → Reach (new_dashboard_server port collector) b
      → length b.runs ≤ 1
      → is_running b.server ≡ any_serving b.runs
  unfolding is_running
  is_running_alone b r short = elim (Bool-cases b.server.running) [
    | inl on ↦ on ∙ sym (count-any_serving b.runs ((Reach-IsHonest r).sound on))
    | inr off ↦ off ∙ sym (no-any_serving b.runs ((Reach-IsHonest r).alone short off))
  ]
