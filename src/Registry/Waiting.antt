-- ===== src/Registry/Waiting.antt =====
-- WaitForReady of plug.go: a loop that polls the plugin. Other goroutines act between two polls, so
-- the world of each poll is an argument.
use lynx_sentinel.Base.{
  ℕ, zero, suc, ◌+◌, ◌<◌, ◌≤◌, String, ◌≡◌, refl, subst, ◌∙◌, ◌≢◌, ◌⊎◌, inl, inr, Bool, true, false,
  Option, none, some, arith, if◌then◌else◌, Bool-cases,
}
use lynx_sentinel.Plugin.{World}
use lynx_sentinel.Lifecycle.{is_healthy}
use lynx_sentinel.Lifecycle.Hooks.{with_new_plugin, new_sentinel_plugin}
use lynx_sentinel.Registry.{
  Registry, Failure, no_sentinel, plugin_stopped, context_ended, managed, created, missing,
  get_sentinel,
}

-- What ends the `select` of a round: the ticker, the context with its error, or the stop channel.
pub data Wake : Type 0 where
  ticks stops : Wake
  ends : String → Wake

module _ {S H : Type 0} (worlds : ℕ → World S H) (wakes : ℕ → Wake) where
  -- The rounds from number `n` on, at most `fuel` of them; `none` means that the call still waits.
  unfoldable pub wait_rounds : ℕ → ℕ → Option (Option Failure)
  wait_rounds zero n = none
  wait_rounds (suc fuel) n =
      let rest = wait_rounds fuel (n + 1) in
      if is_healthy (worlds n) then some none else elim (wakes n) [
        | ticks ↦ rest
        | ends text ↦ some (some (context_ended text))
        | stops ↦ some (some plugin_stopped)
      ]

-- `w` is the world of the call, `worlds` those of the polls of a plugin that the manager holds; nobody
-- else has the plugin that the factory has made.
unfoldable pub wait_for_ready :
    {S H : Type 0}
    → Registry H
    → World S H
    → (ℕ → World S H)
    → (ℕ → Wake)
    → ℕ
    → Option (Option Failure)
wait_for_ready registry w worlds wakes fuel = elim (get_sentinel registry w.host) [
  | missing e ↦ some (some (no_sentinel e))
  | managed ↦ wait_rounds worlds wakes fuel 0
  | created ↦ wait_rounds (λ n. with_new_plugin w) wakes fuel 0
]

Wake-cases : (wake : Wake) → (wake ≡ ticks) ⊎ (wake ≢ ticks)
Wake-cases ticks = inl refl
Wake-cases stops = inr (λ e. cc)
Wake-cases (ends text) = inr (λ e. cc)

-- The result of a round that ends the wait.
abbrev pub verdict : Bool → Wake → Option Failure
verdict true wake = none
verdict false ticks = none
verdict false (ends text) = some (context_ended text)
verdict false stops = some plugin_stopped

Nat-cases : (n j : ℕ) → n ≤ j → (n ≡ j) ⊎ (n + 1 ≤ j)
Nat-cases n j h = ground arith

module _ {S H : Type 0} (worlds : ℕ → World S H) (wakes : ℕ → Wake) where
  -- The rounds that do not end the wait.
  abbrev pub Idle : ℕ → Type 0
  Idle n = (is_healthy (worlds n) ≡ false) × (wakes n ≡ ticks)

  abbrev pub Decisive : ℕ → Type 0
  Decisive n = (is_healthy (worlds n) ≡ true) ⊎ (wakes n ≢ ticks)

  wait_rounds-Idle :
      (fuel n : ℕ)
      → Idle n
      → wait_rounds worlds wakes (suc fuel) n ≡ wait_rounds worlds wakes fuel (n + 1)
  unfolding wait_rounds
  wait_rounds-Idle fuel n (down, tick) = ground arith

  wait_rounds-Decisive :
      (fuel n : ℕ)
      → Decisive n
      → wait_rounds worlds wakes (suc fuel) n ≡ some (verdict (is_healthy (worlds n)) (wakes n))
  unfolding wait_rounds
  wait_rounds-Decisive fuel n (inl up) = ground arith
  wait_rounds-Decisive fuel n (inr wakes_up) = ground arith

  Round-cases : (n : ℕ) → Idle n ⊎ Decisive n
  Round-cases n = elim (Bool-cases (is_healthy (worlds n))) [
    | inl up ↦ inr (inl up)
    | inr down ↦ elim (Wake-cases (wakes n)) [
      | inl tick ↦ inl (down, tick)
      | inr other ↦ inr (inr other)
    ]
  ]

  Idle-at : (n i j : ℕ) → Idle n → ((j : ℕ) → n + 1 ≤ j → j < i → Idle j) → n ≤ j → j < i → Idle j
  Idle-at n i j idle before above below = elim (Nat-cases n j above) [
    | inl same ↦ subst Idle same idle
    | inr later ↦ before j later below
  ]

  -- The first round that ends the wait.
  first-Decisive :
      (k n m : ℕ)
      → n + k ≡ m
      → Decisive m
      → (i : ℕ) × (n ≤ i) × (i ≤ m) × ((j : ℕ) → n ≤ j → j < i → Idle j) × Decisive i
  first-Decisive zero n m e d =
      (m, omega arith, omega arith, λ j from below. absurd (omega arith), d)
  first-Decisive (suc k) n m e d = elim (Round-cases n) [
    | inr now ↦ (n, omega arith, omega arith, λ j from below. absurd (omega arith), now)
    | inl idle ↦
        let (i, from, to, before, last) = first-Decisive k (n + 1) m (omega arith) d in
        (i, omega arith, to, λ j above below. Idle-at n i j idle before above below, last)
  ]

  wait_rounds_from :
      (k fuel n i : ℕ)
      → n + k ≡ i
      → k < fuel
      → ((j : ℕ) → n ≤ j → j < i → Idle j)
      → Decisive i
      → wait_rounds worlds wakes fuel n ≡ some (verdict (is_healthy (worlds i)) (wakes i))
  wait_rounds_from k zero n i e less idle d = elim less [ ]
  wait_rounds_from zero (suc fuel) n i e less idle d =
      let e' : n ≡ i = omega arith in rw e' (wait_rounds-Decisive fuel i d)
  wait_rounds_from (suc k) (suc fuel) n i e less idle d =
      wait_rounds-Idle fuel n (idle n (omega arith) (omega arith))
      ∙ wait_rounds_from k fuel (n + 1) i (omega arith) (omega arith)
          (λ j above below. idle j (omega arith) below) d

  never_ready :
      (fuel n : ℕ)
      → ((j : ℕ) → is_healthy (worlds j) ≡ false)
      → wait_rounds worlds wakes fuel n ≢ some none
  unfolding wait_rounds
  never_ready zero n down = λ e. cc
  never_ready (suc fuel) n down = ground (arith, down n, never_ready fuel (n + 1) down)

module _ {S H : Type 0} (registry : Registry H) (w : World S H) where
  -- For a plugin of the manager, if some poll finds it healthy or is followed by the end of the
  -- context or by the stop of the plugin, WaitForReady, run for more rounds than the number of that
  -- poll, returns at the first such poll: nil if the plugin is healthy, and otherwise the error of
  -- what ended the wait.
  pub wait_for_ready_ends :
      (worlds : ℕ → World S H) (wakes : ℕ → Wake) (k fuel : ℕ)
      → get_sentinel registry w.host ≡ managed
      → Decisive worlds wakes k
      → k < fuel
      → (i : ℕ) × (i ≤ k)
        × ((j : ℕ) → j < i → Idle worlds wakes j)
        × Decisive worlds wakes i
        × (wait_for_ready registry w worlds wakes fuel
            ≡ some (verdict (is_healthy (worlds i)) (wakes i)))
  unfolding wait_for_ready
  wait_for_ready_ends worlds wakes k fuel found d less =
      let (i, from, to, idle, last) = first-Decisive worlds wakes k 0 k (omega arith) d in
      (
        i,
        to,
        λ j below. idle j (omega arith) below,
        last,
        rw (found, wait_for_ready)
            (wait_rounds_from worlds wakes i fuel 0 i (omega arith) (omega arith) idle last),
      )

  new_plugin_unhealthy : is_healthy (with_new_plugin w) ≡ false
  unfolding is_healthy with_new_plugin new_sentinel_plugin
  new_plugin_unhealthy = refl

  -- When the manager has no plugin and the factory makes one, WaitForReady never returns nil,
  -- whatever happens and however long it polls.
  pub wait_for_ready-created :
      (worlds : ℕ → World S H) (wakes : ℕ → Wake) (fuel : ℕ)
      → get_sentinel registry w.host ≡ created
      → wait_for_ready registry w worlds wakes fuel ≢ some none
  unfolding wait_for_ready
  wait_for_ready-created worlds wakes fuel made =
      rw (made, wait_for_ready)
        (never_ready (λ n. with_new_plugin w) wakes fuel 0 (λ j. new_plugin_unhealthy))
