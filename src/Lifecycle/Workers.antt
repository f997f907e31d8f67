-- ===== src/Lifecycle/Workers.antt =====
-- The workers and the stop channel.
use lynx_sentinel.Base.{
  List, ℕ, ◌≡◌, refl, sym, ◌∙◌, subst, inl, inr, true, false, [], ◌∷◌, ◌++◌, Option, none, some,
  arith, length, Bool-cases,
}
use lynx_sentinel.Plugin.{World, Task, Worker}
use lynx_sentinel.Lifecycle.{
  is_closed, is_stop_channel_closed, all_told, reset_stop_channel, signal_stop, launch,
  launch_workers,
}
use lynx_sentinel.Lifecycle.Channels.{
  all_told-append, IsTidyOver, close_once-Stopped, is_closed-new, fresh_channel-tidy, open_channel,
}

abbrev pub IsTidy : {S H : Type 0} → World S H → Type 0
IsTidy w = IsTidyOver w.closed w.plugin.stop_ch w.plugin.workers

module _ {S H : Type 0} where
  -- Once the stop signal is given every worker of a tidy plugin has been told to stop, the stop
  -- channel is closed, and the plugin is still tidy.
  pub signal_stop-told :
      (w : World S H)
      → IsTidy w
      → let w' = signal_stop w in
        (all_told w'.closed w'.plugin.workers ≡ true)
        × (is_stop_channel_closed w'.closed w'.plugin.stop_ch ≡ true)
        × IsTidy w'
  unfolding signal_stop
  signal_stop-told w t =
      let s = close_once-Stopped w.closed w.plugin.stop_ch w.plugin.workers t in
      (s.told, s.shut, s.tidy)

  -- A start-up has an open stop channel, and tells the old workers apart from the new ones.
  pub record IsOpen (w w' : World S H) : Type 0 where
    pub channel : ℕ
    pub current : w'.plugin.stop_ch ≡ some channel
    pub unshut : is_closed w'.closed channel ≡ false
    pub tidy : IsTidy w'
    pub workers : w'.plugin.workers ≡ w.plugin.workers
    pub initialized : w'.plugin.is_initialized ≡ w.plugin.is_initialized
    pub conf : w'.plugin.conf ≡ w.plugin.conf
    pub collector : w'.plugin.metrics_collector ≡ w.plugin.metrics_collector
    pub server : w'.plugin.dashboard_server ≡ w.plugin.dashboard_server
    pub core : w'.core ≡ w.core

  -- `make(chan struct{})`.
  abbrev fresh_channel : World S H → World S H
  fresh_channel w = record w {
    plugin = record (w.plugin) { stop_ch = some (length w.closed) };
    closed = w.closed ++ false ∷ [];
  }

  reset_closed :
      (w : World S H)
      → is_stop_channel_closed w.closed w.plugin.stop_ch ≡ true
      → reset_stop_channel w ≡ fresh_channel w
  unfolding reset_stop_channel
  reset_closed w e = ground arith

  reset_open :
      (w : World S H)
      → is_stop_channel_closed w.closed w.plugin.stop_ch ≡ false
      → reset_stop_channel w ≡ w
  unfolding reset_stop_channel
  reset_open w e = ground arith

  pub reset_stop_channel-told :
      (w : World S H) (workers : List Worker)
      → all_told w.closed workers ≡ true
      → all_told (reset_stop_channel w).closed workers ≡ true
  reset_stop_channel-told w workers h =
      elim (Bool-cases (is_stop_channel_closed w.closed w.plugin.stop_ch)) [
        | inl shut ↦
            subst (λ w'. all_told w'.closed workers ≡ true) (sym (reset_closed w shut))
              (all_told-append w.closed workers h)
        | inr unshut ↦ subst (λ w'. all_told w'.closed workers ≡ true) (sym (reset_open w unshut)) h
      ]

  -- resetStopChannel leaves a tidy plugin tidy, with an open stop channel, and changes nothing else
  -- of the plugin's state and no worker.
  pub reset_stop_channel-IsOpen : (w : World S H) → IsTidy w → IsOpen w (reset_stop_channel w)
  reset_stop_channel-IsOpen w t =
      elim (Bool-cases (is_stop_channel_closed w.closed w.plugin.stop_ch)) [
        | inl shut ↦ subst (IsOpen w) (sym (reset_closed w shut)) (record {
          channel = length w.closed;
          current = refl;
          unshut = is_closed-new w.closed;
          tidy = fresh_channel-tidy w.closed w.plugin.stop_ch w.plugin.workers shut t;
          workers = refl;
          initialized = refl;
          conf = refl;
          collector = refl;
          server = refl;
          core = refl;
        })
        | inr unshut ↦
            let (c, current, e) = open_channel w.closed w.plugin.stop_ch unshut in
            subst (IsOpen w) (sym (reset_open w unshut)) (record {
              channel = c;
              current = current;
              unshut = e;
              tidy = t;
              workers = refl;
              initialized = refl;
              conf = refl;
              collector = refl;
              server = refl;
              core = refl;
            })
      ]

  launch-IsTidy :
      (task : ℕ → Task) (p : Option ℕ) (w : World S H) {c : ℕ}
      → w.plugin.stop_ch ≡ some c
      → IsTidy w
      → IsTidy (launch task p w)
  unfolding launch
  launch-IsTidy task none w e t = t
  launch-IsTidy task (some p) w {c} e t = record {
    known = t.known;
    listening = ((c, e, inr e), t.listening);
  }

  launch-stop_ch :
      (task : ℕ → Task) (p : Option ℕ) (w : World S H)
      → (launch task p w).plugin.stop_ch ≡ w.plugin.stop_ch
  unfolding launch
  launch-stop_ch task none w = refl
  launch-stop_ch task (some p) w = refl

  pub launch_workers-IsTidy :
      (w : World S H) {c : ℕ} → w.plugin.stop_ch ≡ some c → IsTidy w → IsTidy (launch_workers w)
  unfolding launch_workers
  launch_workers-IsTidy w e t =
      let w' = launch Task.collects w.plugin.metrics_collector w in
      launch-IsTidy Task.serves w'.plugin.dashboard_server w'
        (launch-stop_ch Task.collects w.plugin.metrics_collector w ∙ e)
        (launch-IsTidy Task.collects w.plugin.metrics_collector w e t)
