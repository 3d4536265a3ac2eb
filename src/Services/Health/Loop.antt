-- ===== src/Services/Health/Loop.antt =====
-- When the monitoring loop of health_monitor.go sees a stop.
use mathlib.Core.Path.{subst}
use ephemos.Services.Health.{after_tick, after_check, after_stop}
use ephemos.Base.{
  ℕ, ◌+◌, ◌≡◌, refl, sym, ap, ◌∙◌, ◌≢◌, ◌⊎◌, inl, inr, Bool, true, false, arith, if◌then◌else◌,
  Result, ok, err,
}
use ephemos.Services.Health.{
  Monitor, MonitorError, not_running, checking, ended, selecting, stop_monitoring, tick, end_check,
  observe_stop,
}

-- What the loop and further stops do, while the loop's context lasts.
pub data Later (start : Monitor) : Monitor → Type 0 where
  now : Later start start
  ticks : {h : Monitor} → Later start h → Later start (tick h)
  ends : {h : Monitor} → Later start h → Later start (end_check h)
  observes : {h : Monitor} → Later start h → Later start (observe_stop h)
  stops : {h : Monitor} → Later start h → Later start (stop_monitoring h).0

-- The loop runs a check or waits on the open channel, and the monitor holds that it is not running.
abbrev Unseen : Monitor → Type 0
Unseen h = (h.monitoring ≡ false) × ((h.loop ≡ checking) ⊎ (h.loop ≡ selecting h.stop_channel))

tick-Unseen : (h : Monitor) → Unseen h → Unseen (tick h)
unfolding tick
tick-Unseen h (m, inl e) = (m, inl (ap after_tick e))
tick-Unseen h (m, inr e) = (m, inl (ap after_tick e))

end_check-Unseen : (h : Monitor) → Unseen h → Unseen (end_check h)
unfolding end_check
end_check-Unseen h (m, inl e) = (m, inr (ap (after_check h.stop_channel) e))
end_check-Unseen h (m, inr e) = (m, inr (ap (after_check h.stop_channel) e))

open_channel : (n : ℕ) → after_stop n (selecting n) ≡ selecting n
open_channel n = ground arith

observe_stop-Unseen : (h : Monitor) → Unseen h → Unseen (observe_stop h)
unfolding observe_stop
observe_stop-Unseen h (m, inl e) = (m, inl (ap (after_stop h.stop_channel) e))
observe_stop-Unseen h (m, inr e) =
    (m, inr (ap (after_stop h.stop_channel) e ∙ open_channel h.stop_channel))

stopped_already : (h : Monitor) → h.monitoring ≡ false → stop_monitoring h ≡ (h, err not_running)
unfolding stop_monitoring
stopped_already h m = rw (m, stop_monitoring) refl

stop_monitoring-Unseen : (h : Monitor) → Unseen h → Unseen (stop_monitoring h).0
stop_monitoring-Unseen h u =
    subst (λ (x : Monitor × Result MonitorError (Unit {0})). Unseen x.0)
      (sym (stopped_already h u.0)) u

Later-Unseen : (s h : Monitor) → Unseen s → Later s h → Unseen h
Later-Unseen s h u now = u
Later-Unseen s h u (ticks {h = g} l) = tick-Unseen g (Later-Unseen s g u l)
Later-Unseen s h u (ends {h = g} l) = end_check-Unseen g (Later-Unseen s g u l)
Later-Unseen s h u (observes {h = g} l) = observe_stop-Unseen g (Later-Unseen s g u l)
Later-Unseen s h u (stops {h = g} l) = stop_monitoring-Unseen g (Later-Unseen s g u l)

first_stop :
    (h : Monitor)
    → h.monitoring ≡ true
    → (stop_monitoring h).0 ≡ record h { monitoring = false; stop_channel = h.stop_channel + 1 }
unfolding stop_monitoring
first_stop h m =
    let pick : Bool → Monitor × Result MonitorError (Unit {0}) = λ t.
      if t
      then (record h { monitoring = false; stop_channel = h.stop_channel + 1 }, ok tt)
      else (h, err not_running) in
    ap (λ (t : Bool). (pick t).0) m

stopped-Unseen :
    (h : Monitor) → h.monitoring ≡ true → h.loop ≡ checking → Unseen (stop_monitoring h).0
stopped-Unseen h m e = subst Unseen (sym (first_stop h m)) (refl, inl e)

Unseen-loop : (h : Monitor) → Unseen h → h.loop ≢ ended
Unseen-loop h (m, inl e) k = cc (sym e ∙ k)
Unseen-loop h (m, inr e) k = cc (sym e ∙ k)

-- A StopMonitoring that succeeds while the loop runs a check is not seen: whatever the loop and
-- further stops do from there, and as long as its context lasts, the loop has not ended, and every
-- further StopMonitoring changes nothing and returns the error that monitoring is not running.
pub stop_monitoring-Later :
    (h g : Monitor)
    → h.monitoring ≡ true
    → h.loop ≡ checking
    → Later (stop_monitoring h).0 g
    → (g.loop ≢ ended) × (stop_monitoring g ≡ (g, err not_running))
stop_monitoring-Later h g m e l =
    let u = Later-Unseen (stop_monitoring h).0 g (stopped-Unseen h m e) l in
    (Unseen-loop g u, stopped_already g u.0)
