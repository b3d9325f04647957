-- ===== src/Agent/Monitor/Reports.antt =====
-- All reports of `runMonitor` of internal/agent/agent.go, from the probes that it makes.
use mathlib.Core.List.{append_assoc}
use wireguard_natter_helper.Prelude.{
  ltb, ℤ, pos, negsuc, ℕ, zero, suc, ◌≡◌, refl, sym, ap, ◌∙◌, true, List, [], ◌∷◌, ◌++◌, arith,
}
use wireguard_natter_helper.Rpc.{MonitorPeer}
use wireguard_natter_helper.Host.{Host, Machine}
use wireguard_natter_helper.Agent.State.{MonitorConfig}
use wireguard_natter_helper.Agent.Monitor.{
  probe_peer, Watch, new_watch, observe, check_peers, threshold_of, stale_after_of, monitor_ticks,
  run_monitor,
}
use wireguard_natter_helper.Agent.Monitor.Streak.{
  Observation, due, all_due, Agrees, Agrees-start, observe-Agrees, observe-due,
}

-- The probes of one tick, and the host after them
unfoldable pub probes : Machine → ℤ → List MonitorPeer → Host → Host × List Observation
probes env stale_after [] h = (h, [])
probes env stale_after (peer ∷ peers) h =
    let (h1, status) = probe_peer env stale_after peer h in
    let (h2, later) = probes env stale_after peers h1 in (h2, (peer, status) ∷ later)

-- The probes of all ticks
unfoldable pub all_probes : ℤ → List (Machine × List MonitorPeer) → Host → List Observation
unfolding probes
all_probes stale_after [] h = []
all_probes stale_after ((env, peers) ∷ ticks) h =
    let (h1, made) = probes env stale_after peers h in made ++ all_probes stale_after ticks h1

-- The history after some probes
unfoldable remembered : List Observation → List Observation → List Observation
remembered [] past = past
remembered (o ∷ os) past = remembered os (o ∷ past)

module _ (threshold : ℕ) (stale_after : ℤ) (positive : ltb 0 threshold ≡ true) where
  all_due-append :
      (os ps past : List Observation)
      → all_due threshold stale_after (os ++ ps) past
        ≡ all_due threshold stale_after os past
          ++ all_due threshold stale_after ps (remembered os past)
  unfolding all_due remembered
  all_due-append [] ps past = refl
  all_due-append (o ∷ os) ps past =
      ap (λ r. due threshold stale_after o past ++ r) (all_due-append os ps (o ∷ past))
      ∙ sym (append_assoc (due threshold stale_after o past) _ _)

  -- One tick makes its probes, reports what is due and remembers them.
  record Ticked (env : Machine) (peers : List MonitorPeer) (h : Host) (w : Watch)
      (past : List Observation) : Type 0 where
    host : (check_peers env threshold stale_after peers h w).0 ≡ (probes env stale_after peers h).0
    reports :
        (check_peers env threshold stale_after peers h w).1.1
        ≡ all_due threshold stale_after (probes env stale_after peers h).1 past
    agrees :
        Agrees threshold stale_after positive
          (check_peers env threshold stale_after peers h w).1.0
          (remembered (probes env stale_after peers h).1 past)

  check_peers-Ticked :
      (env : Machine) (peers : List MonitorPeer) (h : Host) (w : Watch) (past : List Observation)
      → Agrees threshold stale_after positive w past
      → Ticked env peers h w past
  unfolding check_peers probes all_due remembered
  check_peers-Ticked env [] h w past a = record { host = refl; reports = refl; agrees = a }
  check_peers-Ticked env (peer ∷ peers) h w past a =
      let probe = probe_peer env stale_after peer h in
      let o : Observation = (peer, probe.1) in
      let w1 = (observe threshold stale_after peer probe.1 w).0 in
      let rest =
        check_peers-Ticked env peers probe.0 w1 (o ∷ past)
          (observe-Agrees threshold stale_after positive o w past a) in
      record {
        host = rest.host;
        reports = rw (observe-due threshold stale_after positive o w past a, rest.reports) refl;
        agrees = rest.agrees;
      }

  monitor_ticks-due :
      (ticks : List (Machine × List MonitorPeer)) (h : Host) (w : Watch) (past : List Observation)
      → Agrees threshold stale_after positive w past
      → (monitor_ticks threshold stale_after ticks h w).1.1
        ≡ all_due threshold stale_after (all_probes stale_after ticks h) past
  unfolding monitor_ticks all_probes all_due
  monitor_ticks-due [] h w past a = refl
  monitor_ticks-due ((env, peers) ∷ ticks) h w past a =
      let tick = check_peers-Ticked env peers h w past a in
      let made = (probes env stale_after peers h).1 in
      let h1 = (probes env stale_after peers h).0 in
      let (h', (w1, reports)) = check_peers env threshold stale_after peers h w in
      ap (λ r. r ++ (monitor_ticks threshold stale_after ticks h' w1).1.1) tick.reports
      ∙ ap (λ r. all_due threshold stale_after made past ++ r)
          (ap (λ k. (monitor_ticks threshold stale_after ticks k w1).1.1) tick.host
            ∙ monitor_ticks-due ticks h1 w1 (remembered made past) tick.agrees)
      ∙ sym (all_due-append made (all_probes stale_after ticks h1) past)

-- In any number of ticks the monitor sends exactly the reports that are due by the history of
-- its probes: a peer is lost at the probe that makes its stale probes in a row as many as the
-- threshold, and back at the first probe after that which is not stale.
pub run_monitor-due :
    (config : MonitorConfig) (ticks : List (Machine × List MonitorPeer)) (h : Host)
    → run_monitor config ticks h
      ≡ all_due
          (threshold_of config.fail_threshold)
          (stale_after_of config.stale_seconds)
          (all_probes (stale_after_of config.stale_seconds) ticks h)
          []
unfolding run_monitor
run_monitor-due config ticks h =
    let positive = threshold-positive config.fail_threshold in
    monitor_ticks-due _ _ positive ticks h new_watch [] (
      Agrees-start (threshold_of config.fail_threshold) (stale_after_of config.stale_seconds)
        positive)
  where
    threshold-positive : (given : ℤ) → ltb 0 (threshold_of given) ≡ true
    threshold-positive (pos zero) = refl
    threshold-positive (pos (suc n)) = ground arith
    threshold-positive (negsuc n) = refl
