-- ===== src/Agent/Monitor/Streak.antt =====
-- When the monitor of internal/agent/agent.go reports, from the history of the probes alone.
use wireguard_natter_helper.Map.Lookup.{get?-set}
use wireguard_natter_helper.Prelude.{
  eq_iff, ltb, leb, nat_eq, if◌then◌else◌, ℤ, Result, ok, err, ℕ, suc, String, ◌≡◌, refl, true,
  false, not, List, [], ◌∷◌, ◌++◌, arith, ◌==◌,
}
use wireguard_natter_helper.Map.{get?, get_or}
use wireguard_natter_helper.Rpc.{MonitorPeer}
use wireguard_natter_helper.Agent.Handle.{Report}
use wireguard_natter_helper.Agent.Monitor.{
  ProbeStatus, Watch, new_watch, monitor_key, lost_report, found_report, observe,
}

abbrev pub Observation : Type 0
Observation = MonitorPeer × Result ProbeStatus

-- How many probes of a peer were stale since the last that was not. The history stands newest
-- first; a probe that failed counts for nothing.
unfoldable pub streak : String → List Observation → ℕ
streak key [] = 0
streak key ((peer, err e) ∷ past) = streak key past
streak key ((peer, ok status) ∷ past) =
    let before = streak key past in
    if not (monitor_key peer == key) then before else if status.is_stale then suc before else 0

-- A peer is reported lost by the probe that makes its streak as long as the threshold, and back by
-- the first that is not stale after that.
unfoldable pub due : ℕ → ℤ → Observation → List Observation → List Report
due threshold stale_after (peer, err e) past = []
due threshold stale_after (peer, ok status) past =
    let before = streak (monitor_key peer) past in
    if status.is_stale
    then if nat_eq (suc before) threshold then lost_report stale_after peer status ∷ [] else []
    else if leb threshold before
    then found_report peer status ∷ []
    else []

unfoldable pub all_due : ℕ → ℤ → List Observation → List Observation → List Report
all_due threshold stale_after [] past = []
all_due threshold stale_after (o ∷ os) past =
    due threshold stale_after o past ++ all_due threshold stale_after os (o ∷ past)

module _ (threshold : ℕ) (stale_after : ℤ) (positive : ltb 0 threshold ≡ true) where
  -- The maps hold what the history says.
  pub record Agrees (w : Watch) (past : List Observation) : Type 0 where
    pub count : (key : String) → get_or key 0 w.fail_counts ≡ streak key past
    pub lost : (key : String) → get_or key false w.unreachable ≡ leb threshold (streak key past)

  pub Agrees-start : Agrees new_watch []
  unfolding get? streak
  Agrees-start = record { count = λ key. refl; lost = λ key. ground (arith, positive) }

  pub observe-Agrees :
      (o : Observation) (w : Watch) (past : List Observation)
      → Agrees w past
      → Agrees (observe threshold stale_after o.0 o.1 w).0 (o ∷ past)
  unfolding observe streak
  observe-Agrees (peer, err e) w past a = record { count = a.count; lost = a.lost }
  observe-Agrees (peer, ok status) w past a = record {
    count = λ key. ground (
      arith,
      a.count key,
      a.count (monitor_key peer),
      eq_iff (monitor_key peer) key,
      get?-set (monitor_key peer) key (suc (get_or (monitor_key peer) 0 w.fail_counts))
          w.fail_counts,
      get?-set (monitor_key peer) key 0 w.fail_counts,
    );
    lost = λ key. ground (
      arith,
      positive,
      a.count (monitor_key peer),
      a.lost key,
      a.lost (monitor_key peer),
      eq_iff (monitor_key peer) key,
      get?-set (monitor_key peer) key true w.unreachable,
      get?-set (monitor_key peer) key false w.unreachable,
    );
  }

  pub observe-due :
      (o : Observation) (w : Watch) (past : List Observation)
      → Agrees w past
      → (observe threshold stale_after o.0 o.1 w).1 ≡ due threshold stale_after o past
  unfolding observe due
  observe-due (peer, err e) w past a = refl
  observe-due (peer, ok status) w past a =
      ground (arith, a.count (monitor_key peer), a.lost (monitor_key peer))
