-- ===== src/Runner/Collector/Outage.antt =====
-- The kill switch while the gateway cannot be reached: the scheduler and the collector together.
use remote_juggler.Prelude.{◌≡◌, false, ◌∙◌, ap, none, some}
use remote_juggler.Text.{Text}
use remote_juggler.Result.{ok, err}
use remote_juggler.Runner.Campaign.{Campaign}
use remote_juggler.Runner.Dispatcher.Http.{Net}
use remote_juggler.Runner.Scheduler.Interface.{Services}
use remote_juggler.Runner.Scheduler.{
  Scheduler, kill_gate, execute, run_campaign, run_id_of, gated, checked,
}
use remote_juggler.Runner.Collector.{
  Codecs, kill_key, setec_get, check_kill_switch, switch_in, collector,
}

module _ {W : Type 0} (n : Net W) (j : Codecs) (url : Text) where
  unreachable :
      (w : W) {e : Text} {w' : W}
      → setec_get n j url kill_key w ≡ (err e, w')
      → check_kill_switch n j url w ≡ (ok false, w')
  unfolding check_kill_switch
  unreachable w lost = ap (switch_in n j url) lost

  gate_unreachable :
      (v : Services W) (s : Scheduler) (w : W) {e : Text} {w' : W}
      → setec_get n j url kill_key w ≡ (err e, w')
      → kill_gate v (some (collector n j url)) s w
        ≡ (none, record s { kill_switch_active_since = none }, w')
  unfolding kill_gate
  gate_unreachable v s w lost = ap (checked v (collector n j url) s) (unreachable w lost)

  -- If the call that reads the kill switch fails, for whatever reason, a run goes ahead, and the
  -- scheduler forgets since when the switch was on, even if it was on at the last run.
  pub run_campaign_unreachable :
      (v : Services W) (c : Campaign) (s : Scheduler) (w : W) {e : Text} {w' : W}
      → v.collector ≡ some (collector n j url)
      → setec_get n j url kill_key (v.now (v.refresh_tokens w)).1 ≡ (err e, w')
      → let (error, w'') = execute v c (run_id_of c.id (v.now (v.refresh_tokens w)).0) w' in
        run_campaign v c s w ≡ (error, record s { kill_switch_active_since = none }, w'')
  unfolding run_campaign
  run_campaign_unreachable v c s w has lost =
      let w1 = (v.now (v.refresh_tokens w)).1 in
      ap (gated v c (run_id_of c.id (v.now (v.refresh_tokens w)).0))
        (ap (λ o. kill_gate v o s w1) has ∙ gate_unreachable v s w1 lost)
