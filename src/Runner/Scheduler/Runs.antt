-- ===== src/Runner/Scheduler/Runs.antt =====
-- The run of one campaign: the kill switch, and what counts as a completed run.
use remote_juggler.Prelude.{
  ℕ, ◌+◌, ◌<◌, ◌≡◌, refl, ◌∙◌, ap, true, false, Option, none, some, arith, ltb,
}
use remote_juggler.Text.{Text, lit, same_iff}
use remote_juggler.Result.{Result, ok}
use remote_juggler.Runner.Scheduler.Completion.{mark_completed_self}
use remote_juggler.Runner.Campaign.{Campaign, CampaignResult, DispatchResult, should_publish}
use remote_juggler.Runner.Scheduler.Interface.{Services, CollectorOps}
use remote_juggler.Runner.Scheduler.{
  Scheduler, kill_switch_max_age, completed, kill_gate, execute, run_campaign, mark, gated, checked,
  killed, cleared, run_id_of, store_result, publish, notify, give_feedback, store_in, dispatch_with,
  after_dispatch,
}

module _ {W : Type 0} (v : Services W) (k : CollectorOps W) (s : Scheduler) (w : W) where
  gate_stale :
      {w2 w3 w4 : W} {t since : ℕ}
      → k.check_kill_switch w ≡ (ok true, w2)
      → s.kill_switch_active_since ≡ some since
      → v.now w2 ≡ (t, w3)
      → since + kill_switch_max_age < t
      → k.clear_kill_switch w3 ≡ (none, w4)
      → kill_gate v (some k) s w ≡ (none, record s { kill_switch_active_since = none }, w4)
  unfolding kill_gate
  gate_stale {t} {since} on seen clock old clear =
      let past : ltb (since + kill_switch_max_age) t ≡ true = ground arith in
      rw (on, checked, seen, killed, clock, past, clear, cleared)

module _ {W : Type 0} (v : Services W) (k : CollectorOps W) (has : v.collector ≡ some k) where
  -- Once the switch has been on for more than six hours, a run clears it, and if that succeeds goes on
  -- as if it were off, with the time of the first sight forgotten.
  pub run_campaign_stale :
      (c : Campaign) (s : Scheduler) (w : W) {w2 w3 w4 : W} {t since : ℕ}
      → k.check_kill_switch (v.now (v.refresh_tokens w)).1 ≡ (ok true, w2)
      → s.kill_switch_active_since ≡ some since
      → v.now w2 ≡ (t, w3)
      → since + kill_switch_max_age < t
      → k.clear_kill_switch w3 ≡ (none, w4)
      → let (e, w') = execute v c (run_id_of c.id (v.now (v.refresh_tokens w)).0) w4 in
        run_campaign v c s w ≡ (e, record s { kill_switch_active_since = none }, w')
  unfolding run_campaign
  run_campaign_stale c s w on seen clock old clear =
      let w1 = (v.now (v.refresh_tokens w)).1 in
      ap (gated v c (run_id_of c.id (v.now (v.refresh_tokens w)).0))
        (ap (λ o. kill_gate v o s w1) has ∙ gate_stale v k s w1 on seen clock old clear)

module _ {W : Type 0} (v : Services W) where
  execute_returned :
      (d : Campaign → Text → W → Result DispatchResult × W) (c : Campaign) (run_id : Text) (w : W)
      {r : DispatchResult} {w' : W}
      → v.dispatcher ≡ some d
      → d c run_id (v.now w).1 ≡ (ok r, w')
      → (execute v c run_id w).0 ≡ none
  unfolding execute
  execute_returned d c run_id w has returned = rw (has, dispatch_with, returned, after_dispatch)

  -- A run that the kill switch lets through, and whose dispatch returns a result, counts as
  -- completed, whatever the error in the result.
  pub run_campaign_completes :
      (d : Campaign → Text → W → Result DispatchResult × W) (c : Campaign) (s s' : Scheduler)
      (w w1 : W) {r : DispatchResult} {w2 : W}
      → v.dispatcher ≡ some d
      → kill_gate v v.collector s (v.now (v.refresh_tokens w)).1 ≡ (none, s', w1)
      → d c (run_id_of c.id (v.now (v.refresh_tokens w)).0) (v.now w1).1 ≡ (ok r, w2)
      → completed (mark v c.id (run_campaign v c s w)).0 c.id ≡ true
  unfolding run_campaign
  run_campaign_completes d c s s' w w1 has gate returned =
      let run_id = run_id_of c.id (v.now (v.refresh_tokens w)).0 in
      ap (λ o. completed (mark v c.id (gated v c run_id o)).0 c.id) gate
      ∙ rw (execute_returned d c run_id w1 has returned, mark) (mark_completed_self c.id s')

  publish_quiet :
      (o : Option (Campaign → CampaignResult → W → Result Text × W)) (c : Campaign)
      (r : CampaignResult) (w : W)
      → should_publish c.feedback r.status ≡ false
      → publish v o c r w ≡ (r, w)
  publish_quiet none c r w quiet = refl
  publish_quiet (some p) c r w quiet = rw quiet

  quiet_success :
      (c : Campaign) (r : CampaignResult)
      → c.feedback.publish_on_success ≡ some false
      → r.status ≡ lit "success"
      → should_publish c.feedback r.status ≡ false
  unfolding should_publish
  quiet_success c r quiet success = rw (quiet, success, (same_iff (lit "success") _).1 refl)

  -- With `publishOnSuccess` set to false, a successful result is stored once, gives feedback and is
  -- notified, in this order, and nothing is published.
  pub store_result_quiet :
      (c : Campaign) (r : CampaignResult) (w : W)
      → c.feedback.publish_on_success ≡ some false
      → r.status ≡ lit "success"
      → store_result v c r w ≡ (
        r,
        notify v v.on_result r (give_feedback v v.feedback c r (store_in v v.collector c r w)),
      )
  unfolding store_result
  store_result_quiet c r w quiet success =
      ap (λ (r', w'). (r', notify v v.on_result r' w'))
        (publish_quiet v.publisher c r _ (quiet_success c r quiet success))
