-- ===== src/Runner/Scheduler/Killed.antt =====
-- RunDue of test/campaigns/runner/scheduler.go while the global kill switch is on.
use remote_juggler.Prelude.{
  ℕ, ◌+◌, ◌≤◌, ◌≡◌, refl, ◌∙◌, ap, sym, Bool, true, false, not, ◌&&◌, Option, none, some, [], ◌∷◌,
  arith, ltb, if◌then◌else◌,
}
use mathlib.Core.Path.{subst}
use remote_juggler.Text.{Text, lit}
use remote_juggler.Dict.{Dict}
use remote_juggler.Result.{Result, ok}
use remote_juggler.Runner.Cron.{CivilTime}
use remote_juggler.Runner.Campaign.{Campaign, CampaignResult, DispatchResult, is_nil}
use remote_juggler.Runner.Scheduler.Interface.{Services, CollectorOps, FeedbackOps}
use remote_juggler.Runner.Scheduler.{
  Scheduler, kill_switch_max_age, dependencies_met, kill_gate, run_campaign, mark, gated, checked,
  killed, killed_since, run_id_of, is_due, run_scheduled, run_dependent, run_due,
}

-- The collector always reads the switch as on, and all times read are in the six hours after this one.
pub record KillOn {W : Type 0} (v : Services W) (k : CollectorOps W) (begin : ℕ) : Type 0 where
  pub on : (w : W) → (k.check_kill_switch w).0 ≡ ok true
  pub early : (w : W) → begin ≤ (v.now w).0
  pub late : (w : W) → (v.now w).0 ≤ begin + kill_switch_max_age

-- If the switch has been seen on, then since this time or later.
abbrev pub SinceAfter : ℕ → Option ℕ → Type 0
SinceAfter begin none = Unit {0}
SinceAfter begin (some since) = begin ≤ since

abbrev kill_message : Text
kill_message = lit "global kill switch active"

module _ {W : Type 0} (v : Services W) (k : CollectorOps W) (begin : ℕ) (h : KillOn v k begin) where
  -- A run has ended with the error of the switch, and has completed nothing.
  abbrev Stopped : Scheduler → Option Text × Scheduler × W → Type 0
  Stopped s (e, s', w') =
      (e ≡ some kill_message)
      × (s'.completed_runs ≡ s.completed_runs)
      × SinceAfter begin s'.kill_switch_active_since

  killed_since-Stopped :
      (since : ℕ) (s : Scheduler) (w : W) → begin ≤ since → Stopped s (killed_since v k since s w)
  killed_since-Stopped since s w after =
      let young : ltb (since + kill_switch_max_age) (v.now w).0 ≡ false =
        ground (arith, h.late w, after) in
      rw (killed_since, young) (refl, refl, after)

  killed-Stopped :
      (o : Option ℕ) (s : Scheduler) (w : W) → SinceAfter begin o → Stopped s (killed v k o s w)
  killed-Stopped none s w after = killed_since-Stopped (v.now w).0 s (v.now w).1 (h.early w)
  killed-Stopped (some since) s w after = killed_since-Stopped since s w after

  checked-Stopped :
      (s : Scheduler) (o : Result Bool × W)
      → o.0 ≡ ok true
      → SinceAfter begin s.kill_switch_active_since
      → Stopped s (checked v k s o)
  checked-Stopped s (o, w) on after =
      subst (λ r. Stopped s (checked v k s (r, w))) (sym on)
        (killed-Stopped s.kill_switch_active_since s w after)

  kill_gate-Stopped :
      (s : Scheduler) (w : W)
      → SinceAfter begin s.kill_switch_active_since
      → Stopped s (kill_gate v (some k) s w)
  unfolding kill_gate
  kill_gate-Stopped s w after = checked-Stopped s (k.check_kill_switch w) (h.on w) after

  gated_stopped :
      (u : Services W) (c : Campaign) (run_id : Text) (o : Option Text × Scheduler × W)
      → o.0 ≡ some kill_message
      → gated u c run_id o ≡ o
  gated_stopped u c run_id (e, s, w) stopped =
      subst (λ x. gated u c run_id (x, s, w) ≡ (x, s, w)) (sym stopped) refl

module _ {W : Type 0} (v : Services W) (k : CollectorOps W) (has : v.collector ≡ some k) (begin : ℕ)
    (h : KillOn v k begin) (d : Option (Campaign → Text → W → Result DispatchResult × W))
    (f : Option (FeedbackOps W)) (p : Option (Campaign → CampaignResult → W → Result Text × W))
    (o : Option (CampaignResult → W → W)) where
  -- The same services with another dispatcher, feedback handler, publisher and notification.
  abbrev pub other : Services W
  other = record v { dispatcher = d; feedback = f; publisher = p; on_result = o }

  -- Nothing has been completed, and the switch has not been seen on before the time.
  abbrev Idle : Scheduler → Scheduler → Type 0
  Idle s s' = (s'.completed_runs ≡ s.completed_runs) × SinceAfter begin s'.kill_switch_active_since

  run_campaign_gate :
      (u : Services W) (c : Campaign) (s : Scheduler) (w : W)
      → u.collector ≡ some k
      → kill_gate u (some k) s (u.now (u.refresh_tokens w)).1
        ≡ kill_gate v (some k) s (u.now (u.refresh_tokens w)).1
      → SinceAfter begin s.kill_switch_active_since
      → run_campaign u c s w ≡ kill_gate v (some k) s (u.now (u.refresh_tokens w)).1
  unfolding run_campaign
  run_campaign_gate u c s w collector same after =
      let w1 = (u.now (u.refresh_tokens w)).1 in
      let run_id = run_id_of c.id (u.now (u.refresh_tokens w)).0 in
      let (stopped, kept, later) = kill_gate-Stopped v k begin h s w1 after in
      ap (λ x. gated u c run_id (kill_gate u x s w1)) collector
      ∙ ap (gated u c run_id) same
      ∙ gated_stopped v k begin h u c run_id (kill_gate v (some k) s w1) stopped

  abbrev step : Services W → Bool → Text → Campaign → Scheduler → W → Scheduler × W
  step u starts id c s w = if starts then mark u id (run_campaign u c s w) else (s, w)

  mark_stopped :
      (u : Services W) (id : Text) (r : Option Text × Scheduler × W)
      → r.0 ≡ some kill_message
      → mark u id r ≡ (r.1, r.2)
  mark_stopped u id (e, s, w) stopped = subst (λ x. mark u id (x, s, w) ≡ (s, w)) (sym stopped) refl

  abbrev after_gate : Scheduler → W → Scheduler × W
  after_gate s w = let r = kill_gate v (some k) s (v.now (v.refresh_tokens w)).1 in (r.1, r.2)

  step_gate :
      (starts : Bool) (id : Text) (c : Campaign) (s : Scheduler) (w : W)
      → SinceAfter begin s.kill_switch_active_since
      → (step v starts id c s w ≡ step other starts id c s w)
        × Idle s (step other starts id c s w).0
  unfolding kill_gate
  step_gate false id c s w after = (refl, (refl, after))
  step_gate true id c s w after =
      let w1 = (v.now (v.refresh_tokens w)).1 in
      let gate = kill_gate v (some k) s w1 in
      let (stopped, kept, later) = kill_gate-Stopped v k begin h s w1 after in
      let here : mark v id (run_campaign v c s w) ≡ (gate.1, gate.2) =
        ap (mark v id) (run_campaign_gate v c s w has refl after)
        ∙ mark_stopped v id gate stopped in
      let there : mark other id (run_campaign other c s w) ≡ (gate.1, gate.2) =
        ap (mark other id) (run_campaign_gate other c s w has refl after)
        ∙ mark_stopped other id gate stopped in
      (here ∙ sym there, subst (λ x. Idle s x.0) (sym there) (kept, later))

  run_scheduled-Idle :
      (now : CivilTime) (cs : Dict Campaign) (s : Scheduler) (w : W)
      → SinceAfter begin s.kill_switch_active_since
      → (run_scheduled v now cs s w ≡ run_scheduled other now cs s w)
        × Idle s (run_scheduled other now cs s w).1
  unfolding run_scheduled
  run_scheduled-Idle now [] s w after = (refl, (refl, after))
  run_scheduled-Idle now ((id, c) ∷ rest) s w after =
      let starts = is_nil c.trigger.depends_on && is_due c now in
      let (same, (kept, later)) = step_gate starts id c s w after in
      let x = step other starts id c s w in
      let (same', (kept', later')) = run_scheduled-Idle now rest x.0 x.1 later in
      (
        ap
              (λ y.
                let r = run_scheduled v now rest y.0 y.1 in
                (if starts then id ∷ r.0 else r.0, r.1, r.2))
              same
            ∙ ap (λ r. (if starts then id ∷ r.0 else r.0, r.1, r.2)) same',
        (kept' ∙ kept, later'),
      )

  run_dependent-Idle :
      (cs : Dict Campaign) (s : Scheduler) (w : W)
      → SinceAfter begin s.kill_switch_active_since
      → (run_dependent v cs s w ≡ run_dependent other cs s w)
        × Idle s (run_dependent other cs s w).1
  unfolding run_dependent
  run_dependent-Idle [] s w after = (refl, (refl, after))
  run_dependent-Idle ((id, c) ∷ rest) s w after =
      let starts = not (is_nil c.trigger.depends_on) && dependencies_met s c in
      let (same, (kept, later)) = step_gate starts id c s w after in
      let x = step other starts id c s w in
      let (same', (kept', later')) = run_dependent-Idle rest x.0 x.1 later in
      (
        ap
              (λ y.
                let r = run_dependent v rest y.0 y.1 in
                (if starts then id ∷ r.0 else r.0, r.1, r.2))
              same
            ∙ ap (λ r. (if starts then id ∷ r.0 else r.0, r.1, r.2)) same',
        (kept' ∙ kept, later'),
      )

  -- While the collector reads the kill switch as on, all times read lie in the six hours after a time, and
  -- the switch had not been seen on before it, RunDue comes to the same with any other dispatcher, feedback
  -- handler, publisher and notification, so that it calls none of them, and it completes no campaign.
  pub run_due_killed :
      (now : CivilTime) (first second : Dict Campaign) (s : Scheduler) (w : W)
      → SinceAfter begin s.kill_switch_active_since
      → (run_due v now first second s w ≡ run_due other now first second s w)
        × ((run_due v now first second s w).2.completed_runs ≡ s.completed_runs)
  unfolding run_due
  run_due_killed now first second s w after =
      let (same, (kept, later)) = run_scheduled-Idle now first s w after in
      let a = run_scheduled other now first s w in
      let (same', (kept', later')) = run_dependent-Idle second a.1 a.2 later in
      let all_same : run_due v now first second s w ≡ run_due other now first second s w =
        ap (λ r. let q = run_dependent v second r.1 r.2 in (r.0, q.0, q.1, q.2)) same
        ∙ ap (λ q. (a.0, q.0, q.1, q.2)) same' in
      (all_same, ap (λ r. r.2.completed_runs) all_same ∙ kept' ∙ kept)
