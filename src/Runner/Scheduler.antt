-- ===== src/Runner/Scheduler.antt =====
-- The scheduler of test/campaigns/runner/scheduler.go: which campaigns are due, the kill switch, the
-- run of a campaign, and what becomes of its result. Times are nanoseconds from Go's zero time.
pub mod Interface
pub mod Completion
pub mod Trigger
pub mod Runs
pub mod Killed
use remote_juggler.Prelude.{
  ℕ, zero, ◌+◌, ◌-◌, ◌*◌, ◌/◌, ◌^◌, Bool, true, false, Option, none, some, List, [], ◌∷◌, ◌++◌, not,
  ◌&&◌, ◌||◌, ltb, length, all, ◌==◌, nat_eq, if◌then◌else◌, is_some,
}
use remote_juggler.Prelude.Int.{pos, sub_ℕ}
use remote_juggler.Text.{Text, lit, text_eq, same, is_empty, contains, print_int}
use remote_juggler.Dict.{Dict, lookup, insert}
use remote_juggler.Result.{Result, ok, err}
use remote_juggler.Runner.Cron.{CivilTime, cron_matches}
use remote_juggler.Runner.Campaign.{
  Campaign, Finding, DispatchResult, CampaignResult, should_publish, is_nil,
}
use remote_juggler.Runner.Scheduler.Interface.{Services, CollectorOps, FeedbackOps}

-- `killSwitchMaxAge`: six hours.
abbrev pub kill_switch_max_age : ℕ
kill_switch_max_age = 6 * 3600 * 10 ^ 9

-- `killSwitchActiveSince` is `none` where it is the zero time.
pub record Scheduler : Type 0 where
  pub registry : Dict Campaign
  pub completed_runs : Dict Bool
  pub kill_switch_active_since : Option ℕ

unfoldable pub new_scheduler : Dict Campaign → Scheduler
new_scheduler registry = record {
  registry = registry;
  completed_runs = [];
  kill_switch_active_since = none;
}

unfoldable pub update_registry : Dict Campaign → Scheduler → Scheduler
update_registry registry s = record s { registry = registry }

-- `isDue`
unfoldable pub is_due : Campaign → CivilTime → Bool
unfolding lit cron_matches
is_due c now =
    let t = c.trigger in
    if is_empty t.schedule && t.event == lit "manual"
    then false
    else if t.event == lit "push" || t.event == lit "pull_request"
    then false
    else if not (is_nil t.depends_on)
    then false
    else if not (is_empty t.schedule)
    then cron_matches t.schedule now
    else false

abbrev is_true : Option Bool → Bool
is_true (some true) = true
is_true _ = false

-- `s.completedRuns[id]`, which is false for a key that is missing.
unfoldable pub completed : Scheduler → Text → Bool
unfolding lookup
completed s id = is_true (lookup id s.completed_runs)

-- `dependenciesMet`
unfoldable pub dependencies_met : Scheduler → Campaign → Bool
unfolding completed
dependencies_met s c = all (completed s) c.trigger.depends_on

unfoldable pub mark_completed : Text → Scheduler → Scheduler
unfolding insert
mark_completed id s = record s { completed_runs = insert id true s.completed_runs }

unfoldable pub is_budget_error : Text → Bool
unfolding lit contains
is_budget_error msg = contains msg (lit "budget exceeded")

-- The status and the error of a run whose dispatch returned a result, from `ctx.Err()`.
unfoldable pub classify : Option Text → Text → Text × Text
unfolding lit is_budget_error
classify (some e) error = (lit "timeout", e)
classify none error =
    if is_budget_error error
    then (lit "budget_exceeded", error)
    else if not (is_empty error)
    then (lit "failure", error)
    else (lit "success", [])

-- `time.Now().Unix()` in the run's identifier
abbrev pub run_id_of : Text → ℕ → Text
run_id_of id now = id ++ (b'-' ∷ print_int (sub_ℕ (now / 10 ^ 9) 62135596800))

abbrev empty_result : Campaign → Text → Text → CampaignResult
empty_result c run_id started = record {
  campaign_id = c.id;
  run_id = run_id;
  status = [];
  started_at = started;
  finished_at = [];
  agent = c.agent;
  kpis = [];
  error = [];
  tool_calls = pos 0;
  tokens_used = pos 0;
  findings = [];
  tool_trace = [];
  discussion_url = [];
}

module _ {W : Type 0} (v : Services W) where
  -- The findings of the last run, loaded only to close issues.
  abbrev pub previous_of : Option (CollectorOps W) → Campaign → W → List Finding × W
  previous_of none c w = ([], w)
  previous_of (some k) c w =
      if c.feedback.close_resolved_issues then k.get_previous_findings c w else ([], w)

  -- The part of `storeResult` that calls the feedback handler, whose errors are only logged.
  abbrev pub give_feedback : Option (FeedbackOps W) → Campaign → CampaignResult → W → W
  give_feedback none c r w = w
  give_feedback (some f) c r w =
      if is_nil r.findings
      then w
      else (let (previous, w1) = previous_of v.collector c w in
          let (e, w2) = f.process_findings c r.findings previous w1 in
          (f.process_pr_findings c r.findings w2).1)

  abbrev pub store_in : Option (CollectorOps W) → Campaign → CampaignResult → W → W
  store_in none c r w = w
  store_in (some k) c r w = (k.store_result c r w).1

  -- What follows a call of `Publish`.
  abbrev published : Campaign → CampaignResult → Result Text × W → CampaignResult × W
  published c r (err e, w) = (r, w)
  published c r (ok url, w) =
      let r' = record r { discussion_url = url } in (r', store_in v.collector c r' w)

  abbrev publish :
      Option (Campaign → CampaignResult → W → Result Text × W)
      → Campaign
      → CampaignResult
      → W
      → CampaignResult × W
  publish none c r w = (r, w)
  publish (some p) c r w =
      if should_publish c.feedback r.status then published c r (p c r w) else (r, w)

  abbrev pub notify : Option (CampaignResult → W → W) → CampaignResult → W → W
  notify none r w = w
  notify (some f) r w = f r w

  -- `storeResult`: the result as it was last changed, and the world. Its routing of findings is
  -- computed and logged, and changes nothing.
  unfoldable pub store_result : Campaign → CampaignResult → W → CampaignResult × W
  unfolding should_publish
  store_result c r w =
      let w1 = store_in v.collector c r w in
      let w2 = give_feedback v.feedback c r w1 in
      let (r', w3) = publish v.publisher c r w2 in (r', notify v.on_result r' w3)

  -- The end of a run that got no result from the dispatcher.
  unfoldable pub fail_run : Campaign → CampaignResult → Text → W → Option Text × W
  unfolding store_result lit
  fail_run c r e w =
      let (t, w1) = v.now w in
      let r' = record r { status = lit "error"; error = e; finished_at = v.rfc3339 t } in
      (some e, (store_result c r' w1).1)

  -- The result of a run whose dispatch returned, with the time that it finished.
  unfoldable pub finished : CampaignResult → DispatchResult → Option Text → ℕ → CampaignResult
  unfolding classify
  finished r d ctx t =
      let (status, error) = classify ctx d.error in
      record r {
        status = status;
        error = error;
        finished_at = v.rfc3339 t;
        tool_calls = d.tool_calls;
        tokens_used = d.tokens_used;
        kpis = d.kpis;
        tool_trace = d.tool_trace;
        findings = d.findings;
      }

  abbrev after_dispatch : Campaign → CampaignResult → Result DispatchResult × W → Option Text × W
  after_dispatch c r (err e, w) = fail_run c r e w
  after_dispatch c r (ok d, w) =
      let (ctx, w1) = v.ctx_err w in
      let (t, w2) = v.now w1 in (none, (store_result c (finished r d ctx t) w2).1)

  abbrev dispatch_with :
      Option (Campaign → Text → W → Result DispatchResult × W)
      → Campaign
      → Text
      → CampaignResult
      → W
      → Option Text × W
  dispatch_with none c run_id r w = fail_run c r (lit "no dispatcher configured") w
  dispatch_with (some d) c run_id r w = after_dispatch c r (d c run_id w)

  -- The part of `RunCampaign` after the kill switch: the error, and the world.
  unfoldable pub execute : Campaign → Text → W → Option Text × W
  unfolding fail_run finished
  execute c run_id w =
      let (t, w1) = v.now w in
      dispatch_with v.dispatcher c run_id (empty_result c run_id (v.rfc3339 t)) w1

  abbrev cleared : Scheduler → Option Text × W → Option Text × Scheduler × W
  cleared s (some e, w) = (some (lit "global kill switch active"), s, w)
  cleared s (none, w) = (none, record s { kill_switch_active_since = none }, w)

  -- The kill switch is on, and was first seen on at the given time.
  abbrev killed_since : CollectorOps W → ℕ → Scheduler → W → Option Text × Scheduler × W
  killed_since k since s w =
      let (t, w1) = v.now w in
      let s' = record s { kill_switch_active_since = some since } in
      if ltb (since + kill_switch_max_age) t
      then cleared s' (k.clear_kill_switch w1)
      else (some (lit "global kill switch active"), s', w1)

  abbrev killed : CollectorOps W → Option ℕ → Scheduler → W → Option Text × Scheduler × W
  killed k (some since) s w = killed_since k since s w
  killed k none s w = let (t, w1) = v.now w in killed_since k t s w1

  abbrev pub checked : CollectorOps W → Scheduler → Result Bool × W → Option Text × Scheduler × W
  checked k s (err e, w) = (none, s, w)
  checked k s (ok false, w) = (none, record s { kill_switch_active_since = none }, w)
  checked k s (ok true, w) = killed k s.kill_switch_active_since s w

  -- The kill switch check of `RunCampaign`: `some` is the error that ends the run.
  unfoldable pub kill_gate : Option (CollectorOps W) → Scheduler → W → Option Text × Scheduler × W
  unfolding lit
  kill_gate none s w = (none, s, w)
  kill_gate (some k) s w = checked k s (k.check_kill_switch w)

  abbrev pub gated : Campaign → Text → Option Text × Scheduler × W → Option Text × Scheduler × W
  gated c run_id (some e, s, w) = (some e, s, w)
  gated c run_id (none, s, w) = let (e, w') = execute c run_id w in (e, s, w')

  -- `RunCampaign`: the error, the scheduler and the world.
  unfoldable pub run_campaign : Campaign → Scheduler → W → Option Text × Scheduler × W
  unfolding kill_gate execute print_int
  run_campaign c s w =
      let (t, w1) = v.now (v.refresh_tokens w) in
      gated c (run_id_of c.id t) (kill_gate v.collector s w1)

  -- What a pass of `RunDue` does after a run of the campaign with this key.
  abbrev pub mark : Text → Option Text × Scheduler × W → Scheduler × W
  mark id (some e, s, w) = (s, w)
  mark id (none, s, w) = (mark_completed id s, w)

  -- The first pass. The list of the campaigns that it starts is what it logs.
  unfoldable pub run_scheduled :
      CivilTime → Dict Campaign → Scheduler → W → List Text × Scheduler × W
  unfolding is_due run_campaign mark_completed
  run_scheduled now [] s w = ([], s, w)
  run_scheduled now ((id, c) ∷ rest) s w =
      let starts = is_nil c.trigger.depends_on && is_due c now in
      let (s', w') = if starts then mark id (run_campaign c s w) else (s, w) in
      let (started, s'', w'') = run_scheduled now rest s' w' in
      (if starts then id ∷ started else started, s'', w'')

  -- The second pass
  unfoldable pub run_dependent : Dict Campaign → Scheduler → W → List Text × Scheduler × W
  unfolding dependencies_met run_campaign mark_completed
  run_dependent [] s w = ([], s, w)
  run_dependent ((id, c) ∷ rest) s w =
      let starts = not (is_nil c.trigger.depends_on) && dependencies_met s c in
      let (s', w') = if starts then mark id (run_campaign c s w) else (s, w) in
      let (started, s'', w'') = run_dependent rest s' w' in
      (if starts then id ∷ started else started, s'', w'')

  -- `RunDue` at a time: what each pass started, the scheduler and the world. `first` and `second`
  -- are the registry in the orders in which the two passes visit it.
  unfoldable pub run_due :
      CivilTime
      → Dict Campaign
      → Dict Campaign
      → Scheduler
      → W
      → List Text × List Text × Scheduler × W
  unfolding run_scheduled run_dependent
  run_due now first second s w =
      let (started, s1, w1) = run_scheduled now first s w in
      let (later, s2, w2) = run_dependent second s1 w1 in (started, later, s2, w2)
