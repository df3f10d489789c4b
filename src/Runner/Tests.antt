-- ===== src/Runner/Tests.antt =====
-- Concrete inputs for the theorems on the runner.
mod Remote
mod Routing
mod Polling
use remote_juggler.Prelude.{
  ℕ, ◌+◌, ◌*◌, ◌^◌, ◌≤◌, ◌<◌, ◌≡◌, refl, ◌↔◌, Bool, true, false, Option, none, some, List, [], ◌∷◌,
  ◌++◌, ◌==◌, any, all, map, keep, arith, if◌then◌else◌,
}
use remote_juggler.Prelude.Int.{pos}
use remote_juggler.Text.{Text, lit, text_eq, same, is_empty, contains, has_prefix}
use remote_juggler.Result.{Result, ok, err}
use remote_juggler.Dict.{Dict, lookup, insert}
use remote_juggler.Runner.Campaign.{
  Campaign, CampaignTrigger, Finding, DispatchResult, CampaignResult, is_nil,
}
use remote_juggler.Runner.Cron.{CivilTime, cron_matches}
use remote_juggler.Runner.Cron.Laws.{
  meaning, every, step, number, among, CronSpec, CronInRange, render_cron, due_at,
  cron_matches-render,
}
use remote_juggler.Runner.Router.{
  RjMeta, format_rj_meta, parse_rj_meta, RoutingRule, default_routing_rules, rule_matches,
  match_rule, label_contains, route,
}
use remote_juggler.Runner.Router.Meta.{parse_rj_meta-format_rj_meta}
use remote_juggler.Runner.Router.Rules.{AllByFirst, route_lem, default_credential}
use remote_juggler.Runner.Scheduler.{
  Scheduler, new_scheduler, kill_switch_max_age, is_due, completed, dependencies_met,
  mark_completed, kill_gate, execute, run_campaign, mark, run_due, run_id_of, store_result,
  store_in, give_feedback, notify,
}
use remote_juggler.Runner.Scheduler.Interface.{Services, CollectorOps}
use remote_juggler.Runner.Scheduler.Trigger.{is_due_iff}
use remote_juggler.Runner.Scheduler.Completion.{
  DependenciesMet, dependencies_met-run_due, run_due_started,
}
use remote_juggler.Runner.Scheduler.Killed.{KillOn, run_due_killed}
use remote_juggler.Runner.Scheduler.Runs.{
  run_campaign_stale, run_campaign_completes, store_result_quiet,
}

-- Every fifteen minutes, at nine and at five o'clock, on workdays in June.
abbrev a_spec : CronSpec
a_spec = record {
  minute = step 15;
  hour = among 9 17 [];
  day = every;
  month = number 6;
  weekday = among 1 2 (3 ∷ 4 ∷ 5 ∷ []);
}

abbrev a_time : CivilTime
a_time = record { minute = 45; hour = 17; day = 3; month = 6; weekday = 2 }

cron_matches-render_example : cron_matches (render_cron a_spec) a_time ≡ due_at a_spec a_time
cron_matches-render_example = cron_matches-render a_spec a_time (record {
  minute = (omega arith, omega arith);
  hour = (omega arith, (omega arith, tt));
  day = tt;
  month = omega arith;
  weekday = (omega arith, (omega arith, (omega arith, (omega arith, (omega arith, tt)))));
})

due_at_test : due_at a_spec a_time ≡ true
unfolding meaning
due_at_test = refl

abbrev a_campaign : Campaign
a_campaign = record {
  id = lit "xa-nightly";
  name = lit "Nightly";
  description = [];
  agent = lit "openclaw";
  model = [];
  mode = [];
  trigger = record { schedule = lit "0 3 * * *"; event = []; depends_on = []; path_filters = [] };
  targets = [];
  tools = [];
  process = [];
  outputs = record {
    setec_key = lit "campaigns/xa-nightly";
    issue_labels = [];
    issue_repo = [];
    pr_branch_prefix = [];
    pr_body_template = [];
  };
  guardrails = record {
    max_duration = [];
    read_only = true;
    kill_switch = [];
    ai_api_budget = none;
  };
  feedback = record {
    create_issues = false;
    create_prs = false;
    close_resolved_issues = false;
    publish_on_success = some false;
  };
  metrics = record { success_criteria = []; kpis = [] };
}

-- A campaign that runs after the first.
abbrev a_dependent : Campaign
a_dependent = record a_campaign {
  id = lit "xa-digest";
  trigger = record {
    schedule = [];
    event = [];
    depends_on = lit "xa-nightly" ∷ [];
    path_filters = [];
  };
}

-- The world of the tests is its clock.
abbrev a_collector : CollectorOps ℕ
a_collector = record {
  check_kill_switch = λ w. (ok true, w + 1);
  clear_kill_switch = λ w. (none, w + 1);
  store_result = λ c r w. (none, w + 1);
  get_previous_findings = λ c w. ([], w);
}

abbrev a_result : DispatchResult
a_result = record {
  tool_calls = pos 2;
  tokens_used = pos 64;
  kpis = [];
  tool_trace = [];
  findings = [];
  error = lit "budget exceeded: 64/60 tokens used";
}

abbrev dispatch_once : Campaign → Text → ℕ → Result DispatchResult × ℕ
dispatch_once c run_id w = (ok a_result, w + 10)

abbrev services_of : Option (CollectorOps ℕ) → Services ℕ
services_of k = record {
  dispatcher = some dispatch_once;
  collector = k;
  feedback = none;
  publisher = none;
  on_result = none;
  refresh_tokens = λ w. w;
  now = λ w. (w, w + 1);
  ctx_err = λ w. (none, w);
  rfc3339 = λ t. [];
}

abbrev seen_on : Scheduler
seen_on = record { registry = []; completed_runs = []; kill_switch_active_since = some 100 }

no_kill_gate : kill_gate (services_of none) none seen_on 201 ≡ (none, seen_on, 201)
unfolding kill_gate
no_kill_gate = refl

abbrev a_registry : Dict Campaign
a_registry = (lit "xa-nightly", a_campaign) ∷ (lit "xa-digest", a_dependent) ∷ []

abbrev nightly_done : Scheduler
nightly_done = record seen_on { completed_runs = (lit "xa-nightly", true) ∷ [] }

nightly_dependencies : dependencies_met nightly_done a_dependent ≡ true
unfolding dependencies_met completed lookup lit same
nightly_dependencies = refl

dependencies_met-run_due_example :
    dependencies_met
      (run_due (services_of none) a_time a_registry a_registry nightly_done 200).2
      a_dependent
    ≡ true
dependencies_met-run_due_example =
    dependencies_met-run_due (services_of none) a_time a_registry a_registry nightly_done 200
      a_dependent nightly_dependencies

-- At three in the morning the first pass runs the scheduled campaign, and the second the dependent.
abbrev three_o_clock : CivilTime
three_o_clock = record { minute = 0; hour = 3; day = 3; month = 6; weekday = 2 }

abbrev at_three : List Text × List Text × Scheduler × ℕ
at_three =
    run_due (services_of none) three_o_clock a_registry a_registry (new_scheduler a_registry) 200

run_due_test : (at_three.0 ≡ lit "xa-nightly" ∷ []) × (at_three.1 ≡ lit "xa-digest" ∷ [])
unfolding run_due same new_scheduler
run_due_test = (refl, refl)

run_due_started_example :
    DependenciesMet (services_of none) a_registry at_three.2 (lit "xa-digest" ∷ [])
unfolding run_due same new_scheduler
run_due_started_example =
    run_due_started (services_of none) three_o_clock a_registry a_registry
      (new_scheduler a_registry) 200

-- The collector reads the switch as on, and the clock stands still.
abbrev killed_services : Services ℕ
killed_services = record (services_of (some a_collector)) { now = λ w. (200, w + 1) }

killed_on : KillOn killed_services a_collector 100
killed_on = record { on = λ w. refl; early = λ w. omega arith; late = λ w. omega arith }

run_due_killed_example :
    (run_due killed_services three_o_clock a_registry a_registry seen_on 200
      ≡ run_due
          (record killed_services {
            dispatcher = none;
            feedback = none;
            publisher = none;
            on_result = none;
          })
          three_o_clock
          a_registry
          a_registry
          seen_on
          200)
    × ((run_due killed_services three_o_clock a_registry a_registry seen_on 200).2.completed_runs
        ≡ seen_on.completed_runs)
run_due_killed_example =
    run_due_killed killed_services a_collector refl 100 killed_on none none none none three_o_clock
      a_registry a_registry seen_on 200 (omega arith)

abbrev a_success : CampaignResult
a_success = record {
  campaign_id = lit "xa-nightly";
  run_id = lit "xa-nightly-1";
  status = lit "success";
  started_at = [];
  finished_at = [];
  agent = lit "openclaw";
  kpis = [];
  error = [];
  tool_calls = pos 2;
  tokens_used = pos 64;
  findings = [];
  tool_trace = [];
  discussion_url = [];
}

abbrev a_finding : Finding
a_finding = record {
  title = lit "Token in history";
  body = [];
  severity = lit "medium";
  labels = lit "credential-leak" ∷ [];
  campaign_id = lit "xa-nightly";
  run_id = [];
  fingerprint = [];
  fixable = false;
  remediation_type = [];
  remediation_hints = none;
}
