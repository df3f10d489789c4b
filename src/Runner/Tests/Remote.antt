-- ===== src/Runner/Tests/Remote.antt =====
-- The theorems on the dispatcher, the collector and the issues, with a small gateway that keeps
-- secrets in its state.
use remote_juggler.Prelude.{
  ℕ, zero, suc, ◌+◌, ◌≤◌, ◌<◌, ◌≡◌, ◌≢◌, refl, ◌∙◌, ap, true, Option, none, some, List, [], ◌∷◌,
  ◌++◌, length, take, drop, take-append, drop-append, arith, Option-cases, inl, inr,
}
use remote_juggler.Prelude.Int.{pos}
use remote_juggler.Text.{Text, lit, text_eq, same_iff}
use remote_juggler.Dict.{Dict, lookup, insert, lookup-insert, lookup-insert_self}
use remote_juggler.Result.{Result, ok, err}
use remote_juggler.Runner.Campaign.{Campaign, CampaignResult, Finding}
use remote_juggler.Runner.Scheduler.{
  Scheduler, classify, give_feedback, execute, run_campaign, run_id_of,
}
use remote_juggler.Runner.Scheduler.Interface.{Services}
use remote_juggler.Runner.Dispatcher.{max_bytes_of, size, call_tool, direct_args, dispatch_direct}
use remote_juggler.Http.{HttpResponse}
use remote_juggler.Runner.Dispatcher.Http.{McpResponse, Net}
use remote_juggler.Runner.Dispatcher.Budget.{dispatch_direct-capped}
use remote_juggler.Runner.Collector.{
  Codecs, kill_key, latest_key, history_key, setec_put, setec_get, store_result,
  get_previous_findings, collector,
}
use remote_juggler.Runner.Collector.Stored.{Holds, IsStore, get_previous_findings-store_result}
use remote_juggler.Runner.Collector.Outage.{run_campaign_unreachable}
use remote_juggler.Runner.Feedback.{FeedbackHandler, GitHubCodecs, process_findings}
use remote_juggler.Runner.Feedback.Resolved.{feedback, give_feedback-store_result}
use remote_juggler.Runner.Tests.{a_campaign, a_success, a_finding}

-- A name and a value as one body, and a name alone.
abbrev encode : Dict Text → Text
encode [] = []
encode ((_, k) ∷ []) = 0 ∷ k
encode ((_, k) ∷ (_, v) ∷ rest) = 1 ∷ length k ∷ k ++ v

abbrev found : Option Text → HttpResponse
found none = record { status_code = 500; body = []; read_error = none }
found (some v) = record { status_code = 200; body = v; read_error = none }

abbrev serve : Text → Dict Text → Result HttpResponse × Dict Text
serve (zero ∷ k) w = (ok (found (lookup k w)), w)
serve (suc _ ∷ l ∷ kv) w = (ok (found (some [])), insert (take l kv) (drop l kv) w)
serve _ w = (ok (found none), w)

abbrev parsed : Text → Result McpResponse
parsed b = ok (record { jsonrpc = lit "2.0"; id = pos 1; result = b; error = none })

abbrev secrets : Net (Dict Text)
secrets = record {
  transport = record { new_request = λ q. none; send = λ q w. serve q.body w };
  ctx_err = λ w. (none, w);
  ticks = λ w. 3;
  marshal_call = λ q. ok (encode q.params.arguments);
  marshal_campaign = λ c run_id. ok run_id;
  unmarshal_response = parsed;
  decode_status = λ r. none;
}

-- One finding is stored with the result.
abbrev a_found : CampaignResult
a_found = record a_success { findings = a_finding ∷ [] }

abbrev codecs : Codecs
codecs = record {
  marshal_result = λ r. ok (lit "{}");
  unmarshal_result = λ t. ok a_found;
  unmarshal_content = λ t. ok (t ∷ []);
}

put_lem :
    (key text : Text) (w : Dict Text)
    → (setec_put secrets codecs [] key text w).1 ≡ insert key text w
unfolding call_tool
put_lem key text w = rw (take-append key text, drop-append key text)

get_lem :
    (key text : Text) (w : Dict Text)
    → lookup key w ≡ some text
    → (setec_get secrets codecs [] key w).0 ≡ ok text
unfolding call_tool
get_lem key text w h = rw h

held_of_lookup :
    (key text : Text) (w : Dict Text)
    → lookup key w ≡ some text
    → Holds secrets codecs [] key text w
held_of_lookup key text w h = (text, get_lem key text w h, refl)

abbrev text_of : Result Text → Text
text_of (ok t) = t
text_of (err e) = []

abbrev first_of : Result (List Text) → Text
first_of (ok (t ∷ ts)) = t
first_of _ = []

lookup_of_get :
    (key text : Text) (w : Dict Text)
    → Holds secrets codecs [] key text w
    → lookup key w ≡ some text
unfolding call_tool
lookup_of_get key text w (resp, got, same_text) = elim (Option-cases (lookup key w)) [
  | inl none_held ↦ absurd (ground (arith, rw none_held at got))
  | inr (v, held) ↦ held ∙ ap some (ap text_of (rw held at got) ∙ ap first_of same_text)
]

secrets-IsStore : IsStore secrets codecs []
secrets-IsStore = record {
  put_get = λ key text w done.
      rw (put_lem key text w)
        (held_of_lookup key text (insert key text w) (lookup-insert_self key text w));
  put_other = λ key other text text' w apart held. rw (put_lem other text' w) (
      held_of_lookup key text (insert other text' w) (
        ground (
          arith,
          lookup-insert other key text' w,
          same_iff other key,
          apart,
          lookup_of_get key text w held,
        )));
}

abbrev a_directed : Campaign
a_directed = record a_campaign {
  tools = lit "juggler_status" ∷ lit "juggler_audit_log" ∷ [];
  guardrails = record a_campaign.guardrails { ai_api_budget = some (pos 3) };
}

-- A gateway that answers everything with two bytes, and counts its calls.
abbrev two_bytes : Net ℕ
two_bytes = record {
  transport = record {
    new_request = λ q. none;
    send = λ q w. (ok (record { status_code = 200; body = lit "{}"; read_error = none }), w + 1);
  };
  ctx_err = λ w. (none, w);
  ticks = λ w. 3;
  marshal_call = λ q. ok [];
  marshal_campaign = λ c run_id. ok run_id;
  unmarshal_response = parsed;
  decode_status = λ r. none;
}

two_at_most :
    (tool : Text) (w : ℕ)
    → size (call_tool two_bytes [] tool (direct_args two_bytes a_directed (lit "r")) w).0 ≤ 2
unfolding call_tool lit
two_at_most tool w = omega arith

dispatch_direct-capped_example :
    (used : ℕ) × ((dispatch_direct two_bytes [] a_directed (lit "r") 0).0.tokens_used ≡ pos used)
    × (used < 3 + 2)
unfolding max_bytes_of
dispatch_direct-capped_example =
    dispatch_direct-capped two_bytes [] (lit "r") a_directed 3 2 0 refl (omega arith) two_at_most

-- Both tools are called, since the second starts below the budget.
direct_success :
    (classify none (dispatch_direct two_bytes [] a_directed (lit "r") 0).0.error).0 ≡ lit "success"
unfolding classify dispatch_direct
direct_success = refl

abbrev no_secrets : Dict Text
no_secrets = []

abbrev after_store : Dict Text
after_store =
    insert (history_key a_campaign a_found) (lit "{}")
      (insert (latest_key a_campaign) (lit "{}") no_secrets)

stored_once : store_result secrets codecs [] a_campaign a_found no_secrets ≡ (none, after_store)
unfolding store_result
stored_once = refl

keys_apart : history_key a_campaign a_found ≢ latest_key a_campaign
unfolding lit
keys_apart e = ground (arith, e)

get_previous_findings-store_result_example :
    (get_previous_findings secrets codecs [] a_campaign after_store).0 ≡ a_finding ∷ []
get_previous_findings-store_result_example =
    get_previous_findings-store_result secrets codecs [] a_campaign a_found no_secrets after_store
      secrets-IsStore refl refl keys_apart stored_once

abbrev github : GitHubCodecs
github = record {
  marshal_issue = λ title body labels. ok title;
  marshal_comment = λ comment. comment;
  marshal_state = λ state. state;
  decode_search = λ r. ok [];
  decode_issue = λ r. err (lit "not an issue");
}

abbrev handler : FeedbackHandler
handler = record { token = []; base_url = [] }

abbrev closing : Campaign
closing = record a_campaign {
  feedback = record a_campaign.feedback { create_issues = true; close_resolved_issues = true };
}

abbrev no_pull_requests : Campaign → List Finding → Dict Text → Option Text × Dict Text
no_pull_requests c fs w = (none, w)

abbrev with_collector : Services (Dict Text)
with_collector = record {
  dispatcher = none;
  collector = some (collector secrets codecs []);
  feedback = some (feedback secrets github handler no_pull_requests);
  publisher = none;
  on_result = none;
  refresh_tokens = λ w. w;
  now = λ w. (0, w);
  ctx_err = λ w. (none, w);
  rfc3339 = λ t. [];
}

give_feedback-store_result_example :
    let w1 = (get_previous_findings secrets codecs [] closing after_store).1 in
    give_feedback with_collector
      (some (feedback secrets github handler no_pull_requests))
      closing
      a_found
      after_store
    ≡ (process_findings secrets github handler closing (a_finding ∷ []) [] w1).1
unfolding store_result
give_feedback-store_result_example =
    give_feedback-store_result secrets github handler codecs [] with_collector no_pull_requests
      closing a_found no_secrets after_store refl secrets-IsStore refl refl keys_apart refl refl
      stored_once

abbrev seen_on_remotely : Scheduler
seen_on_remotely = record {
  registry = [];
  completed_runs = [];
  kill_switch_active_since = some 100;
}

no_answer :
    setec_get secrets codecs [] kill_key no_secrets
    ≡ (err (lit "gateway returned 500: "), no_secrets)
unfolding call_tool lookup
no_answer = refl

run_campaign_unreachable_example :
    let (error, w'') = execute with_collector closing (run_id_of closing.id 0) no_secrets in
    run_campaign with_collector closing seen_on_remotely no_secrets
    ≡ (error, record seen_on_remotely { kill_switch_active_since = none }, w'')
run_campaign_unreachable_example =
    run_campaign_unreachable secrets codecs [] with_collector closing seen_on_remotely no_secrets
      refl no_answer
