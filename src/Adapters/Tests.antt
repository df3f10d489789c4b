-- ===== src/Adapters/Tests.antt =====
-- The theorems on the adapters, at concrete inputs.
use remote_juggler.Prelude.{
  ℕ, ◌+◌, ◌≡◌, refl, true, false, Option, none, some, List, [], ◌∷◌, ◌++◌, map, length, keep, ◌==◌,
  nat_eq, if◌then◌else◌,
}
use remote_juggler.Text.{
  Text, lit, print, text_eq, same, trim_space, trim_left, trim_right, is_space,
}
use remote_juggler.Result.{ok}
use remote_juggler.Http.{Transport}
use remote_juggler.Runner.Campaign.{is_nil}
use remote_juggler.Runner.Dispatcher.{agent_result}
use remote_juggler.Runner.Scheduler.{classify}
use remote_juggler.Adapters.Protocol.{Finding, LastResult, AgentCampaign, extract_findings, stamp}
use remote_juggler.Adapters.Protocol.Findings.{extract_findings-block}
use remote_juggler.Adapters.Adapter.{CampaignRequest}
use remote_juggler.Adapters.Adapter.Reach.{
  System, Reach, Inv, Reach-Inv, begin, answer, request, start, later,
}
use remote_juggler.Adapters.Hexstrike
use remote_juggler.Adapters.Hexstrike.Trace.{Reports, dispatch-Reports}
use remote_juggler.Adapters.Tinyclaw
use remote_juggler.Adapters.Tinyclaw.Outcomes.{failure_unseen, seen}
use remote_juggler.Adapters.Ironclaw
use remote_juggler.Adapters.Ironclaw.{OutputItem, plain, other, traced}
use remote_juggler.Adapters.Ironclaw.Calls.{is_call, calls_at, response_result-trace}

abbrev a_request : CampaignRequest
a_request = record { campaign = lit "{}"; run_id = lit "r1" }

-- Two requests come in, of which the first is accepted.
abbrev two_requests : System
two_requests = answer (lit "POST") (ok a_request) (answer (lit "POST") (ok a_request) begin)

reached : Reach two_requests
reached =
    later (later start (request (lit "POST") (ok a_request))) (request (lit "POST") (ok a_request))

Reach-Inv_example : Inv two_requests
Reach-Inv_example = Reach-Inv reached

abbrev a_finding : Finding
a_finding = record {
  title = lit "Old key";
  body = [];
  severity = lit "low";
  labels = [];
  campaign_id = [];
  run_id = [];
  fingerprint = lit "k1";
}

-- A decoder that knows one text.
abbrev knows : Text → Option (List Finding)
knows s = if s == lit "[k1]" then some (a_finding ∷ []) else none

extract_findings-block_example :
    extract_findings knows
      (lit "Done: "
        ++ (lit "__findings__" ++ (lit "[k1]" ++ (lit "__end_findings__" ++ lit " bye"))))
      (lit "c1")
      (lit "r1")
    ≡ map (stamp (lit "c1") (lit "r1")) (a_finding ∷ [])
unfolding lit trim_space trim_left trim_right is_space same
extract_findings-block_example =
    extract_findings-block knows (lit "Done: ") (lit "[k1]") (lit " bye") (lit "c1") (lit "r1")
      (a_finding ∷ []) (refl, (refl, (refl, (refl, (refl, refl))))) (refl, (refl, (refl, refl)))
      refl refl

abbrev a_campaign : AgentCampaign
a_campaign = record {
  id = lit "c1";
  name = lit "Scan";
  description = [];
  process = lit "Look" ∷ [];
  tools = lit "nmap_scan" ∷ lit "juggler_status" ∷ [];
  mode = [];
  model = [];
  targets = [];
  max_duration = [];
  read_only = true;
  success_criteria = [];
  kpis = [];
  setec_key = [];
}

-- A world of one counter, in which every request is answered.
abbrev answering : Transport ℕ
answering = record {
  new_request = λ q. none;
  send = λ q w. (ok (record { status_code = 200; body = lit "{}"; read_error = none }), w + 1);
}

abbrev hexstrike_codecs : Hexstrike.Codecs
hexstrike_codecs = record {
  unmarshal_campaign = λ s. ok a_campaign;
  marshal_call = λ tool args. ok tool;
  unmarshal_answer = λ s. some (record { result = lit "3 ports"; error = [] });
  unmarshal_contents = λ s. none;
  unmarshal_findings = knows;
}

abbrev a_clock : ℕ → Text × ℕ
a_clock w = (lit "now", w)

dispatch-Reports_example :
    (r : LastResult) × ((Hexstrike.dispatch answering hexstrike_codecs a_clock
        (lit "http://h")
        (lit "{}")
        (lit "r1")
        0).0
      ≡ ok r)
    × Reports a_campaign.tools r
dispatch-Reports_example =
    dispatch-Reports answering hexstrike_codecs a_clock (lit "http://h") (lit "{}") (lit "r1") 0
      a_campaign refl

abbrev no_files : Tinyclaw.Files
no_files = record {
  read_dir = λ dir. none;
  read_file = λ path. none;
  skill_path = λ dir name. name;
}

abbrev tinyclaw_codecs : Tinyclaw.Codecs
tinyclaw_codecs = record {
  unmarshal_campaign = λ s. ok a_campaign;
  marshal_payload = λ content key channel. ok content;
  unmarshal_response = λ s. none;
  unmarshal_findings = knows;
  to_lower = λ s. s;
}

-- The agent gave up without a word.
abbrev gave_up : Tinyclaw.DispatchResponse
gave_up = record { content = []; finish_reason = lit "error"; error = [] }

failure_unseen_example :
    let r =
      Tinyclaw.response_result answering no_files tinyclaw_codecs
        (lit "http://t")
        []
        a_campaign
        (lit "r1")
        (some gave_up) in
    (r.status ≡ lit "failure") × (classify none (agent_result (seen r)).error ≡ (lit "success", []))
failure_unseen_example =
    failure_unseen answering no_files tinyclaw_codecs (lit "http://t") [] a_campaign (lit "r1")
      gave_up refl refl

abbrev ironclaw_codecs : Ironclaw.Codecs
ironclaw_codecs = record {
  unmarshal_campaign = λ s. ok a_campaign;
  ping = lit "{}";
  marshal_payload = λ model content. ok content;
  unmarshal_response = λ s. none;
  unmarshal_findings = knows;
  to_lower = λ s. s;
}

abbrev an_output : List OutputItem
an_output =
    record { kind = lit "function_call"; name = lit "exec"; args = lit "ls"; content = other }
    ∷ record { kind = lit "message"; name = []; args = []; content = plain (lit "done") }
    ∷ []

response_result-trace_example :
    let r =
      Ironclaw.response_result answering ironclaw_codecs
        (lit "http://i")
        []
        (λ i. print i)
        a_campaign
        (lit "r1")
        (some an_output) in
    (r.tool_trace ≡ calls_at (λ i. print i) an_output)
    × (is_nil (keep is_call an_output) ≡ false → r.tool_calls ≡ length (keep is_call an_output))
response_result-trace_example =
    response_result-trace answering ironclaw_codecs (lit "http://i") [] (λ i. print i) a_campaign
      (lit "r1") an_output
