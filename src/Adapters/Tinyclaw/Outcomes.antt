-- ===== src/Adapters/Tinyclaw/Outcomes.antt =====
-- What TinyClaw's answers come to, in the adapter and in the runner.
use remote_juggler.Prelude.{
  ◌≤◌, ◌≡◌, refl, ◌⊎◌, inl, inr, true, false, not, ◌||◌, Option, none, some, List, [], ◌∷◌, map,
  length, ◌==◌, nat_eq, arith, Bool-cases,
}
use remote_juggler.Prelude.Int.{pos}
use remote_juggler.Text.{Text, lit, text_eq, same_iff, is_empty, contains}
use remote_juggler.Runner.Campaign
use remote_juggler.Runner.Dispatcher.Http
use remote_juggler.Runner.Dispatcher.{agent_result}
use remote_juggler.Runner.Scheduler.{classify, is_budget_error}
use remote_juggler.Http.{Transport}
use remote_juggler.Adapters.Protocol.{LastResult, Finding, ToolTrace, AgentCampaign}
use remote_juggler.Adapters.Prompt.{count_tool_references}
use remote_juggler.Adapters.Tinyclaw.{Files, Codecs, DispatchResponse, response_result}

count_tool_references-le :
    (to_lower : Text → Text) (content : Text) (tools : List Text)
    → count_tool_references to_lower content tools ≤ length tools
unfolding count_tool_references
count_tool_references-le to_lower content [] = omega arith
count_tool_references-le to_lower content (tool ∷ tools) =
    ground (arith, count_tool_references-le to_lower content tools)

-- The findings and the trace as the runner decodes them: the fields that an adapter does not write are
-- empty.
abbrev seen_finding : Finding → Campaign.Finding
seen_finding f = record {
  title = f.title;
  body = f.body;
  severity = f.severity;
  labels = f.labels;
  campaign_id = f.campaign_id;
  run_id = f.run_id;
  fingerprint = f.fingerprint;
  fixable = false;
  remediation_type = [];
  remediation_hints = none;
}

abbrev seen_trace : ToolTrace → Campaign.ToolTraceEntry
seen_trace e = record {
  timestamp = e.timestamp;
  tool = e.tool;
  summary = e.summary;
  is_error = e.is_error;
}

-- The final status of an adapter with this result, as the runner decodes it.
abbrev pub seen : LastResult → Http.AgentStatus
seen r = record {
  status = lit "completed";
  last_result = some (record {
    status = r.status;
    tool_calls = pos r.tool_calls;
    kpis = r.kpis;
    tool_trace = map seen_trace r.tool_trace;
    findings = map seen_finding r.findings;
    error = r.error;
  });
}

module _ {W : Type 0} (t : Transport W) (fs : Files) (j : Codecs) (url dir : Text) where
  -- What TinyClaw's response, decoded or not, is counted as: a success with at most as many calls as the
  -- campaign has tools and no error, or a failure with the error of the response and no calls.
  abbrev pub Outcome : AgentCampaign → Option DispatchResponse → LastResult → Type 0
  Outcome c none r = (r.status ≡ lit "success") × (r.tool_calls ≡ 0)
  Outcome c (some a) r =
      ((r.status ≡ lit "success") × (is_empty r.error ≡ true) × (r.tool_calls ≤ length c.tools))
      ⊎ ((r.status ≡ lit "failure") × (r.error ≡ a.error) × (r.tool_calls ≡ 0))

  pub response_result-Outcome :
      (c : AgentCampaign) (run_id : Text) (a : Option DispatchResponse)
      → Outcome c a (response_result t fs j url dir c run_id a)
  unfolding response_result
  response_result-Outcome c run_id none = (refl, refl)
  response_result-Outcome c run_id (some a) =
      elim (Bool-cases (a.finish_reason == lit "error" || not (is_empty a.error))) [
        | inl bad ↦ rw bad (inr (refl, refl, refl))
        | inr good ↦
            rw good (inl (refl, refl, count_tool_references-le j.to_lower a.content c.tools))
      ]

  -- If TinyClaw ends with `error` and no error text, the adapter reports a failure, and the runner,
  -- which looks at the error only, counts it as a success unless its context is done.
  pub failure_unseen :
      (c : AgentCampaign) (run_id : Text) (a : DispatchResponse)
      → a.finish_reason ≡ lit "error"
      → a.error ≡ []
      → let r = response_result t fs j url dir c run_id (some a) in
        (r.status ≡ lit "failure")
        × (classify none (agent_result (seen r)).error ≡ (lit "success", []))
  unfolding response_result agent_result classify is_budget_error contains lit
  failure_unseen c run_id a reason quiet =
      let bad : (a.finish_reason == lit "error") ≡ true =
        (same_iff a.finish_reason (lit "error")).1 reason in
      rw (bad, quiet) (refl, refl)
