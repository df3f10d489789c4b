-- ===== src/Adapters/Ironclaw.antt =====
-- The backend of deploy/adapters/ironclaw.go: one request to `/v1/responses`, whose output items are
-- the calls and the messages of the agent.
pub mod Calls
use remote_juggler.Prelude.{
  ℕ, zero, suc, ◌+◌, Bool, true, false, Option, none, some, List, [], ◌∷◌, ◌++◌, not, ◌||◌, ◌&&◌,
  ◌==◌, nat_eq, length, if◌then◌else◌,
}
use remote_juggler.Text.{Text, lit, text_eq, is_empty, print}
use remote_juggler.Dict.{Dict}
use remote_juggler.Result.{Result, ok, err, ◌>>=◌}
use remote_juggler.Http.{HttpRequest, HttpResponse, Transport, exchange, read_all, as_json}
use remote_juggler.Runner.Campaign.{is_nil}
use remote_juggler.Adapters.Protocol.{
  Finding, ToolTrace, LastResult, AgentCampaign, AgentBackend, extract_findings, truncate,
}
use remote_juggler.Adapters.Prompt.{
  newline, heading, targets_part, process_part, tool_lines, constraints_part, criteria_part,
  findings_instruction, count_tool_references,
}

-- `Content` of an output item: a text, an array with the `text` of each part that has one, or anything
-- else.
pub data Content : Type 0 where
  plain : Text → Content
  parts : List (Option Text) → Content
  other : Content

-- An item of `output`
pub record OutputItem : Type 0 where
  pub kind : Text
  pub name : Text
  pub args : Text
  pub content : Content

-- The uses of encoding/json, and `strings.ToLower`. The payload has the model and the content of the
-- one message.
pub record Codecs : Type 0 where
  pub unmarshal_campaign : Text → Result AgentCampaign
  pub ping : Text
  pub marshal_payload : Text → Text → Result Text
  pub unmarshal_response : Text → Option (List OutputItem)
  pub unmarshal_findings : Text → Option (List Finding)
  pub to_lower : Text → Text

-- The trace and the text that `Dispatch` collects from the output.
pub record Collected : Type 0 where
  pub trace : List ToolTrace
  pub text : Text

abbrev exec_tools_part : List Text → Text
exec_tools_part tools =
    if is_nil tools
    then []
    else lit "## Available Tools"
      ++ (newline
          ++ (lit
                "Call tools via the exec command: `exec(\"/workspace/bin/rj-tool <tool_name> key=value ...\")`"
              ++ (newline ++ (newline ++ (tool_lines tools ++ newline)))))

abbrev kpi_lines : List Text → Text
kpi_lines [] = []
kpi_lines (kpi ∷ kpis) = lit "- " ++ (kpi ++ (newline ++ kpi_lines kpis))

abbrev kpis_part : List Text → Text
kpis_part kpis =
    if is_nil kpis then [] else lit "## KPIs to Track" ++ (newline ++ (kpi_lines kpis ++ newline))

abbrev output_part : Text → Text
output_part key =
    if is_empty key
    then []
    else lit "## Output"
      ++ (newline
          ++ (lit "Store results via: `exec(\"/workspace/bin/rj-tool juggler_setec_put name="
              ++ (key ++ (lit " value=<JSON>\")`" ++ (newline ++ newline)))))

-- The prompt that `Dispatch` builds.
unfoldable pub prompt : AgentCampaign → Text → Text
unfolding lit print findings_instruction
prompt c run_id =
    heading c run_id
    ++ (targets_part c.targets
        ++ (process_part c.process
            ++ (exec_tools_part c.tools
                ++ (constraints_part c
                    ++ (criteria_part c.success_criteria
                        ++ (kpis_part c.kpis
                            ++ (output_part c.setec_key ++ findings_instruction)))))))

abbrev append_parts : Text → List (Option Text) → Text
append_parts text [] = text
append_parts text (none ∷ ps) = append_parts text ps
append_parts text (some t ∷ ps) = append_parts (text ++ t) ps

abbrev pub message_text : Text → Content → Text
message_text text (plain v) = v
message_text text (parts v) = append_parts text v
message_text text other = text

abbrev pub traced : Text → OutputItem → ToolTrace
traced now item = record {
  timestamp = now;
  tool = item.name;
  summary = truncate item.args 200;
  is_error = false;
}

-- One item of the output, at the time given.
abbrev pub collect_item : Text → OutputItem → Collected → Collected
collect_item now item s =
    if item.kind == lit "function_call"
    then record s { trace = s.trace ++ (traced now item ∷ []) }
    else if item.kind == lit "message"
    then record s { text = message_text s.text item.content }
    else s

-- The loop over the output, with the times that it reads, one for each item.
unfoldable pub collect : (ℕ → Text) → List OutputItem → Collected → Collected
unfolding lit truncate
collect now [] s = s
collect now (item ∷ items) s = collect (λ i. now (suc i)) items (collect_item (now 0) item s)

abbrev pub nothing : Collected
nothing = record { trace = []; text = [] }

abbrev failure : Text → LastResult
failure e = record {
  status = lit "failure";
  tool_calls = 0;
  kpis = [];
  tool_trace = [];
  findings = [];
  error = e;
}

abbrev success : ℕ → List ToolTrace → List Finding → LastResult
success calls trace fs = record {
  status = lit "success";
  tool_calls = calls;
  kpis = [];
  tool_trace = trace;
  findings = fs;
  error = [];
}

-- `setAuth`
abbrev pub set_auth : Text → Dict Text → Dict Text
set_auth token headers =
    if is_empty token
    then headers
    else headers ++ ((lit "Authorization", lit "Bearer " ++ token) ∷ [])

-- The calls reported: those of the trace, or, if there are none, the tools that the text mentions.
unfoldable pub tool_calls_of : (Text → Text) → List Text → Collected → ℕ
unfolding count_tool_references
tool_calls_of to_lower tools s =
    if length s.trace == 0 && not (is_empty s.text)
    then count_tool_references to_lower s.text tools
    else length s.trace

-- `now` are the times that the loop reads, one for each item of the output.
module _ {W : Type 0} (t : Transport W) (j : Codecs) (agent_url auth_token : Text)
    (now : ℕ → Text) where
  -- The part of `Dispatch` after the response's decoding.
  unfoldable pub response_result : AgentCampaign → Text → Option (List OutputItem) → LastResult
  unfolding lit extract_findings tool_calls_of collect
  response_result c run_id none = success 0 [] []
  response_result c run_id (some items) =
      let s = collect now items nothing in
      success (tool_calls_of j.to_lower c.tools s) s.trace
        (extract_findings j.unmarshal_findings s.text c.id run_id)

  abbrev status_checked : AgentCampaign → Text → HttpResponse → Text → LastResult
  status_checked c run_id r body =
      if r.status_code == 200
      then response_result c run_id (j.unmarshal_response body)
      else failure
          (lit "ironclaw returned " ++ (print r.status_code ++ (lit ": " ++ truncate body 500)))

  abbrev read_response : AgentCampaign → Text → Result HttpResponse × W → Result LastResult × W
  read_response c run_id (o, w) = (
    (o >>= λ r. read_all (λ e. lit "read response: " ++ e) r >>= λ body.
        ok (status_checked c run_id r body)),
    w,
  )

  abbrev model_of : AgentCampaign → Text
  model_of c = if is_empty c.model then lit "openclaw" else c.model

  abbrev post_responses : AgentCampaign → Text → W → Result LastResult × W
  post_responses c run_id w = elim (j.marshal_payload (model_of c) (prompt c run_id)) [
    | err e ↦ (err (lit "marshal payload: " ++ e), w)
    | ok body ↦ read_response c run_id (
        exchange t (λ e. lit "create request: " ++ e) (λ e. lit "ironclaw responses: " ++ e)
          (record {
            method = lit "POST";
            url = agent_url ++ lit "/v1/responses";
            headers = set_auth auth_token as_json;
            body = body;
          })
          w)
  ]

  -- `Dispatch`
  unfoldable pub dispatch : Text → Text → W → Result LastResult × W
  unfolding lit print prompt response_result truncate
  dispatch campaign run_id w = elim (j.unmarshal_campaign campaign) [
    | err e ↦ (err (lit "parse campaign: " ++ e), w)
    | ok c ↦ post_responses c run_id w
  ]

  abbrev checked_health : Result HttpResponse × W → Option Text × W
  checked_health (err e, w) = (some e, w)
  checked_health (ok r, w) = (
    if r.status_code == 200 || r.status_code == 401
        then none
        else some (lit "ironclaw health: " ++ print r.status_code),
    w,
  )

  -- `Health`
  unfoldable pub health : W → Option Text × W
  unfolding lit print
  health w = checked_health (
      exchange t (λ e. e) (λ e. e)
        (record {
          method = lit "POST";
          url = agent_url ++ lit "/v1/chat/completions";
          headers = set_auth auth_token as_json;
          body = j.ping;
        })
        w)

  abbrev pub ironclaw_backend : AgentBackend W
  ironclaw_backend = record { dispatch = dispatch; health = health; type_name = lit "ironclaw" }
