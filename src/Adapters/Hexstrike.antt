-- ===== src/Adapters/Hexstrike.antt =====
-- The backend of deploy/adapters/hexstrike.go: the tools of a campaign are called one by one.
pub mod Trace
use remote_juggler.Prelude.{
  ℕ, ◌+◌, Bool, true, false, Option, none, some, List, [], ◌∷◌, ◌++◌, not, ◌&&◌, ◌||◌, keep, map,
  length, ◌==◌, nat_eq, if◌then◌else◌,
}
use remote_juggler.Text.{Text, lit, text_eq, is_empty, has_prefix, join, print}
use remote_juggler.Dict.{Dict}
use remote_juggler.Result.{Result, ok, err, ◌>>=◌, wrap}
use remote_juggler.Http.{HttpRequest, HttpResponse, Transport, exchange, read_all}
use remote_juggler.Adapters.Protocol.{
  Finding, ToolTrace, LastResult, Target, AgentCampaign, AgentBackend, truncate, extract_findings,
}

-- The answer of the MCP server: the raw result, and the error.
pub record McpAnswer : Type 0 where
  pub result : Text
  pub error : Text

-- A content of a tool's result: its type and its text.
pub record McpContent : Type 0 where
  pub type : Text
  pub text : Text

-- The uses of encoding/json; `none` is an error. The arguments of a call are texts.
pub record Codecs : Type 0 where
  pub unmarshal_campaign : Text → Result AgentCampaign
  pub marshal_call : Text → Dict Text → Result Text
  pub unmarshal_answer : Text → Option McpAnswer
  pub unmarshal_contents : Text → Option (List McpContent)
  pub unmarshal_findings : Text → Option (List Finding)

-- The locals of `Dispatch`
pub record Progress : Type 0 where
  pub trace : List ToolTrace
  pub last_err : Text
  pub output : Text

abbrev pub no_progress : Progress
no_progress = record { trace = []; last_err = []; output = [] }

-- A tool of the gateway, which is not called.
abbrev pub is_gateway_tool : Text → Bool
is_gateway_tool tool = has_prefix tool (lit "juggler_") || has_prefix tool (lit "github_")

abbrev entry : Text → Text → Text → Bool → ToolTrace
entry ts tool summary is_error = record {
  timestamp = ts;
  tool = tool;
  summary = summary;
  is_error = is_error;
}

abbrev pub noted : ToolTrace → Progress → Progress
noted e p = record p { trace = p.trace ++ (e ∷ []) }

-- What a call that was made adds to the progress.
unfoldable pub called : Text → Text → Result Text → Progress → Progress
unfolding lit truncate
called ts tool (err e) p = record (noted (entry ts tool (lit "error: " ++ e) true) p) {
  last_err = e;
}
called ts tool (ok r) p =
    if is_empty r
    then noted (entry ts tool (lit "ok") false) p
    else record (noted (entry ts tool (truncate r 200) false) p) {
      output = p.output ++ (r ++ (10 ∷ []));
    }

abbrev pub target_args : List Target → Dict Text
target_args [] = []
target_args (t ∷ ts) = (lit "target", t.org ++ (lit "/" ++ t.repo)) ∷ []

abbrev texts_of : Text → List Text → Text
texts_of raw [] = raw
texts_of raw (t ∷ ts) = join 10 (t ∷ ts)

module _ {W : Type 0} (t : Transport W) (j : Codecs) (clock : W → Text × W) (agent_url : Text) where
  abbrev content_text : Text → Option (List McpContent) → Text
  content_text raw none = raw
  content_text raw (some cs) =
      texts_of raw
        (map (λ c. c.text) (keep (λ c. c.type == lit "text" && not (is_empty c.text)) cs))

  abbrev pub answer_text : Text → Option McpAnswer → Result Text
  answer_text body none = ok body
  answer_text body (some a) =
      if not (is_empty a.error)
      then err (lit "hexstrike error: " ++ a.error)
      else ok (content_text a.result (j.unmarshal_contents a.result))

  abbrev pub status_checked : HttpResponse → Text → Result Text
  status_checked r body =
      if r.status_code == 200
      then answer_text body (j.unmarshal_answer body)
      else err
          (lit "hexstrike returned " ++ (print r.status_code ++ (lit ": " ++ truncate body 500)))

  abbrev pub read_answer : Result HttpResponse × W → Result Text × W
  read_answer (o, w) =
      ((o >>= λ r. read_all (λ e. lit "read: " ++ e) r >>= λ body. status_checked r body), w)

  abbrev pub call_request : Text → HttpRequest
  call_request body = record {
    method = lit "POST";
    url = agent_url ++ lit "/mcp";
    headers =
        (lit "Content-Type", lit "application/json")
        ∷ (lit "Tailscale-User-Login", lit "hexstrike-ai-agent@fuzzy-dev")
        ∷ [];
    body = body;
  }

  -- `callMCPTool`
  unfoldable pub call_mcp_tool : Text → Dict Text → W → Result Text × W
  unfolding lit print truncate join
  call_mcp_tool tool args w = elim (j.marshal_call tool args) [
    | err e ↦ (err (lit "marshal: " ++ e), w)
    | ok body ↦ read_answer (
        exchange t (λ e. lit "request: " ++ e) (λ e. lit "hexstrike mcp: " ++ e) (call_request body)
          w)
  ]

  -- One round of the loop over the tools.
  unfoldable pub run_tool : Dict Text → Text → Progress → W → Progress × W
  unfolding lit has_prefix called call_mcp_tool
  run_tool args tool p w =
      let (ts, w1) = clock w in
      if is_gateway_tool tool
      then (noted (entry ts tool (lit "skipped (gateway tool)") false) p, w1)
      else (let (o, w2) = call_mcp_tool tool args w1 in (called ts tool o p, w2))

  unfoldable pub run_tools : Dict Text → List Text → Progress → W → Progress × W
  unfolding run_tool
  run_tools args [] p w = (p, w)
  run_tools args (tool ∷ tools) p w =
      let (p', w') = run_tool args tool p w in run_tools args tools p' w'

  abbrev pub result_of : Text → Text → Progress → LastResult
  result_of campaign_id run_id p = record {
    status = if is_empty p.last_err then lit "success" else lit "failure";
    tool_calls = length p.trace;
    kpis = [];
    tool_trace = p.trace;
    findings = extract_findings j.unmarshal_findings p.output campaign_id run_id;
    error = p.last_err;
  }

  -- `Dispatch`
  unfoldable pub dispatch : Text → Text → W → Result LastResult × W
  unfolding lit run_tools extract_findings
  dispatch campaign run_id w = elim (j.unmarshal_campaign campaign) [
    | err e ↦ (err (lit "parse campaign: " ++ e), w)
    | ok c ↦
        let (p, w') = run_tools (target_args c.targets) c.tools no_progress w in
        (ok (result_of c.id run_id p), w')
  ]

  abbrev health_answer : Result HttpResponse × W → Option Text × W
  health_answer (err e, w) = (some e, w)
  health_answer (ok r, w) = (
    if r.status_code == 200 then none else some (lit "hexstrike health: " ++ print r.status_code),
    w,
  )

  -- `Health`
  unfoldable pub health : W → Option Text × W
  unfolding lit print
  health w = health_answer (
      exchange t (λ e. e) (λ e. e)
        (record { method = lit "GET"; url = agent_url ++ lit "/health"; headers = []; body = [] })
        w)

  abbrev pub hexstrike_backend : AgentBackend W
  hexstrike_backend = record {
    dispatch = dispatch;
    health = health;
    type_name = lit "hexstrike-ai";
  }
