-- ===== src/Runner/Dispatcher.antt =====
-- The dispatcher of test/campaigns/runner/dispatcher.go: a campaign goes to its agent, which is
-- polled until it is done, or its tools are called one by one through the gateway. The sums of bytes
-- and of calls are of data received in one run, and stay within an `int`.
pub mod Http
pub mod Budget
pub mod Polling
use remote_juggler.Prelude.{
  ℕ, zero, suc, ◌+◌, Bool, true, false, Option, none, some, List, [], ◌∷◌, ◌++◌, not, ◌&&◌, ◌||◌,
  ltb, leb, length, ◌==◌, nat_eq, if◌then◌else◌,
}
use remote_juggler.Prelude.Int.{ℤ, pos, negsuc}
use remote_juggler.Text.{Text, lit, text_eq, is_empty, print, print_int}
use remote_juggler.Dict.{Dict}
use remote_juggler.Result.{Result, ok, err, ◌>>=◌, wrap}
use remote_juggler.Runner.Campaign.{Campaign, DispatchResult}
use remote_juggler.Http.{HttpRequest, HttpResponse, exchange}
use remote_juggler.Runner.Dispatcher.Http.{McpRequest, McpResponse, AgentStatus, Net}

pub record Dispatcher : Type 0 where
  pub gateway_url : Text
  pub ironclaw_url : Text
  pub tinyclaw_url : Text
  pub hexstrike_ai_url : Text

abbrev pub dispatch_error : Text → DispatchResult
dispatch_error e = record {
  tool_calls = pos 0;
  tokens_used = pos 0;
  kpis = [];
  tool_trace = [];
  findings = [];
  error = e;
}

-- The result for an agent that has finished.
unfoldable pub agent_result : AgentStatus → DispatchResult
agent_result s = elim s.last_result [
  | none ↦ dispatch_error []
  | some l ↦ record {
    tool_calls = l.tool_calls;
    tokens_used = pos 0;
    kpis = l.kpis;
    tool_trace = l.tool_trace;
    findings = l.findings;
    error = l.error;
  }
]

-- `aiApiBudget.maxTokens` as a cap on bytes; 0 is no cap.
unfoldable pub max_bytes_of : Option ℤ → ℕ
max_bytes_of (some (pos n)) = n
max_bytes_of _ = 0

abbrev pub tool_request : Text → Dict Text → McpRequest
tool_request tool args = record {
  jsonrpc = lit "2.0";
  id = pos 1;
  method = lit "tools/call";
  params = record { name = tool; arguments = args };
}

abbrev pub size : Result Text → ℕ
size (ok s) = length s
size (err e) = 0

-- The result of `dispatchDirect` after a number of calls and of bytes, with an error.
abbrev pub direct_result : ℕ → ℕ → Text → DispatchResult
direct_result calls total e = record (dispatch_error e) {
  tool_calls = pos calls;
  tokens_used = pos total;
}

abbrev pub cancelled_error : ℕ → Text
cancelled_error calls = lit "context cancelled after " ++ (print calls ++ lit " tool calls")

abbrev pub budget_error : ℕ → ℕ → Text
budget_error total max =
    lit "budget exceeded: " ++ (print total ++ (lit "/" ++ (print max ++ lit " tokens used")))

module _ {W : Type 0} (n : Net W) where
  abbrev response_result : McpResponse → Result Text
  response_result r = elim r.error [
    | none ↦ ok r.result
    | some e ↦ err (lit "MCP error " ++ (print_int e.code ++ (lit ": " ++ e.message)))
  ]

  -- The part of `callTool` that reads the response.
  abbrev read_response : HttpResponse → Result Text
  read_response r = elim r.read_error [
    | some e ↦ err (lit "read response: " ++ e)
    | none ↦
        if r.status_code == 200
        then (wrap (λ e. lit "unmarshal response: " ++ e) (n.unmarshal_response r.body) >>= λ m.
            response_result m)
        else err (lit "gateway returned " ++ (print r.status_code ++ (lit ": " ++ r.body)))
  ]

  abbrev answered : Result HttpResponse × W → Result Text × W
  answered (o, w) = ((o >>= λ r. read_response r), w)

  -- `callTool`, of a dispatcher with this gateway URL
  unfoldable pub call_tool : Text → Text → Dict Text → W → Result Text × W
  unfolding lit print print_int
  call_tool gateway_url tool args w = elim (n.marshal_call (tool_request tool args)) [
    | err e ↦ (err (lit "marshal request: " ++ e), w)
    | ok body ↦ answered (
        exchange n.transport (λ e. lit "create request: " ++ e) (λ e. lit "send request: " ++ e)
          (record {
            method = lit "POST";
            url = gateway_url ++ lit "/mcp";
            headers =
                (lit "Content-Type", lit "application/json")
                ∷ (lit "X-Agent-Identity", lit "campaign-runner")
                ∷ [];
            body = body;
          })
          w)
  ]

  abbrev health : Result HttpResponse × W → Option Text × W
  health (err e, w) = (some e, w)
  health (ok r, w) = (
    if r.status_code == 200 then none else some (lit "health returned " ++ print r.status_code),
    w,
  )

  -- `checkAgentHealth`: its error.
  unfoldable pub check_agent_health : Text → W → Option Text × W
  unfolding lit print
  check_agent_health url w = health (
      exchange n.transport (λ e. e) (λ e. e)
        (record { method = lit "GET"; url = url ++ lit "/health"; headers = []; body = [] }) w)

  -- The status that ends the polling: one that can be got and decoded, and is not `running`.
  abbrev pub final_status : Result HttpResponse → Option AgentStatus
  final_status (err e) = none
  final_status (ok r) = elim (n.decode_status r) [
    | none ↦ none
    | some s ↦ if s.status == lit "running" then none else some s
  ]

  abbrev pub ask_status : Text → W → Result HttpResponse × W
  ask_status url w =
      exchange n.transport (λ e. e) (λ e. e)
        (record { method = lit "GET"; url = url ++ lit "/status"; headers = []; body = [] }) w

  -- `pollAgentStatus`, with the number of ticks that come before the context is done.
  unfoldable pub poll_agent_status : Text → ℕ → W → DispatchResult × W
  unfolding lit agent_result
  poll_agent_status url zero w = (dispatch_error (lit "context expired while waiting for agent"), w)
  poll_agent_status url (suc ticks) w =
      let (o, w') = ask_status url w in
      elim (final_status o) [
        | none ↦ poll_agent_status url ticks w'
        | some s ↦ (agent_result s, w')
      ]

  abbrev polled : DispatchResult × W → Result DispatchResult × W
  polled (r, w) = (ok r, w)

  abbrev posted : Text → Result HttpResponse × W → Result DispatchResult × W
  posted url (err e, w) = (err e, w)
  posted url (ok r, w) =
      if not (r.status_code == 202) && not (r.status_code == 200)
      then (err (lit "agent returned " ++ (print r.status_code ++ (lit ": " ++ r.body))), w)
      else polled (poll_agent_status url (n.ticks w) w)

  -- `dispatchToAgent`
  unfoldable pub dispatch_to_agent : Campaign → Text → Text → W → Result DispatchResult × W
  unfolding lit print poll_agent_status
  dispatch_to_agent c run_id url w = elim (n.marshal_campaign c run_id) [
    | err e ↦ (err (lit "marshal campaign: " ++ e), w)
    | ok body ↦ posted url (
        exchange n.transport (λ e. lit "create request: " ++ e)
          (λ e. lit "dispatch to agent: " ++ e)
          (record {
            method = lit "POST";
            url = url ++ lit "/campaign";
            headers = (lit "Content-Type", lit "application/json") ∷ [];
            body = body;
          })
          w)
  ]

  -- The loop of `dispatchDirect` over the tools, with the arguments of each call, the cap, and the
  -- counts so far.
  unfoldable pub direct_from : Text → Dict Text → ℕ → List Text → ℕ → ℕ → W → DispatchResult × W
  unfolding lit print call_tool
  direct_from gateway_url args max [] calls total w = (direct_result calls total [], w)
  direct_from gateway_url args max (tool ∷ tools) calls total w =
      let (ctx, w1) = n.ctx_err w in
      elim ctx [
        | some e ↦ (direct_result calls total (cancelled_error calls), w1)
        | none ↦ elim (ltb 0 max && leb max total) [
          | true ↦ (direct_result calls total (budget_error total max), w1)
          | false ↦
              let (o, w2) = call_tool gateway_url tool args w1 in
              direct_from gateway_url args max tools (calls + 1) (total + size o) w2
        ]
      ]

  abbrev pub direct_args : Campaign → Text → Dict Text
  direct_args c run_id = (lit "_campaign_id", c.id) ∷ (lit "_run_id", run_id) ∷ []

  -- `dispatchDirect`
  unfoldable pub dispatch_direct : Text → Campaign → Text → W → DispatchResult × W
  unfolding lit direct_from max_bytes_of
  dispatch_direct gateway_url c run_id w =
      direct_from gateway_url (direct_args c run_id) (max_bytes_of c.guardrails.ai_api_budget)
        c.tools 0 0 w

  abbrev when_healthy : Text → Campaign → Text → Text → Option Text × W → Result DispatchResult × W
  when_healthy name c run_id url (some e, w) =
      (ok (dispatch_error (name ++ (lit " agent unavailable: " ++ e))), w)
  when_healthy name c run_id url (none, w) = dispatch_to_agent c run_id url w

  -- The two cases of `Dispatch` for an agent of its own pod.
  unfoldable pub dispatch_remote : Text → Text → Campaign → Text → W → Result DispatchResult × W
  unfolding lit check_agent_health dispatch_to_agent
  dispatch_remote name url c run_id w =
      if is_empty url
      then (ok (dispatch_error (name ++ lit " agent URL not configured")), w)
      else when_healthy name c run_id url (check_agent_health url w)

  -- `Dispatch`
  unfoldable pub dispatch : Dispatcher → Campaign → Text → W → Result DispatchResult × W
  unfolding lit dispatch_to_agent dispatch_remote dispatch_direct
  dispatch d c run_id w =
      if c.agent == lit "ironclaw" || c.agent == lit "openclaw"
      then dispatch_to_agent c run_id
          (if is_empty d.ironclaw_url then lit "http://localhost:8080" else d.ironclaw_url) w
      else if c.agent == lit "tinyclaw"
      then dispatch_remote (lit "tinyclaw") d.tinyclaw_url c run_id w
      else if c.agent == lit "hexstrike-ai" || c.agent == lit "hexstrike"
      then dispatch_remote (lit "hexstrike-ai") d.hexstrike_ai_url c run_id w
      else polled (dispatch_direct d.gateway_url c run_id w)
