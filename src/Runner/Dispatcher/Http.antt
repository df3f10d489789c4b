-- ===== src/Runner/Dispatcher/Http.antt =====
-- What the dispatcher of test/campaigns/runner/dispatcher.go calls: a client of net/http, encoding/json and the
-- context of a run, over any state of the world; and the messages that it sends and gets.
use remote_juggler.Prelude.{ℕ, Option, List}
use remote_juggler.Prelude.Int.{ℤ}
use remote_juggler.Text.{Text}
use remote_juggler.Dict.{Dict}
use remote_juggler.Result.{Result}
use remote_juggler.Http.{HttpResponse, Transport}
use remote_juggler.Runner.Campaign.{Campaign, Finding, ToolTraceEntry}

-- The arguments that the runner passes are all texts.
pub record McpToolCall : Type 0 where
  pub name : Text
  pub arguments : Dict Text

pub record McpRequest : Type 0 where
  pub jsonrpc : Text
  pub id : ℤ
  pub method : Text
  pub params : McpToolCall

pub record McpError : Type 0 where
  pub code : ℤ
  pub message : Text

pub record McpResponse : Type 0 where
  pub jsonrpc : Text
  pub id : ℤ
  pub result : Text
  pub error : Option McpError

-- `LastResult` of the status that an agent reports.
pub record LastResult : Type 0 where
  pub status : Text
  pub tool_calls : ℤ
  pub kpis : Dict Text
  pub tool_trace : List ToolTraceEntry
  pub findings : List Finding
  pub error : Text

pub record AgentStatus : Type 0 where
  pub status : Text
  pub last_result : Option LastResult

pub record Net (W : Type 0) : Type 0 where
  -- The client
  pub transport : Transport W
  -- `ctx.Err()`
  pub ctx_err : W → Option Text × W
  -- How many ticks of a ticker come before the context is done; a run's context has a deadline.
  pub ticks : W → ℕ
  pub marshal_call : McpRequest → Result Text
  pub marshal_campaign : Campaign → Text → Result Text
  pub unmarshal_response : Text → Result McpResponse
  pub decode_status : HttpResponse → Option AgentStatus
