-- ===== src/Gateway/Aperture/Tool.antt =====
-- The usage tool of gateway/aperture.go.
use remote_juggler.Prelude.{◌++◌, Option, none, some, [], ◌∷◌, if◌then◌else◌}
use remote_juggler.Text.{Text, lit}
use remote_juggler.Dict.{Dict}
use remote_juggler.Result.{Result, ok, err}
use remote_juggler.Gateway.Values.{Values, mcp_text_result}
use remote_juggler.Gateway.Aperture.{ApertureClient, ApertureUsage, configured, query_usage}

module _ {J : Type 0} (v : Values J) where
  abbrev usage_fields : ApertureUsage → Dict J
  usage_fields u =
      (lit "status", v.text (lit "ok"))
      ∷ (lit "source", v.text u.source)
      ∷ (lit "campaign_id", v.text u.campaign_id)
      ∷ (lit "agent", v.text u.agent)
      ∷ (lit "total_calls", v.counter u.total_calls)
      ∷ (lit "total_tokens", v.counter u.total_tokens)
      ∷ (lit "input_tokens", v.counter u.input_tokens)
      ∷ (lit "output_tokens", v.counter u.output_tokens)
      ∷ (lit "period", v.text u.period)
      ∷ (lit "mcp_tool_calls", v.counter u.mcp_tool_calls)
      ∷ (lit "mcp_request_bytes", v.counter u.mcp_request_bytes)
      ∷ (lit "mcp_response_bytes", v.counter u.mcp_response_bytes)
      ∷ (lit "mcp_error_count", v.counter u.mcp_error_count)
      ∷ []

  abbrev status_result : Text → Text → Result Text
  status_result status e =
      mcp_text_result v (v.object ((lit "status", v.text status) ∷ (lit "error", v.text e) ∷ []))

  abbrev usage_result : Result ApertureUsage → Result Text
  usage_result (err e) = status_result (lit "error") e
  usage_result (ok u) = mcp_text_result v (v.object (usage_fields u))

  abbrev no_store : Result Text
  no_store =
      status_result (lit "not_configured")
        (lit "No MeterStore available. Ensure gateway metering is enabled.")

  abbrev query_result : Option ApertureClient → Text → Result Text
  query_result none args = no_store
  query_result (some a) args =
      if configured a
      then usage_result
          (query_usage a (v.arg_text args (lit "campaign_id")) (v.arg_text args (lit "agent")))
      else no_store

  -- `handleApertureUsageTool`; `none` is a nil client.
  unfoldable pub handle_aperture_usage_tool : Option ApertureClient → Text → Result Text
  unfolding lit mcp_text_result configured query_usage
  handle_aperture_usage_tool a args = elim (v.args_error (lit "handleApertureUsageTool") args) [
    | some e ↦ err (lit "parse args: " ++ e)
    | none ↦ query_result a args
  ]
