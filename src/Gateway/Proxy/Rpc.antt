-- ===== src/Gateway/Proxy/Rpc.antt =====
-- `HandleRPC` of gateway/mcp_proxy.go with the lists of tools of gateway/tools.go. A reply is its status and its
-- body.
pub mod Metered
pub mod Listed
use remote_juggler.Prelude.{
  ℕ, ◌-◌, ◌/◌, ◌^◌, Bool, true, false, Option, none, some, List, [], ◌∷◌, ◌++◌, ◌&&◌, ◌==◌, length,
  is_some, if◌then◌else◌,
}
use mathlib.Core.Option
use remote_juggler.Text.{Text, lit, text_eq, is_empty, contains}
use remote_juggler.Dict.{Dict}
use remote_juggler.Result.{Result, ok, err}
use remote_juggler.Http.{Transport}
use remote_juggler.Gateway.Identity.{CallerIdentity}
use remote_juggler.Gateway.Metering.{MeterRecord, MeterStore, record_usage}
use remote_juggler.Gateway.Setec.{Codecs}
use remote_juggler.Gateway.Values.{Values}
use remote_juggler.Gateway.Proxy.{
  ProxyState, GithubTools, Services, is_gateway_tool, handle_gateway_tool,
}

pub record RpcRequest : Type 0 where
  pub id : Text
  pub method : Text
  pub name : Text
  pub arguments : Text

-- A response to `tools/list`
pub record ToolsList : Type 0 where
  pub jsonrpc : Text
  pub id : Text
  pub tools : List Text

pub record HttpReply : Type 0 where
  pub status : ℕ
  pub body : Text

-- `SendRequest`, the uses of encoding/json, and the encoded definitions of the gateway's tools. A
-- request that cannot be decoded gives its error, and what was decoded of it before.
pub record Upstream (W : Type 0) : Type 0 where
  pub send_request : Text → W → Result Text × W
  pub rpc_error : Text → Option Text
  pub decode_rpc : Text → RpcRequest
  pub decode_tools : Text → Option ToolsList
  pub encode_tools : ToolsList → Option Text
  -- Has the result a field `tools`? `none` is an error.
  pub has_tools : Text → Option Bool
  pub gateway_tool_definitions : List Text

module _ {W : Type 0} (u : Upstream W) where
  abbrev or_given : Text → Option Text → Text
  or_given response none = response
  or_given response (some modified) = modified

  -- `injectGatewayTools`
  unfoldable pub inject_gateway_tools : Text → Text
  inject_gateway_tools response = elim (u.decode_tools response) [
    | none ↦ response
    | some msg ↦
        or_given response
          (u.encode_tools (record msg { tools = msg.tools ++ u.gateway_tool_definitions }))
  ]

  abbrev pub own_tools : Text → ToolsList
  own_tools id = record { jsonrpc = lit "2.0"; id = id; tools = u.gateway_tool_definitions }

  -- `gatewayOnlyToolsList`; the data of a failed encoding is nil.
  unfoldable pub gateway_only_tools_list : Text → Text
  unfolding lit
  gateway_only_tools_list id = or_given [] (u.encode_tools (own_tools id))

  -- `isToolsListResponse`
  unfoldable pub is_tools_list_response : Text → Bool
  is_tools_list_response body = elim (u.has_tools body) [ none ↦ false | some b ↦ b ]

module _ {J : Type 0} (v : Values J) where
  -- `extractMeteringContext`: the agent and the campaign.
  unfoldable pub extract_metering_context : Text → Text × Text
  unfolding lit
  extract_metering_context args = elim (v.args_error (lit "extractMeteringContext") args) [
    | none ↦ (v.arg_text args (lit "_agent"), v.arg_text args (lit "_campaign_id"))
    | some e ↦ ([], [])
  ]

  -- The record of a call that was answered.
  unfoldable pub meter_record : RpcRequest → Text → Text → ℕ → ℕ → MeterRecord
  unfolding lit extract_metering_context contains
  meter_record req body resp start end = record {
    agent = (extract_metering_context req.arguments).0;
    campaign_id = (extract_metering_context req.arguments).1;
    tool_name = req.name;
    request_bytes = length body;
    response_bytes = length resp;
    duration_ms = (end - start) / 10 ^ 6;
    timestamp = start;
    is_error = contains resp (lit "\"error\"");
    input_tokens = 0;
    output_tokens = 0;
    dedupe_key = [];
  }

abbrev http_error : ℕ → Text → HttpReply
http_error status message = record { status = status; body = message ++ (10 ∷ []) }

abbrev answer : Text → HttpReply
answer body = record { status = 200; body = body }

module _ {W J : Type 0} (t : Transport W) (j : Codecs W) (v : Values J) (sv : Services W J)
    (caller : CallerIdentity) (g : GithubTools W) (u : Upstream W) (range : Dict ℕ → Dict ℕ) where
  -- A record for the meter store, if there is one.
  abbrev pub metered : ℕ → MeterRecord → ProxyState → ProxyState
  metered now r p = record p { meter = Option.map (record_usage range now now r) p.meter }

  abbrev pub gateway_reply :
      RpcRequest → Text → ℕ → Text × (ProxyState × W) → HttpReply × (ProxyState × W)
  gateway_reply req body start (resp, (p, w)) =
      (answer resp, (metered (j.clock w) (meter_record v req body resp start (j.clock w)) p, w))

  -- A call of a tool of the gateway.
  abbrev pub call_gateway :
      RpcRequest → Text → ProxyState → W → Option (HttpReply × (ProxyState × W))
  call_gateway req body p w =
      Option.map (gateway_reply req body (j.clock w))
        (handle_gateway_tool t j v sv caller g req.id req.name req.arguments p w)

  abbrev proxy_error : Text → HttpReply
  proxy_error e = http_error 502 (lit "proxy error: " ++ e)

  abbrev pub called :
      RpcRequest → Text → ℕ → ProxyState → Result Text × W → HttpReply × (ProxyState × W)
  called req body start p (err e, w) = (proxy_error e, (p, w))
  called req body start p (ok resp, w) =
      (answer resp, (metered (j.clock w) (meter_record v req body resp start (j.clock w)) p, w))

  abbrev listed : RpcRequest → Text → Text
  listed req resp =
      if is_tools_list_response u resp
      then inject_gateway_tools u resp
      else if req.method == lit "tools/list"
      then gateway_only_tools_list u req.id
      else resp

  abbrev pub forwarded : RpcRequest → ProxyState → Result Text × W → HttpReply × (ProxyState × W)
  forwarded req p (err e, w) = (
    if req.method == lit "tools/list"
        then answer (gateway_only_tools_list u req.id)
        else proxy_error e,
    (p, w),
  )
  forwarded req p (ok resp, w) = (answer (listed req resp), (p, w))

  abbrev is_call : RpcRequest → Bool
  is_call req = req.method == lit "tools/call"

  -- The part of `HandleRPC` after the decoding of the request.
  unfoldable pub route :
      RpcRequest → Bool → Text → ProxyState → W → Option (HttpReply × (ProxyState × W))
  unfolding lit contains is_gateway_tool
  route req good body p w =
      if good && (is_call req && is_gateway_tool req.name)
      then call_gateway req body p w
      else if good && (is_call req && is_some p.meter)
      then some (called req body (j.clock w) p (u.send_request body w))
      else some (forwarded req p (u.send_request body w))

  -- `HandleRPC`, with the method's test and the body as it was read; `none` is a panic.
  unfoldable pub handle_rpc :
      Bool → Result Text → ProxyState → W → Option (HttpReply × (ProxyState × W))
  unfolding lit route
  handle_rpc false body p w = some (http_error 405 (lit "method not allowed"), (p, w))
  handle_rpc true (err e) p w = some (http_error 400 (lit "read body: " ++ e), (p, w))
  handle_rpc true (ok body) p w = elim (u.rpc_error body) [
    | none ↦ route (u.decode_rpc body) true body p w
    | some e ↦ route (u.decode_rpc body) false body p w
  ]
