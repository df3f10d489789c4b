-- ===== src/Gateway/Proxy.antt =====
-- The MCP proxy of gateway/mcp_proxy.go: the tools that the gateway answers itself, and the requests that it
-- forwards to the Chapel subprocess. `gateway_tools` is the switch of `handleGatewayTool`; Subprocess has the pipe.
pub mod Rpc
pub mod Audited
pub mod Subprocess
use remote_juggler.Prelude.{
  ℕ, ◌+◌, ◌-◌, ◌/◌, ◌^◌, Bool, true, false, Option, none, some, List, [], ◌∷◌, ◌++◌, map, not, any,
  ◌&&◌, ◌||◌, ltb, leb, ◌==◌, nat_eq, length, if◌then◌else◌,
}
use mathlib.Core.Option
use remote_juggler.Prelude.Int.{ℤ, pos, negsuc}
use remote_juggler.Text.{Text, lit, text_eq, print_int}
use remote_juggler.Dict.{Dict, lookup}
use remote_juggler.Result.{Result, ok, err, ◌>>=◌}
use remote_juggler.Http.{Transport}
use remote_juggler.Gateway.Identity.{CallerIdentity}
use remote_juggler.Gateway.Audit.{AuditEntry, AuditLog, log_entry, recent}
use remote_juggler.Gateway.Metering.{MeterStore}
use remote_juggler.Gateway.Resolver.{ResolveResult}
use remote_juggler.Gateway.Setec
use remote_juggler.Gateway.Setec.{SetecClient, Codecs}
use remote_juggler.Gateway.Values.{Values, mcp_text_result, text_content}
use remote_juggler.Gateway.Campaigns.{
  handle_campaign_status_tool, handle_campaign_trigger_tool, handle_campaign_list_tool,
}
use remote_juggler.Gateway.Aperture.{ApertureClient}
use remote_juggler.Gateway.Aperture.Tool.{handle_aperture_usage_tool}

-- The state of the proxy that its tools change, and what it is configured with. The client of the usage
-- queries is given the meter store of the proxy.
pub record ProxyState : Type 0 where
  pub setec : SetecClient
  pub audit : Option AuditLog
  pub meter : Option MeterStore
  pub aperture : Option Text
  pub campaigns : Option Text

-- The handlers of the GitHub tools, which keep no state of the gateway.
pub record GithubTools (W : Type 0) : Type 0 where
  pub fetch : Text → W → Result Text × W
  pub list_alerts : Text → W → Result Text × W
  pub get_alert : Text → W → Result Text × W
  pub create_branch : Text → W → Result Text × W
  pub update_file : Text → W → Result Text × W
  pub patch_file : Text → W → Result Text × W
  pub create_pr : Text → W → Result Text × W
  pub create_issue : Text → W → Result Text × W
  pub discussion_list : Text → W → Result Text × W
  pub discussion_get : Text → W → Result Text × W
  pub discussion_search : Text → W → Result Text × W
  pub discussion_reply : Text → W → Result Text × W
  pub discussion_label : Text → W → Result Text × W
  pub request_secret : Text → W → Result Text × W

-- What the handlers call: the composite resolver, the arguments that are not texts or numbers, and the
-- encodings of the log's entries and of a resolver's result.
pub record Services (W J : Type 0) : Type 0 where
  pub resolve : Text → List Text → SetecClient × W → ResolveResult × (SetecClient × W)
  pub arg_sources : Text → List Text
  pub resolve_result : ResolveResult → J
  pub entry_value : AuditEntry → J
  pub marshal_entry : AuditEntry → Option Text

-- The keys of `gatewayToolNames`
abbrev pub gateway_tool_names : List Text
gateway_tool_names =
    lit "juggler_resolve_composite"
    ∷ lit "juggler_setec_list"
    ∷ lit "juggler_setec_get"
    ∷ lit "juggler_setec_put"
    ∷ lit "juggler_audit_log"
    ∷ lit "juggler_campaign_status"
    ∷ lit "juggler_aperture_usage"
    ∷ lit "juggler_campaign_trigger"
    ∷ lit "juggler_campaign_list"
    ∷ lit "github_fetch"
    ∷ lit "github_list_alerts"
    ∷ lit "github_get_alert"
    ∷ lit "github_create_branch"
    ∷ lit "github_update_file"
    ∷ lit "github_patch_file"
    ∷ lit "github_create_pr"
    ∷ lit "github_create_issue"
    ∷ lit "github_discussion_list"
    ∷ lit "github_discussion_get"
    ∷ lit "github_discussion_search"
    ∷ lit "github_discussion_reply"
    ∷ lit "github_discussion_label"
    ∷ lit "juggler_request_secret"
    ∷ []

-- `gatewayToolNames[tool]`
unfoldable pub is_gateway_tool : Text → Bool
unfolding lit
is_gateway_tool tool = any (λ u. u == tool) gateway_tool_names

-- An entry of the log before it is stamped.
abbrev pub entry : CallerIdentity → Text → Text → Text → Bool → Text → AuditEntry
entry caller action query source allowed reason = record {
  timestamp = 0;
  caller = caller;
  action = action;
  query = query;
  source = source;
  allowed = allowed;
  reason = reason;
  campaign_id = [];
}

-- `err == nil`
abbrev pub is_ok {ℓ} : {A : Type ℓ} → Result A → Bool
is_ok (ok a) = true
is_ok (err e) = false

-- The count of the arguments, 20 if it is not positive and 100 at most.
unfoldable pub clamp_count : ℤ → ℤ
clamp_count (negsuc n) = pos 20
clamp_count (pos n) = if n == 0 then pos 20 else if ltb 100 n then pos 100 else pos n

-- The result of a handler, and its state; `none` is a panic.
abbrev pub Answer : Type 0 → Type 0
Answer W = Option (Result Text × (ProxyState × W))

abbrev pub Handler : Type 0 → Type 0
Handler W = Text → ProxyState → W → Answer W

abbrev entry_values : {W J : Type 0} → Services W J → List AuditEntry → List J
entry_values sv es = map sv.entry_value es

abbrev pub entries_value : {W J : Type 0} → Values J → Services W J → List AuditEntry → J
entries_value v sv es =
    v.object (
      (lit "entries", v.array (entry_values sv es))
      ∷ (lit "count", v.number (pos (length es)))
      ∷ [])

module _ {W J : Type 0} (t : Transport W) (j : Codecs W) (v : Values J) (sv : Services W J)
    (caller : CallerIdentity) where
  -- `p.audit.Log`, if there is a log.
  abbrev pub logged : AuditEntry → ProxyState × W → ProxyState × W
  logged e (p, w) =
      (record p { audit = Option.map (log_entry sv.marshal_entry (j.clock w) e) p.audit }, w)

  -- A result, and the entry that is logged for it.
  abbrev pub audited :
      (Bool → AuditEntry) → Result Text × (ProxyState × W) → Result Text × (ProxyState × W)
  audited e (r, s) = (r, logged (e (is_ok r)) s)

  abbrev pub on_setec : {A : Type 0} → ProxyState → A × (SetecClient × W) → A × (ProxyState × W)
  on_setec p (a, (c, w)) = (a, (record p { setec = c }, w))

  abbrev on_world : {A : Type 0} → ProxyState → A × W → A × (ProxyState × W)
  on_world p (a, w) = (a, (p, w))

  abbrev text_result : Text → Result Text
  text_result s = ok (v.must_marshal (text_content v s))

  abbrev arg : Text → Text → Text
  arg args name = v.arg_text args name

  abbrev resolved : ResolveResult × (SetecClient × W) → Result Text × (SetecClient × W)
  resolved (r, s) = (mcp_text_result v (sv.resolve_result r), s)

  -- `handleResolveAsMCPTool`
  unfoldable pub handle_resolve_as_mcp_tool :
      Text → SetecClient × W → Result Text × (SetecClient × W)
  unfolding lit mcp_text_result
  handle_resolve_as_mcp_tool params s = elim (v.args_error (lit "handleResolveAsMCPTool") params) [
    | some e ↦ (err (lit "parse args: " ++ e), s)
    | none ↦ resolved (sv.resolve (arg params (lit "query")) (sv.arg_sources params) s)
  ]

  pub resolve_composite : Handler W
  resolve_composite args p w = some (
      audited (λ good. entry caller (lit "resolve_composite") (arg args (lit "Query")) [] good [])
        (on_setec p (handle_resolve_as_mcp_tool args (p.setec, w))))

  abbrev names_result : Result (List Text) → Result Text
  names_result o = o >>= λ names.
      text_result (v.must_marshal (v.object ((lit "secrets", v.array (map v.text names)) ∷ [])))

  abbrev listed : Result (List Text) × W → Result Text × W
  listed (o, w) = (names_result o, w)

  pub setec_list : Handler W
  setec_list args p w = some (on_world p (listed (Setec.list t j p.setec w)))

  abbrev shown : Result Text × (SetecClient × W) → Result Text × (SetecClient × W)
  shown (o, s) = (o >>= text_result, s)

  pub setec_get : Handler W
  setec_get args p w =
      let name = arg args (lit "Name") in
      some (
        audited (λ good. entry caller (lit "setec_get") name (lit "setec") good [])
          (on_setec p (shown (Setec.get t j name p.setec w))))

  abbrev put_result : Text → Option Text × (SetecClient × W) → Result Text × (SetecClient × W)
  put_result name (some e, s) = (err e, s)
  put_result name (none, s) =
      (text_result (lit "stored secret " ++ (j.quote name ++ lit " in setec")), s)

  pub setec_put : Handler W
  setec_put args p w =
      let name = arg args (lit "Name") in
      some (on_setec p (put_result name (Setec.put t j name (arg args (lit "Value")) p.setec w)))

  abbrev pub entries_answer : Option (List AuditEntry) → ProxyState → W → Answer W
  entries_answer none p w = none
  entries_answer (some es) p w = some (text_result (v.must_marshal (entries_value v sv es)), (p, w))

  -- The entries of a nil log are a panic.
  abbrev pub recent_entries : Option AuditLog → Text → Option (List AuditEntry)
  recent_entries none args = none
  recent_entries (some a) args = recent (clamp_count (v.arg_number args (lit "Count"))) a

  pub audit_log : Handler W
  audit_log args p w = entries_answer (recent_entries p.audit args) p w

  pub campaign_status : Handler W
  campaign_status args p w =
      Option.map (on_setec p) (handle_campaign_status_tool t j v args (p.setec, w))

  -- The client of the usage queries.
  abbrev aperture_client : ProxyState → Option ApertureClient
  aperture_client p =
      Option.map (λ url. record { base_url = url; meter_store = p.meter }) p.aperture

  pub aperture_usage : Handler W
  aperture_usage args p w = some (handle_aperture_usage_tool v (aperture_client p) args, (p, w))

  pub campaign_trigger : Handler W
  campaign_trigger args p w = some (
      audited
        (λ good. entry caller (lit "campaign_trigger") (arg args (lit "campaign_id")) [] good [])
        (on_world p (handle_campaign_trigger_tool t v p.campaigns args w)))

  pub campaign_list : Handler W
  campaign_list args p w = some (on_world p (handle_campaign_list_tool t v p.campaigns args w))

  -- A GitHub tool, with the query and the reason of its entry.
  abbrev pub github_tool :
      Text → (Text → Text) → (Text → Text) → (Text → W → Result Text × W) → Handler W
  github_tool action query reason run args p w = some (
      audited (λ good. entry caller action (query args) [] good (reason args))
        (on_world p (run args w)))

  -- "%s/%s"
  abbrev repo_query : Text → Text
  repo_query args = arg args (lit "Owner") ++ (lit "/" ++ arg args (lit "Repo"))

  -- "%s/%s" and one more text
  abbrev repo_with : Text → Text → Text → Text
  repo_with sep field args = repo_query args ++ (sep ++ arg args field)

  abbrev alert_query : Text → Text
  alert_query args =
      arg args (lit "owner")
      ++ (lit "/"
          ++ (arg args (lit "repo")
              ++ (lit "/" ++ print_int (v.arg_number args (lit "alert_number")))))

  abbrev branch_file_query : Text → Text
  branch_file_query args =
      repo_with (lit "/") (lit "Path") args ++ (lit "@" ++ arg args (lit "Branch"))

  abbrev number_query : Text → Text
  number_query args = repo_query args ++ (lit "#" ++ print_int (v.arg_number args (lit "Number")))

  abbrev no_reason : Text → Text
  no_reason args = []

  abbrev urgency : Text → Text
  urgency args = lit "urgency=" ++ arg args (lit "Urgency")

  module _ (g : GithubTools W) where
    -- The tools of `handleGatewayTool` that call the handler of GitHub tools.
    abbrev pub github_tools : Dict (Handler W)
    github_tools =
        (
          lit "github_fetch",
          github_tool (lit "github_fetch") (repo_with (lit "/") (lit "Path")) no_reason g.fetch,
        )
        ∷ (
          lit "github_list_alerts",
          github_tool (lit "github_list_alerts") repo_query no_reason g.list_alerts,
        )
        ∷ (
          lit "github_get_alert",
          github_tool (lit "github_get_alert") alert_query no_reason g.get_alert,
        )
        ∷ (
          lit "github_create_branch",
          github_tool (lit "github_create_branch") (repo_with (lit "/") (lit "BranchName"))
              no_reason g.create_branch,
        )
        ∷ (
          lit "github_update_file",
          github_tool (lit "github_update_file") branch_file_query no_reason g.update_file,
        )
        ∷ (
          lit "github_patch_file",
          github_tool (lit "github_patch_file") branch_file_query no_reason g.patch_file,
        )
        ∷ (
          lit "github_create_pr",
          github_tool (lit "github_create_pr") (repo_with (lit "/") (lit "Head")) no_reason
              g.create_pr,
        )
        ∷ (
          lit "github_create_issue",
          github_tool (lit "github_create_issue") (repo_with (lit ": ") (lit "Title")) no_reason
              g.create_issue,
        )
        ∷ (
          lit "github_discussion_list",
          github_tool (lit "github_discussion_list") repo_query no_reason g.discussion_list,
        )
        ∷ (
          lit "github_discussion_get",
          github_tool (lit "github_discussion_get") number_query no_reason g.discussion_get,
        )
        ∷ (
          lit "github_discussion_search",
          github_tool (lit "github_discussion_search") (repo_with (lit ": ") (lit "Query"))
              no_reason g.discussion_search,
        )
        ∷ (
          lit "github_discussion_reply",
          github_tool (lit "github_discussion_reply") number_query no_reason g.discussion_reply,
        )
        ∷ (
          lit "github_discussion_label",
          github_tool (lit "github_discussion_label") number_query no_reason g.discussion_label,
        )
        ∷ (
          lit "juggler_request_secret",
          github_tool (lit "juggler_request_secret") (λ args. arg args (lit "Name")) urgency
              g.request_secret,
        )
        ∷ []

    -- The cases of the switch of `handleGatewayTool`.
    abbrev pub gateway_tools : Dict (Handler W)
    gateway_tools =
        (lit "juggler_resolve_composite", resolve_composite)
        ∷ (lit "juggler_setec_list", setec_list)
        ∷ (lit "juggler_setec_get", setec_get)
        ∷ (lit "juggler_setec_put", setec_put)
        ∷ (lit "juggler_audit_log", audit_log)
        ∷ (lit "juggler_campaign_status", campaign_status)
        ∷ (lit "juggler_aperture_usage", aperture_usage)
        ∷ (lit "juggler_campaign_trigger", campaign_trigger)
        ∷ (lit "juggler_campaign_list", campaign_list)
        ∷ github_tools

    abbrev pub run_handler : Text → Text → ProxyState → W → Option (Handler W) → Answer W
    run_handler tool args p w none = some (err (lit "unknown gateway tool: " ++ tool), (p, w))
    run_handler tool args p w (some h) = h args p w

    -- The response with an error, or with a result.
    abbrev pub rpc_response : Text → Result Text → Text
    rpc_response id (err e) = v.must_marshal (
        v.object (
          (lit "jsonrpc", v.text (lit "2.0"))
          ∷ (lit "id", v.raw id)
          ∷ (
            lit "error",
            v.object ((lit "code", v.number (negsuc 31999)) ∷ (lit "message", v.text e) ∷ []),
          )
          ∷ []))
    rpc_response id (ok result) = v.must_marshal (
        v.object (
          (lit "jsonrpc", v.text (lit "2.0"))
          ∷ (lit "id", v.raw id)
          ∷ (lit "result", v.raw result)
          ∷ []))

    abbrev pub respond : Text → Result Text × (ProxyState × W) → Text × (ProxyState × W)
    respond id (r, s) = (rpc_response id r, s)

    -- `handleGatewayTool`
    unfoldable pub handle_gateway_tool :
        Text → Text → Text → ProxyState → W → Option (Text × (ProxyState × W))
    unfolding lit lookup
    handle_gateway_tool id tool args p w =
        Option.map (respond id) (run_handler tool args p w (lookup tool gateway_tools))
