-- ===== src/Gateway/Tests/Access.antt =====
-- The theorems on callers, the audit log and the resolver, at concrete inputs.
use remote_juggler.Prelude.{
  ℕ, ◌<◌, ◌≡◌, refl, ◌↔◌, Bool, true, Option, none, some, List, [], ◌∷◌, ◌==◌, any, if◌then◌else◌,
  length, arith,
}
use remote_juggler.Text.{Text, lit, text_eq, same}
use remote_juggler.Result.{ok, err}
use remote_juggler.Gateway.Identity.{
  CallerIdentity, Request, parse_capabilities, identify, passed_on, check_grant,
}
use remote_juggler.Gateway.Identity.Grants.{check_grant-identify}
use remote_juggler.Gateway.Audit.{AuditEntry, AuditLog, export, ndjson}
use remote_juggler.Gateway.Audit.Export.{log_all, stored, export-log_all, export_after_full}
use remote_juggler.Gateway.Resolver.{Backend, resolve, resolve_from, resolve_source}
use remote_juggler.Gateway.Resolver.Precedence.{Resolved, resolve-Resolved}

abbrev an_agent : Request
an_agent = record {
  tailscale_user_name = [];
  tailscale_user_login = [];
  tailscale_user_addr = [];
  tailscale_app_capabilities = lit "read, admin";
  x_agent_identity = lit "openclaw";
  remote_addr = lit "10.0.0.7:4411";
}

check_grant-identify_example :
    (check_grant (lit "admin") (some (identify an_agent)) ≡ passed_on)
    ↔ (any (λ c. c == lit "admin") (parse_capabilities an_agent.tailscale_app_capabilities) ≡ true)
unfolding lit
check_grant-identify_example = check_grant-identify (lit "admin") an_agent refl

abbrev nobody : CallerIdentity
nobody = record { node = []; user = []; login = []; capabilities = []; tailnet_ip = [] }

abbrev an_entry : AuditEntry
an_entry = record {
  timestamp = 0;
  caller = nobody;
  action = lit "resolve";
  query = lit "token";
  source = lit "env";
  allowed = true;
  reason = [];
  campaign_id = [];
}

abbrev by_action : AuditEntry → Option Text
by_action e = some e.action

abbrev all_stored : Text → Bool
all_stored payload = true

abbrev small_log : AuditLog
small_log = record { entries = an_entry ∷ an_entry ∷ []; max_size = 12 }

abbrev two_calls : List (ℕ × AuditEntry)
two_calls = (7, an_entry) ∷ (8, an_entry) ∷ []

some_stored : 0 < length (stored by_action two_calls)
unfolding stored
some_stored = omega arith

export-log_all_example :
    (export by_action all_stored
      (record { last_export = 2 })
      (log_all by_action two_calls small_log)).1
    ≡ some (ndjson by_action (stored by_action two_calls))
export-log_all_example =
    export-log_all by_action all_stored two_calls (record { last_export = 2 }) small_log
      (omega arith) refl some_stored

abbrev full_log : AuditLog
full_log = record {
  entries =
      an_entry ∷ an_entry ∷ an_entry ∷ an_entry ∷ an_entry ∷ an_entry ∷ an_entry ∷ an_entry
      ∷ an_entry ∷ an_entry ∷ [];
  max_size = 10;
}

export_after_full_example :
    let x' = (export by_action all_stored (record { last_export = 3 }) full_log).0 in
    export by_action all_stored x' (log_all by_action two_calls full_log) ≡ (x', none)
export_after_full_example =
    export_after_full by_action all_stored two_calls (record { last_export = 3 }) full_log
      (omega arith) refl (omega arith) refl

-- A backend with one variable of the environment, and one secret of Setec.
abbrev a_backend : Backend
a_backend = record {
  lookup_env = λ q. if q == lit "HOME" then some (lit "/root") else none;
  send_request = λ tool q. err (lit "no subprocess");
  setec_get = λ q. ok (lit "hunter2");
  unmarshal_response = λ raw. err (lit "bad");
  unmarshal_tool_result = λ raw. none;
  quote = λ q. q;
}

abbrev the_precedence : List Text
the_precedence = lit "env" ∷ lit "sops" ∷ lit "kdbx" ∷ lit "setec" ∷ []

resolve-Resolved_example :
    Resolved a_backend
      (lit "TOKEN")
      the_precedence
      (resolve a_backend the_precedence (lit "TOKEN") [])
resolve-Resolved_example = resolve-Resolved a_backend (lit "TOKEN") the_precedence []

-- The secret is found in the last source, after the other three.
resolve_test : (resolve a_backend the_precedence (lit "TOKEN") []).sources_checked ≡ the_precedence
unfolding resolve resolve_from resolve_source lit same
resolve_test = refl
