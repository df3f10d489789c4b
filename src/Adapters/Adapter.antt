-- ===== src/Adapters/Adapter.antt =====
-- The HTTP server of deploy/adapters/adapter.go, which runs one campaign at a time in the background.
pub mod Reach
use remote_juggler.Prelude.{
  Bool, true, false, Option, none, some, List, [], ◌∷◌, ◌++◌, not, ◌==◌, if◌then◌else◌,
}
use remote_juggler.Text.{Text, lit, text_eq}
use remote_juggler.Result.{Result, ok, err}
use remote_juggler.Adapters.Protocol.{LastResult, AgentBackend}

-- The values of the field `status`; nothing sets the last.
pub data AdapterStatus : Type 0 where
  idle running completed failed : AdapterStatus

abbrev pub status_text : AdapterStatus → Text
status_text idle = lit "idle"
status_text running = lit "running"
status_text completed = lit "completed"
status_text failed = lit "error"

-- The part of Adapter that its lock protects.
pub record Adapter : Type 0 where
  pub status : AdapterStatus
  pub last_result : Option LastResult

unfoldable pub new_adapter : Adapter
new_adapter = record { status = idle; last_result = none }

pub record CampaignRequest : Type 0 where
  pub campaign : Text
  pub run_id : Text

pub record StatusResponse : Type 0 where
  pub status : Text
  pub last_result : Option LastResult

pub record HealthResponse : Type 0 where
  pub status : Text
  pub agent_type : Text
  pub agent_url : Text
  pub scaffold : Bool

-- The answers of `handleCampaign`.
pub data CampaignReply : Type 0 where
  method_not_allowed : CampaignReply
  invalid_request : Text → CampaignReply
  already_running : CampaignReply
  accepted : Text → CampaignReply

abbrev is_running : AdapterStatus → Bool
is_running running = true
is_running _ = false

abbrev pub start : CampaignRequest → Adapter → CampaignReply × Adapter
start q a =
    if is_running a.status
    then (already_running, a)
    else (accepted q.run_id, record { status = running; last_result = none })

abbrev pub received : Result CampaignRequest → Adapter → CampaignReply × Adapter
received (err e) a = (invalid_request e, a)
received (ok q) a = start q a

-- `handleCampaign` on a method and a decoded body, up to the start of the background run.
unfoldable pub handle_campaign : Text → Result CampaignRequest → Adapter → CampaignReply × Adapter
unfolding lit
handle_campaign method body a =
    if not (method == lit "POST") then (method_not_allowed, a) else received body a

abbrev pub outcome : Result LastResult → LastResult
outcome (ok r) = r
outcome (err e) = record {
  status = lit "error";
  tool_calls = 0;
  kpis = [];
  tool_trace = [];
  findings = [];
  error = e;
}

-- The end of the background run.
unfoldable pub finish_campaign : Result LastResult → Adapter → Adapter
finish_campaign o a = record { status = completed; last_result = some (outcome o) }

unfoldable pub handle_status : Adapter → StatusResponse
handle_status a = record { status = status_text a.status; last_result = a.last_result }

abbrev health_status : Option Text → Text
health_status none = lit "ok"
health_status (some e) = lit "degraded"

module _ {W : Type 0} (b : AgentBackend W) where
  unfoldable pub handle_health : W → HealthResponse × W
  unfolding lit
  handle_health w =
      let (e, w') = b.health w in
      (
        record {
          status = health_status e;
          agent_type = b.type_name;
          agent_url = [];
          scaffold = false;
        },
        w',
      )
