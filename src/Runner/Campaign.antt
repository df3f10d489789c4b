-- ===== src/Runner/Campaign.antt =====
-- The data of test/campaigns/runner/campaign.go, with Finding of feedback.go and DispatchResult of
-- dispatcher.go. A `map[string]any` holds the JSON text of each of its values.
use remote_juggler.Prelude.{Bool, true, false, Option, none, some, List, [], not, ◌==◌}
use remote_juggler.Text.{Text, lit, text_eq}
use remote_juggler.Prelude.Int.{ℤ}
use remote_juggler.Dict.{Dict}

-- `len(x) == 0`
abbrev pub is_nil {ℓ} : {A : Type ℓ} → List A → Bool
is_nil [] = true
is_nil _ = false

pub record CampaignTrigger : Type 0 where
  pub schedule : Text
  pub event : Text
  pub depends_on : List Text
  pub path_filters : List Text

pub record Target : Type 0 where
  pub forge : Text
  pub org : Text
  pub repo : Text
  pub branch : Text

pub record CampaignOutputs : Type 0 where
  pub setec_key : Text
  pub issue_labels : List Text
  pub issue_repo : Text
  pub pr_branch_prefix : Text
  pub pr_body_template : Text

pub record Guardrails : Type 0 where
  pub max_duration : Text
  pub read_only : Bool
  pub kill_switch : Text
  -- `AIApiBudget.MaxTokens`, if there is a budget
  pub ai_api_budget : Option ℤ

pub record Feedback : Type 0 where
  pub create_issues : Bool
  pub create_prs : Bool
  pub close_resolved_issues : Bool
  pub publish_on_success : Option Bool

pub record Metrics : Type 0 where
  pub success_criteria : Text
  pub kpis : List Text

pub record Campaign : Type 0 where
  pub id : Text
  pub name : Text
  pub description : Text
  pub agent : Text
  pub model : Text
  pub mode : Text
  pub trigger : CampaignTrigger
  pub targets : List Target
  pub tools : List Text
  pub process : List Text
  pub outputs : CampaignOutputs
  pub guardrails : Guardrails
  pub feedback : Feedback
  pub metrics : Metrics

pub record Finding : Type 0 where
  pub title : Text
  pub body : Text
  pub severity : Text
  pub labels : List Text
  pub campaign_id : Text
  pub run_id : Text
  pub fingerprint : Text
  pub fixable : Bool
  pub remediation_type : Text
  pub remediation_hints : Option (Dict Text)

pub record ToolTraceEntry : Type 0 where
  pub timestamp : Text
  pub tool : Text
  pub summary : Text
  pub is_error : Bool

pub record DispatchResult : Type 0 where
  pub tool_calls : ℤ
  pub tokens_used : ℤ
  pub kpis : Dict Text
  pub tool_trace : List ToolTraceEntry
  pub findings : List Finding
  pub error : Text

-- The field `Phases` is never set by the runner, and is left out.
pub record CampaignResult : Type 0 where
  pub campaign_id : Text
  pub run_id : Text
  pub status : Text
  pub started_at : Text
  pub finished_at : Text
  pub agent : Text
  pub kpis : Dict Text
  pub error : Text
  pub tool_calls : ℤ
  pub tokens_used : ℤ
  pub findings : List Finding
  pub tool_trace : List ToolTraceEntry
  pub discussion_url : Text

-- `ShouldPublish`
unfoldable pub should_publish : Feedback → Text → Bool
unfolding lit
should_publish f status = elim f.publish_on_success [
  | none ↦ true
  | some true ↦ true
  | some false ↦ not (status == lit "success")
]
