-- ===== src/Adapters/Protocol.antt =====
-- What deploy/adapters/adapter.go shares with its backends: the results, the campaign as the backends
-- decode it, and the findings that an agent writes into its text.
use remote_juggler.Prelude.{
  ℕ, ◌+◌, ◌-◌, Bool, true, false, Option, none, some, List, [], ◌∷◌, ◌++◌, map, leb, length, take,
  drop, if◌then◌else◌,
}
pub mod Findings
use remote_juggler.Prelude.Int.{ℤ}
use remote_juggler.Text.{Text, lit, index, trim_space, is_empty}
use remote_juggler.Dict.{Dict}
use remote_juggler.Result.{Result}

pub record Finding : Type 0 where
  pub title : Text
  pub body : Text
  pub severity : Text
  pub labels : List Text
  pub campaign_id : Text
  pub run_id : Text
  pub fingerprint : Text

pub record ToolTrace : Type 0 where
  pub timestamp : Text
  pub tool : Text
  pub summary : Text
  pub is_error : Bool

pub record LastResult : Type 0 where
  pub status : Text
  pub tool_calls : ℕ
  pub kpis : Dict Text
  pub tool_trace : List ToolTrace
  pub findings : List Finding
  pub error : Text

pub record Target : Type 0 where
  pub forge : Text
  pub org : Text
  pub repo : Text
  pub branch : Text

-- The campaign as `Dispatch` of a backend decodes it, with `guardrails`, `metrics` and `outputs`
-- flattened. A backend that does not decode a field does not read it.
pub record AgentCampaign : Type 0 where
  pub id : Text
  pub name : Text
  pub description : Text
  pub process : List Text
  pub tools : List Text
  pub mode : Text
  pub model : Text
  pub targets : List Target
  pub max_duration : Text
  pub read_only : Bool
  pub success_criteria : Text
  pub kpis : List Text
  pub setec_key : Text

-- `AgentBackend`
pub record AgentBackend (W : Type 0) : Type 0 where
  pub dispatch : Text → Text → W → Result LastResult × W
  pub health : W → Option Text × W
  pub type_name : Text

-- `truncate`, for a maximum of at least 3
unfoldable pub truncate : Text → ℕ → Text
unfolding lit
truncate s max = if leb (length s) max then s else take (max - 3) s ++ lit "..."

abbrev pub stamp : Text → Text → Finding → Finding
stamp campaign_id run_id f = record f { campaign_id = campaign_id; run_id = run_id }

abbrev decoded : Option (List Finding) → Text → Text → List Finding
decoded none campaign_id run_id = []
decoded (some fs) campaign_id run_id = map (stamp campaign_id run_id) fs

-- The part of `extractFindings` after the start marker, up to the end marker.
unfoldable pub findings_in : (Text → Option (List Finding)) → Text → Text → Text → List Finding
unfolding lit index trim_space
findings_in unmarshal text campaign_id run_id = elim (index text (lit "__end_findings__")) [
  | none ↦ []
  | some end ↦
      let json = trim_space (take end text) in
      if is_empty json then [] else decoded (unmarshal json) campaign_id run_id
]

-- `extractFindings`, with `json.Unmarshal`
unfoldable pub extract_findings : (Text → Option (List Finding)) → Text → Text → Text → List Finding
unfolding lit index findings_in
extract_findings unmarshal text campaign_id run_id = elim (index text (lit "__findings__")) [
  | none ↦ []
  | some start ↦ findings_in unmarshal (drop (start + 12) text) campaign_id run_id
]
