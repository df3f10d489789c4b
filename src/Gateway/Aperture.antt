-- ===== src/Gateway/Aperture.antt =====
-- Usage queries of gateway/aperture.go over the meter store. Counters are 64-bit patterns.
pub mod Usage
pub mod Tool
use remote_juggler.Prelude.{
  ℕ, Bool, Option, none, some, List, [], ◌∷◌, not, ◌||◌, is_some, if◌then◌else◌,
}
use remote_juggler.Prelude.Int.{add64}
use remote_juggler.Text.{Text, lit, is_empty}
use remote_juggler.Result.{Result, ok, err}
use remote_juggler.Gateway.Metering.{MeterBucket, MeterStore, query}

pub record ApertureClient : Type 0 where
  pub base_url : Text
  pub meter_store : Option MeterStore

unfoldable pub configured : ApertureClient → Bool
configured a = not (is_empty a.base_url) || is_some a.meter_store

pub record ApertureUsage : Type 0 where
  pub campaign_id : Text
  pub agent : Text
  pub total_calls : ℕ
  pub total_tokens : ℕ
  pub period : Text
  pub source : Text
  pub input_tokens : ℕ
  pub output_tokens : ℕ
  pub mcp_tool_calls : ℕ
  pub mcp_request_bytes : ℕ
  pub mcp_response_bytes : ℕ
  pub mcp_error_count : ℕ

-- One round of the loop over the buckets. The locals `totalInputTokens` and `totalOutputTokens` are
-- kept in the fields that they are copied to.
abbrev add_bucket : ApertureUsage → MeterBucket → ApertureUsage
add_bucket u b = record u {
  mcp_tool_calls = add64 u.mcp_tool_calls b.tool_calls;
  mcp_request_bytes = add64 u.mcp_request_bytes b.request_bytes;
  mcp_response_bytes = add64 u.mcp_response_bytes b.response_bytes;
  mcp_error_count = add64 u.mcp_error_count b.error_count;
  input_tokens = add64 u.input_tokens b.input_tokens;
  output_tokens = add64 u.output_tokens b.output_tokens;
}

unfoldable pub add_buckets : ApertureUsage → List MeterBucket → ApertureUsage
add_buckets u [] = u
add_buckets u (b ∷ bs) = add_buckets (add_bucket u b) bs

-- The assignments after the loop.
abbrev finish : ApertureUsage → ApertureUsage
finish u = record u {
  total_calls = u.mcp_tool_calls;
  total_tokens = add64 u.input_tokens u.output_tokens;
  source = lit "mcp_metering";
}

abbrev pub empty_usage : Text → Text → ApertureUsage
empty_usage campaign_id agent = record {
  campaign_id = campaign_id;
  agent = agent;
  total_calls = 0;
  total_tokens = 0;
  period = [];
  source = [];
  input_tokens = 0;
  output_tokens = 0;
  mcp_tool_calls = 0;
  mcp_request_bytes = 0;
  mcp_response_bytes = 0;
  mcp_error_count = 0;
}

-- `QueryUsage`
unfoldable pub query_usage : ApertureClient → Text → Text → Result ApertureUsage
unfolding configured add_buckets query lit
query_usage a campaign_id agent =
    if configured a
    then elim a.meter_store [
      | none ↦ ok (record (empty_usage campaign_id agent) { source = lit "none" })
      | some m ↦
          ok (finish (add_buckets (empty_usage campaign_id agent) (query agent campaign_id m)))
    ]
    else err (lit "aperture not configured")
