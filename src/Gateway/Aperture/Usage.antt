-- ===== src/Gateway/Aperture/Usage.antt =====
-- A usage query adds up what was recorded.
use remote_juggler.Prelude.{
  ℕ, ◌+◌, ◌%◌, ◌≡◌, refl, ap, ◌∙◌, ◌&&◌, ◌||◌, ◌==◌, keep, if◌then◌else◌, Bool-cases, inl, inr,
  true, some, List, [], ◌∷◌, arith, ◌≢◌,
}
use remote_juggler.Prelude.Int.{word, add64}
use remote_juggler.Text.{Text, lit, text_eq, is_empty}
use remote_juggler.Result.{ok}
use remote_juggler.Dict.{values}
use remote_juggler.Gateway.Metering.{MeterBucket, MeterStore, query}
use remote_juggler.Gateway.Metering.Totals.{
  Counter, calls, requests, responses, errors, durations, inputs, outputs, reading, sum,
}
use remote_juggler.Gateway.Aperture.{
  ApertureUsage, configured, add_buckets, add_bucket, finish, empty_usage, query_usage,
}

-- The sum of a counter over the buckets of this agent and this campaign; an empty name stands for any.
abbrev pub sum_of : Counter → Text → Text → List MeterBucket → ℕ
sum_of c agent campaign_id [] = 0
sum_of c agent campaign_id (b ∷ bs) =
    let rest = sum_of c agent campaign_id bs in
    if (is_empty agent || b.agent == agent)
      && (is_empty campaign_id || b.campaign_id == campaign_id)
    then reading c b + rest
    else rest

-- The answer adds these buckets up, counter by counter, and is of the metering source.
pub record IsSumOf (agent campaign_id : Text) (bs : List MeterBucket) (u : ApertureUsage)
    : Type 0 where
  pub tool_calls_ok : u.mcp_tool_calls ≡ sum_of calls agent campaign_id bs % word
  pub source_ok : u.source ≡ lit "mcp_metering"
  pub calls_ok : u.total_calls ≡ sum_of calls agent campaign_id bs % word
  pub requests_ok : u.mcp_request_bytes ≡ sum_of requests agent campaign_id bs % word
  pub responses_ok : u.mcp_response_bytes ≡ sum_of responses agent campaign_id bs % word
  pub errors_ok : u.mcp_error_count ≡ sum_of errors agent campaign_id bs % word
  pub inputs_ok : u.input_tokens ≡ sum_of inputs agent campaign_id bs % word
  pub outputs_ok : u.output_tokens ≡ sum_of outputs agent campaign_id bs % word
  pub tokens_ok : u.total_tokens ≡ add64 u.input_tokens u.output_tokens

abbrev shown : Counter → ApertureUsage → ℕ
shown calls u = u.mcp_tool_calls
shown requests u = u.mcp_request_bytes
shown responses u = u.mcp_response_bytes
shown errors u = u.mcp_error_count
shown inputs u = u.input_tokens
shown outputs u = u.output_tokens
shown _ u = 0

shown-add_bucket :
    (c : Counter) (u : ApertureUsage) (b : MeterBucket)
    → c ≢ durations
    → shown c (add_bucket u b) ≡ add64 (shown c u) (reading c b)
shown-add_bucket durations u b nd = absurd (nd refl)
shown-add_bucket _ u b nd = refl

add_buckets-sum :
    (c : Counter) (u : ApertureUsage) (bs : List MeterBucket)
    → c ≢ durations
    → shown c u % word ≡ shown c u
    → shown c (add_buckets u bs) ≡ (shown c u + sum c bs) % word
unfolding add_buckets
add_buckets-sum c u [] nd h = omega arith
add_buckets-sum c u (b ∷ bs) nd h =
    let step = shown-add_bucket c u b nd in
    omega (arith, step, add_buckets-sum c (add_bucket u b) bs nd (omega arith))

from_zero :
    (c : Counter) (agent campaign_id : Text) (bs : List MeterBucket)
    → c ≢ durations
    → shown c (empty_usage campaign_id agent) ≡ 0
    → shown c (add_buckets (empty_usage campaign_id agent) bs) ≡ sum c bs % word
from_zero c agent campaign_id bs nd z =
    omega (arith, add_buckets-sum c (empty_usage campaign_id agent) bs nd (omega arith))

sum-keep :
    (c : Counter) (agent campaign_id : Text) (bs : List MeterBucket)
    → sum c (
        keep
          (λ b.
            (is_empty agent || b.agent == agent)
            && (is_empty campaign_id || b.campaign_id == campaign_id))
          bs)
      ≡ sum_of c agent campaign_id bs
sum-keep c agent campaign_id [] = refl
sum-keep c agent campaign_id (b ∷ bs) =
    elim (Bool-cases (
      (is_empty agent || b.agent == agent)
      && (is_empty campaign_id || b.campaign_id == campaign_id))) [
        | inl matching ↦ rw matching (ap (λ n. reading c b + n) (sum-keep c agent campaign_id bs))
        | inr other ↦ rw other (sum-keep c agent campaign_id bs)
      ]

meter_configured :
    (base_url : Text) (m : MeterStore)
    → configured (record { base_url = base_url; meter_store = some m }) ≡ true
unfolding configured
meter_configured base_url m = ground arith

-- With a meter store, a usage query answers with the sums, for all counters that it shows, over the buckets of
-- the store that are of the agent and of the campaign asked for, where an empty name stands for any.
pub query_usage-sum :
    (base_url campaign_id agent : Text) (m : MeterStore)
    → (u : ApertureUsage) × (query_usage
          (record { base_url = base_url; meter_store = some m })
          campaign_id
          agent
        ≡ ok u)
      × IsSumOf agent campaign_id (values m.buckets) u
unfolding query_usage query
query_usage-sum base_url campaign_id agent m =
    let bs = query agent campaign_id m in
    let summed : (c : Counter)
        → c ≢ durations
        → shown c (empty_usage campaign_id agent) ≡ 0
        → shown c (add_buckets (empty_usage campaign_id agent) bs)
          ≡ sum_of c agent campaign_id (values m.buckets) % word =
      λ c nd z.
        from_zero c agent campaign_id bs nd z
        ∙ ap (λ n. n % word) (sum-keep c agent campaign_id (values m.buckets)) in
    let u = add_buckets (empty_usage campaign_id agent) bs in
    (
      finish u,
      rw (meter_configured base_url m),
      record {
        tool_calls_ok = summed calls (λ e. cc) refl;
        source_ok = refl;
        calls_ok = summed calls (λ e. cc) refl;
        requests_ok = summed requests (λ e. cc) refl;
        responses_ok = summed responses (λ e. cc) refl;
        errors_ok = summed errors (λ e. cc) refl;
        inputs_ok = summed inputs (λ e. cc) refl;
        outputs_ok = summed outputs (λ e. cc) refl;
        tokens_ok = refl;
      },
    )
