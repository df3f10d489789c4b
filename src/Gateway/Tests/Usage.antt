-- ===== src/Gateway/Tests/Usage.antt =====
-- The theorems on metering, the webhook and usage queries, at concrete inputs.
use remote_juggler.Prelude.{
  ℕ, ◌+◌, ◌*◌, ◌^◌, ◌≤◌, ◌<◌, ◌≡◌, refl, ◌⊎◌, true, false, Option, none, some, List, [], ◌∷◌, ◌==◌,
  nat_eq, if◌then◌else◌, length, arith, keep, not,
}
use remote_juggler.Prelude.Int.{add64, pos}
use remote_juggler.Text.{Text, lit, text_eq, same, is_empty}
use remote_juggler.Dict.{Dict, lookup, insert, values}
use remote_juggler.Result.{ok}
use remote_juggler.Gateway.Metering.{
  MeterRecord, MeterBucket, MeterStore, new_meter_store, set_flush_callback, bucket_key,
  count_record, record_usage, flush, remember, bump, merge_bucket, put_back,
}
use remote_juggler.Gateway.Metering.Totals.{
  calls, inputs, total, taken, is_duplicate, weight, total-record_usage, total-flush,
}
use remote_juggler.Gateway.Metering.Keys.{
  IsKeyed, record_usage-IsKeyed, record_usage-seen_bounded, record_usage_again,
}
use remote_juggler.Gateway.Aperture.{ApertureUsage, query_usage}
use remote_juggler.Gateway.Aperture.Usage.{IsSumOf, query_usage-sum}
use remote_juggler.Gateway.Webhook.Payload.{ApertureEvent, Decoders}
use remote_juggler.Gateway.Webhook.{
  ApertureWebhookReceiver, MetricEvent, accepted_of, parse_body, handle_webhook, meter_record,
  process_metric, output_of,
}
use remote_juggler.Gateway.Webhook.Receiver.{handle_webhook_authorized}
use remote_juggler.Gateway.Webhook.Sources.{metric_after_webhook}

abbrev as_listed : Dict ℕ → Dict ℕ
as_listed d = d

abbrev a_call : MeterRecord
a_call = record {
  agent = lit "openclaw";
  campaign_id = lit "oc-dep-audit";
  tool_name = lit "juggler_status";
  request_bytes = 120;
  response_bytes = 4096;
  duration_ms = 35;
  timestamp = 1000;
  is_error = false;
  input_tokens = 7;
  output_tokens = 11;
  dedupe_key = lit "m:openclaw:7:11:0";
}

abbrev refuse : List MeterBucket → Option Text
refuse bs = some (lit "disk full")

-- A store whose callback fails, before and after a call is recorded.
abbrev failing : MeterStore
failing = set_flush_callback refuse new_meter_store

abbrev metered : MeterStore
metered = record_usage as_listed 1000 1001 a_call failing

-- Another call comes in while the callback runs.
abbrev meanwhile : MeterStore → MeterStore
meanwhile = record_usage as_listed 2000 2001 (record a_call { dedupe_key = [] })

total-record_usage_example :
    total calls (record_usage as_listed 1000 1001 a_call failing).buckets ≡ (
      if is_duplicate a_call failing
      then total calls failing.buckets
      else add64 (total calls failing.buckets) (weight calls a_call))
total-record_usage_example = total-record_usage as_listed 1000 1001 a_call failing calls

total-flush_example :
    add64
      (taken (λ bs. some (lit "disk full")) (values metered.buckets) inputs)
      (total inputs (flush meanwhile metered).1.buckets)
    ≡ add64 (total inputs metered.buckets) (
        if length (values metered.buckets) == 0
        then 0
        else total inputs (meanwhile (record metered { buckets = [] })).buckets)
unfolding record_usage remember set_flush_callback new_meter_store
total-flush_example = total-flush meanwhile (λ bs. some (lit "disk full")) metered inputs refl

-- The failed flush keeps both calls, in one bucket.
flush_test : total inputs (flush meanwhile metered).1.buckets ≡ 14
unfolding flush record_usage remember count_record bump merge_bucket put_back lookup insert values
    bucket_key new_meter_store set_flush_callback lit same
flush_test = refl

failing_IsKeyed : IsKeyed failing.buckets
unfolding set_flush_callback new_meter_store
failing_IsKeyed = record { own = tt; nodup = tt }

meanwhile-IsKeyed : (m : MeterStore) → IsKeyed m.buckets → IsKeyed (meanwhile m).buckets
meanwhile-IsKeyed m h =
    record_usage-IsKeyed as_listed 2000 2001 (record a_call { dedupe_key = [] }) m h

seen_room : (length failing.seen ≤ failing.seen_size) × (length failing.seen < failing.seen_size)
unfolding set_flush_callback new_meter_store
seen_room = (omega arith, omega arith)

record_usage-seen_bounded_example :
    length (record_usage as_listed 1000 1001 a_call failing).seen ≤ failing.seen_size
record_usage-seen_bounded_example =
    record_usage-seen_bounded as_listed 1000 1001 a_call failing (λ d. refl) seen_room.0

record_usage_again_example : record_usage as_listed 3000 3001 a_call metered ≡ metered
unfolding lit
record_usage_again_example =
    record_usage_again as_listed 1000 1001 3000 3001 a_call a_call failing refl refl seen_room.1

-- A call of agent `a` on campaign `b:c`, and one of agent `a:b` on campaign `c`.
abbrev own_call : MeterRecord
own_call = record a_call { agent = lit "a"; campaign_id = lit "b:c" }

abbrev foreign_call : MeterRecord
foreign_call = record a_call { agent = lit "a:b"; campaign_id = lit "c" }

abbrev no_buckets : Dict MeterBucket
no_buckets = []

query_usage-sum_example :
    (u : ApertureUsage) × (query_usage
        (record { base_url = []; meter_store = some metered })
        (lit "oc-dep-audit")
        (lit "openclaw")
      ≡ ok u)
    × IsSumOf (lit "openclaw") (lit "oc-dep-audit") (values metered.buckets) u
query_usage-sum_example = query_usage-sum [] (lit "oc-dep-audit") (lit "openclaw") metered

abbrev a_webhook_call : ApertureEvent
a_webhook_call = record {
  type = lit "llm_call";
  timestamp = 5 * 10 ^ 9 + 100;
  agent = lit "jess@example.org";
  campaign_id = lit "oc-dep-audit";
  model = lit "claude";
  provider = lit "anthropic";
  tokens = pos 0;
  input_tokens = pos 7;
  output_tokens = pos 11;
  duration_ms = pos 40;
  error = [];
  tool_names = [];
  request_id = [];
  session_id = [];
  raw = [];
}

-- Decoders that know one body.
abbrev some_decoders : Decoders
some_decoders = record {
  hook = λ body. none;
  usage = λ body. none;
  array = λ body.
      if body == lit "[e]"
      then some (a_webhook_call ∷ record a_webhook_call { type = [] } ∷ [])
      else none;
  single = λ body. none;
}

abbrev a_receiver : ApertureWebhookReceiver
a_receiver = record {
  events = [];
  max_size = 1000;
  meter = some new_meter_store;
  webhook_secret = lit "s3cret";
}

handle_webhook_authorized_example :
    let (reply, r') =
      handle_webhook as_listed 9 9 some_decoders
        (lit "POST")
        (lit "s3cret")
        (some (lit "[e]"))
        a_receiver in
    (r' ≡ a_receiver)
    ⊎ ((lit "POST" ≡ lit "POST")
        × ((is_empty a_receiver.webhook_secret ≡ true) ⊎ (lit "s3cret" ≡ a_receiver.webhook_secret))
        × ((es : List ApertureEvent) × (parse_body some_decoders (some (lit "[e]")) ≡ some es)
            × (reply ≡ accepted_of (length (keep (λ e. not (is_empty e.type)) es)) (length es))))
handle_webhook_authorized_example =
    handle_webhook_authorized as_listed 9 9 some_decoders (lit "POST") (lit "s3cret")
      (some (lit "[e]")) a_receiver

abbrev a_metric : MetricEvent
a_metric = record {
  model = lit "claude";
  input_tokens = pos 7;
  output_tokens = pos 11;
  timestamp = 5 * 10 ^ 9 + 900;
  duration_ms = pos 41;
  status_code = pos 200;
  login_name = lit "jess@example.org";
  stable_node_id = lit "n1";
}

room_for_one : length new_meter_store.seen < new_meter_store.seen_size
unfolding new_meter_store
room_for_one = omega arith

metric_after_webhook_example :
    process_metric as_listed 3 4 a_metric
      (record_usage as_listed 1 2 (meter_record a_webhook_call) new_meter_store)
    ≡ record_usage as_listed 1 2 (meter_record a_webhook_call) new_meter_store
unfolding output_of lit
metric_after_webhook_example =
    metric_after_webhook as_listed 1 2 3 4 a_webhook_call a_metric new_meter_store refl refl refl
      refl refl refl room_for_one
