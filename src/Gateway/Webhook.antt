-- ===== src/Gateway/Webhook.antt =====
-- Usage events from Aperture: the webhook receiver of gateway/aperture_webhook.go, and the metrics
-- of the event stream of gateway/aperture_sse.go. Both feed the meter store. Times are nanoseconds
-- from Go's zero time, which is 0.
pub mod Payload
pub mod Receiver
pub mod Sources
use remote_juggler.Prelude.{
  ℕ, zero, suc, ◌+◌, ◌-◌, ◌*◌, ◌/◌, ◌^◌, Bool, true, false, Option, none, some, List, [], ◌∷◌, ◌++◌,
  not, ◌&&◌, ltb, leb, length, drop, ◌==◌, nat_eq, if◌then◌else◌,
}
use remote_juggler.Prelude.Int.{ℤ, pos, negsuc, bits, sub_ℕ}
use remote_juggler.Text.{Text, lit, text_eq, same, is_empty, print_int}
use remote_juggler.Gateway.Webhook.Payload.{ApertureEvent, Decoders, parse_payload}
use remote_juggler.Dict.{Dict}
use remote_juggler.Gateway.Metering.{MeterRecord, MeterStore, record_usage}
use remote_juggler.Gateway.Newest.{newest_from}

pub record ApertureWebhookReceiver : Type 0 where
  pub events : List ApertureEvent
  pub max_size : ℕ
  pub meter : Option MeterStore
  pub webhook_secret : Text

unfoldable pub new_receiver : ℤ → Option MeterStore → Text → ApertureWebhookReceiver
new_receiver size meter secret = record {
  events = [];
  max_size = elim size [ negsuc n ↦ 1000 | pos n ↦ if n == 0 then 1000 else n ];
  meter = meter;
  webhook_secret = secret;
}

-- `Timestamp.Unix()`: seconds since 1970, which is 62135596800 seconds after Go's zero time. The
-- receiver stamps an event without a time before it gets here.
abbrev unix : ℕ → ℤ
unix t = sub_ℕ (t / 10 ^ 9) 62135596800

-- The composite key of both sources: model, agent, tokens and second.
unfoldable pub dedupe_key : Text → Text → ℤ → ℤ → ℕ → Text
unfolding lit print_int
dedupe_key model agent input output t =
    model
    ++ (lit ":"
        ++ (agent
            ++ (lit ":"
                ++ (print_int input
                    ++ (lit ":" ++ (print_int output ++ (lit ":" ++ print_int (unix t))))))))

abbrev is_zero : ℤ → Bool
is_zero (pos n) = n == 0
is_zero (negsuc n) = false

abbrev is_positive : ℤ → Bool
is_positive (pos n) = ltb 0 n
is_positive (negsuc n) = false

-- An event that gives only `tokens` has them counted as output.
unfoldable pub output_of : ApertureEvent → ℤ
output_of e =
    if is_zero e.input_tokens && (is_zero e.output_tokens && is_positive e.tokens)
    then e.tokens
    else e.output_tokens

-- The meter record of an event of type `llm_call`.
unfoldable pub meter_record : ApertureEvent → MeterRecord
unfolding lit dedupe_key output_of
meter_record e = record {
  agent = e.agent;
  campaign_id = e.campaign_id;
  tool_name = lit "llm:" ++ e.model;
  request_bytes = 0;
  response_bytes = 0;
  duration_ms = bits e.duration_ms;
  timestamp = e.timestamp;
  is_error = not (is_empty e.error);
  input_tokens = bits e.input_tokens;
  output_tokens = bits (output_of e);
  dedupe_key = dedupe_key e.model e.agent e.input_tokens (output_of e) e.timestamp;
}

-- A metric of the event stream.
pub record MetricEvent : Type 0 where
  pub model : Text
  pub input_tokens : ℤ
  pub output_tokens : ℤ
  pub timestamp : ℕ
  pub duration_ms : ℤ
  pub status_code : ℤ
  pub login_name : Text
  pub stable_node_id : Text

abbrev at_least_400 : ℤ → Bool
at_least_400 (pos n) = leb 400 n
at_least_400 (negsuc n) = false

unfoldable pub metric_record : MetricEvent → MeterRecord
unfolding lit dedupe_key
metric_record m =
    let agent = if is_empty m.login_name then m.stable_node_id else m.login_name in
    record {
      agent = agent;
      campaign_id = [];
      tool_name = lit "llm:" ++ m.model;
      request_bytes = 0;
      response_bytes = 0;
      duration_ms = bits m.duration_ms;
      timestamp = m.timestamp;
      is_error = at_least_400 m.status_code;
      input_tokens = bits m.input_tokens;
      output_tokens = bits m.output_tokens;
      dedupe_key = dedupe_key m.model agent m.input_tokens m.output_tokens m.timestamp;
    }

-- An event without a time gets the present one.
abbrev pub stamp : ℕ → ApertureEvent → ApertureEvent
stamp now e = if e.timestamp == 0 then record e { timestamp = now } else e

abbrev pub parse_body : Decoders → Option Text → Option (List ApertureEvent)
parse_body d none = none
parse_body d (some body) = parse_payload d body

-- The replies of `HandleWebhook`; the last has the events that were accepted, and all of them.
pub data WebhookReply : Type 0 where
  method_not_allowed : WebhookReply
  unauthorized : WebhookReply
  bad_request : WebhookReply
  accepted_of : ℕ → ℕ → WebhookReply

-- What `record` and `processMetric` need of the clock and of Go's maps.
module _ (range : Dict ℕ → Dict ℕ) (now evict_now : ℕ) where
  abbrev merge : ApertureEvent → Option MeterStore → Option MeterStore
  merge e none = none
  merge e (some m) =
      if e.type == lit "llm_call"
      then some (record_usage range now evict_now (meter_record e) m)
      else some m

  -- `record`
  unfoldable pub receive : ApertureEvent → ApertureWebhookReceiver → ApertureWebhookReceiver
  unfolding lit meter_record record_usage
  receive e r = record r {
    events = (if leb r.max_size (length r.events) then drop 1 r.events else r.events) ++ (e ∷ []);
    meter = merge e r.meter;
  }

  -- `processMetric`, after the decoding.
  unfoldable pub process_metric : MetricEvent → MeterStore → MeterStore
  unfolding metric_record record_usage
  process_metric e m = record_usage range now evict_now (metric_record e) m

  -- The loop of `HandleWebhook`: an event without a type is skipped.
  unfoldable pub receive_all :
      List ApertureEvent → ℕ → ApertureWebhookReceiver → ℕ × ApertureWebhookReceiver
  unfolding receive
  receive_all [] accepted r = (accepted, r)
  receive_all (e ∷ es) accepted r =
      receive_all es (if is_empty e.type then accepted else accepted + 1)
        (if is_empty e.type then r else receive (stamp now e) r)

  abbrev answer :
      Option (List ApertureEvent) → ApertureWebhookReceiver → WebhookReply × ApertureWebhookReceiver
  answer none r = (bad_request, r)
  answer (some es) r =
      let (accepted, r') = receive_all es 0 r in (accepted_of accepted (length es), r')

  -- `HandleWebhook` on a method, the header X-Webhook-Secret, and a body, which is `none` if it
  -- cannot be read.
  unfoldable pub handle_webhook :
      Decoders
      → Text
      → Text
      → Option Text
      → ApertureWebhookReceiver
      → WebhookReply × ApertureWebhookReceiver
  unfolding lit receive_all parse_payload
  handle_webhook d method secret body r =
      if not (method == lit "POST")
      then (method_not_allowed, r)
      else if not (is_empty r.webhook_secret) && not (secret == r.webhook_secret)
      then (unauthorized, r)
      else answer (parse_body d body) r

-- `Recent`; `none` is a panic, of an index or of a negative length.
unfoldable pub recent : ℤ → ApertureWebhookReceiver → Option (List ApertureEvent)
unfolding newest_from
recent (negsuc n) r = none
recent (pos n) r = newest_from r.events 0 (if ltb (length r.events) n then length r.events else n)
