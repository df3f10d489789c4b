-- ===== src/Gateway/Webhook/Sources.antt =====
-- The two sources of usage events agree on the key of a call, so that it is counted once.
use remote_juggler.Prelude.{ℕ, ◌/◌, ◌^◌, ◌<◌, ◌≡◌, refl, false, [], ◌∷◌, ◌++◌, length}
use remote_juggler.Text.{Text, is_empty}
use remote_juggler.Prelude.Int.{ℤ}
use remote_juggler.Dict.{Dict}
use remote_juggler.Gateway.Metering.{MeterStore, record_usage}
use remote_juggler.Gateway.Metering.Keys.{record_usage_again}
use remote_juggler.Gateway.Webhook.Payload.{ApertureEvent}
use remote_juggler.Gateway.Webhook.{
  MetricEvent, meter_record, metric_record, process_metric, output_of, dedupe_key,
}

pub append-ne : (s t : Text) → is_empty t ≡ false → is_empty (s ++ t) ≡ false
append-ne [] t h = h
append-ne (a ∷ s) t h = refl

dedupe_key-ne : (e : ApertureEvent) → is_empty (meter_record e).dedupe_key ≡ false
unfolding meter_record
dedupe_key-ne e = append-ne e.model _ refl

dedupe_key-second :
    (model agent : Text) (input output : ℤ) (t t' : ℕ)
    → t / 10 ^ 9 ≡ t' / 10 ^ 9
    → dedupe_key model agent input output t ≡ dedupe_key model agent input output t'
unfolding dedupe_key
dedupe_key-second model agent input output t t' h = rw h

same_key :
    (e : ApertureEvent) (m : MetricEvent)
    → m.model ≡ e.model
    → m.login_name ≡ e.agent
    → is_empty e.agent ≡ false
    → m.input_tokens ≡ e.input_tokens
    → m.output_tokens ≡ output_of e
    → m.timestamp / 10 ^ 9 ≡ e.timestamp / 10 ^ 9
    → (metric_record m).dedupe_key ≡ (meter_record e).dedupe_key
unfolding metric_record meter_record
same_key e m model agent named input output second =
    rw (model, agent, named, input, output)
      (dedupe_key-second e.model e.agent e.input_tokens (output_of e) m.timestamp e.timestamp
        second)

-- A call that the webhook reported with a login name that is not empty, and that the event stream reports
-- again with the same model, login name, tokens and second, is not counted again, if the set of keys had
-- room before.
pub metric_after_webhook :
    (range : Dict ℕ → Dict ℕ) (t1 e1 t2 e2 : ℕ) (e : ApertureEvent) (m : MetricEvent)
    (s : MeterStore)
    → m.model ≡ e.model
    → m.login_name ≡ e.agent
    → is_empty e.agent ≡ false
    → m.input_tokens ≡ e.input_tokens
    → m.output_tokens ≡ output_of e
    → m.timestamp / 10 ^ 9 ≡ e.timestamp / 10 ^ 9
    → length s.seen < s.seen_size
    → let s' = record_usage range t1 e1 (meter_record e) s in process_metric range t2 e2 m s' ≡ s'
unfolding process_metric
metric_after_webhook range t1 e1 t2 e2 e m s model agent named input output second room =
    record_usage_again range t1 e1 t2 e2 (meter_record e) (metric_record m) s (dedupe_key-ne e)
      (same_key e m model agent named input output second) room
