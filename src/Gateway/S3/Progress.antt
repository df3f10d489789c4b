-- ===== src/Gateway/S3/Progress.antt =====
-- What the ingestion of files keeps of its progress.
use remote_juggler.Prelude.{ℕ, ◌/◌, ◌^◌, ◌<◌, ◌≡◌, refl, length}
use remote_juggler.Text.{Text}
use remote_juggler.Dict.{Dict}
use remote_juggler.Gateway.Metering.{MeterStore, record_usage}
use remote_juggler.Gateway.Webhook.Sources.{append-ne}
use remote_juggler.Gateway.Metering.Keys.{record_usage_again}
use remote_juggler.Gateway.Webhook.{MetricEvent, metric_record, process_metric, dedupe_key}
use remote_juggler.Gateway.S3.{S3Record, meter_record}

-- A call that the event stream reported, and an export file lists again with the same model, agent,
-- tokens and second, is not counted again, while the set of keys has room.
pub export_after_metric :
    (range : Dict ℕ → Dict ℕ) (t1 e1 t2 e2 : ℕ) (m : MetricEvent) (r : S3Record) (s : MeterStore)
    → r.model ≡ m.model
    → r.agent ≡ (metric_record m).agent
    → r.input_tokens ≡ m.input_tokens
    → r.output_tokens ≡ m.output_tokens
    → r.timestamp / 10 ^ 9 ≡ m.timestamp / 10 ^ 9
    → length s.seen < s.seen_size
    → let s' = process_metric range t1 e1 m s in record_usage range t2 e2 (meter_record r) s' ≡ s'
unfolding process_metric metric_record meter_record dedupe_key
export_after_metric range t1 e1 t2 e2 m r s model agent input output second room =
    record_usage_again range t1 e1 t2 e2 (metric_record m) (meter_record r) s
      (append-ne m.model _ refl) (rw (model, agent, input, output, second) refl) room
