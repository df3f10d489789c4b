-- ===== src/Gateway/Tests/Exports.antt =====
-- The theorems on the export files and on the GitHub tools, at concrete inputs.
use remote_juggler.Prelude.{
  ℕ, ◌+◌, ◌*◌, ◌^◌, ◌<◌, ◌≡◌, refl, arith, none, [], ◌==◌, nat_eq, length, if◌then◌else◌,
}
use remote_juggler.Prelude.Int.{pos}
use remote_juggler.Text.{Text, lit, text_eq, same, has_prefix}
use remote_juggler.Result.{ok, err}
use remote_juggler.Http.{Transport}
use remote_juggler.Gateway.Metering.{new_meter_store, record_usage}
use remote_juggler.Gateway.Webhook.{MetricEvent, metric_record, process_metric}
use remote_juggler.Gateway.S3
use remote_juggler.Gateway.S3.Sign.{Signing, S3Config}
use remote_juggler.Gateway.S3.{S3Record, Ingester, meter_record}
use remote_juggler.Gateway.S3.Progress.{export_after_metric}
use remote_juggler.Gateway.Github.Request.{GithubCodecs, FileContent, do_request}
use remote_juggler.Gateway.Github.Files.{patch_file}
use remote_juggler.Gateway.Github.Patches.{patch_file-First, put_request}
use remote_juggler.Gateway.Tests.Tools.{answering, values, as_listed}

abbrev signing : Signing ℕ
signing = record {
  clock = λ w. w;
  hmac_sha256 = λ k s. s;
  sha256_hex = λ s. s;
  hex = λ s. s;
  datestamp = λ n. [];
  amz_date = λ n. [];
  url_host = λ s. s;
  url_path = λ s. s;
  encoded_query = λ s. s;
}

abbrev s3_codecs : S3.Codecs
s3_codecs = record {
  unmarshal_records = λ s. err [];
  unmarshal_record = λ s. err [];
  unmarshal_listing = λ s. none;
  url_query = λ s. [];
}

abbrev a_bucket : S3Config
a_bucket = record {
  bucket = lit "usage";
  region = lit "eu";
  prefix = [];
  endpoint = [];
  access_key = [];
  secret_key = [];
}

abbrev at_start : Ingester
at_start = record { last_key = []; meter = new_meter_store }

-- The bucket's files are answered in turn: the first cannot be fetched.
abbrev first_fails : Transport ℕ
first_fails = record {
  new_request = λ q. none;
  send = λ q w. (
    ok (record { status_code = if w == 0 then 503 else 200; body = []; read_error = none }),
    w + 1,
  );
}

abbrev a_metric : MetricEvent
a_metric = record {
  model = lit "claude";
  input_tokens = pos 7;
  output_tokens = pos 11;
  timestamp = 5 * 10 ^ 9 + 900;
  duration_ms = pos 41;
  status_code = pos 200;
  login_name = lit "jess@example.org";
  stable_node_id = lit "n1";
}

abbrev an_export : S3Record
an_export = record {
  timestamp = 5 * 10 ^ 9;
  agent = lit "jess@example.org";
  campaign_id = [];
  model = lit "claude";
  input_tokens = pos 7;
  output_tokens = pos 11;
  duration_ms = pos 41;
  error = [];
}

room_for_one : length new_meter_store.seen < new_meter_store.seen_size
unfolding new_meter_store
room_for_one = omega arith

export_after_metric_example :
    let s' = process_metric as_listed 1 2 a_metric new_meter_store in
    record_usage as_listed 3 4 (meter_record an_export) s' ≡ s'
unfolding lit metric_record
export_after_metric_example =
    export_after_metric as_listed 1 2 3 4 a_metric an_export new_meter_store refl refl refl refl
      refl room_for_one

abbrev pub github_codecs : GithubCodecs ℕ Text
github_codecs = record {
  api_base = lit "https://api";
  token = λ w. (ok (lit "t"), w);
  unmarshal_file = λ s. err [];
  unmarshal_list = λ s. err [];
  unmarshal_object = λ s. err [];
  unmarshal_ref = λ s. err [];
  sha_of = λ s. [];
  put_sha = λ s. [];
  put_path = λ s. [];
  unmarshal_issue = λ s. err [];
  arg_labels = λ s. [];
  encode_value = λ s. s;
  decode_value = λ s. ok s;
  quote = λ s. s;
}

-- A file with two places of `b`.
abbrev a_file : FileContent
a_file = record {
  content = lit "abcb";
  encoding = lit "utf-8";
  sha = lit "sha1";
  size = pos 4;
  path = lit "p";
}

abbrev file_codecs : GithubCodecs ℕ Text
file_codecs = record github_codecs { unmarshal_file = λ s. ok a_file }

-- The first of them is replaced.
patch_file-First_example :
    (patch_file answering values file_codecs (lit "{}") 7).1
    ≡ (put_request answering values file_codecs (lit "{}") (lit "axycb") (lit "sha1") 8).1
unfolding lit same has_prefix do_request
patch_file-First_example =
    patch_file-First answering values file_codecs (lit "{}") (lit "a") (lit "cb") 7 8
      (record { status_code = 200; body = []; read_error = none }) a_file refl refl refl refl refl
      refl refl (refl, tt)
