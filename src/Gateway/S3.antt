-- ===== src/Gateway/S3.antt =====
-- The ingestion of Aperture's export files, gateway/aperture_s3.go. Times are nanoseconds from Go's zero time.
pub mod Sign
pub mod Progress
use remote_juggler.Prelude.{
  ℕ, suc, ◌≤◌, Bool, true, false, Option, none, some, List, [], ◌∷◌, ◌++◌, not, ◌&&◌, ◌||◌, ltb,
  leb, ◌==◌, nat_eq, length, keep, if◌then◌else◌,
}
use remote_juggler.Prelude.Int.{ℤ, bits}
use remote_juggler.Text.{Text, lit, text_eq, is_empty, has_prefix, trim_space, print, split, join}
use remote_juggler.Dict.{Dict, lookup, insert, keys}
use remote_juggler.Result.{Result, ok, err, ◌>>=◌, wrap}
use remote_juggler.Http.{HttpRequest, HttpResponse, Transport, exchange, read_all}
use remote_juggler.Runner.Campaign.{is_nil}
use remote_juggler.Gateway.Metering.{MeterRecord, MeterStore, record_usage}
use remote_juggler.Gateway.Webhook.{dedupe_key}
use remote_juggler.Gateway.Setec.{trim_slashes}
use remote_juggler.Gateway.S3.Sign.{Signing, S3Config, sign_s3_request}

-- `ApertureS3Record`
pub record S3Record : Type 0 where
  pub timestamp : ℕ
  pub agent : Text
  pub campaign_id : Text
  pub model : Text
  pub input_tokens : ℤ
  pub output_tokens : ℤ
  pub duration_ms : ℤ
  pub error : Text

-- The part of the ingester that changes, with the store that it feeds.
pub record Ingester : Type 0 where
  pub last_key : Text
  pub meter : MeterStore

-- The uses of encoding/json, encoding/xml (the keys of the listed objects) and net/url.
pub record Codecs : Type 0 where
  pub unmarshal_records : Text → Result (List S3Record)
  pub unmarshal_record : Text → Result S3Record
  pub unmarshal_listing : Text → Option (List Text)
  pub url_query : Text → Dict (List Text)

-- `Configured`
unfoldable pub configured : S3Config → Bool
configured s = not (is_empty s.bucket) && (not (is_empty s.region) || not (is_empty s.endpoint))

abbrev with_scheme : Text → Text
with_scheme ep =
    if has_prefix ep (lit "https://") || has_prefix ep (lit "http://")
    then ep
    else lit "https://" ++ ep

abbrev below : Text → Text → Text
below base key = if is_empty key then base else base ++ (lit "/" ++ key)

-- `s3URL`: with an endpoint the bucket is in the path, without one in the host.
unfoldable pub s3_url : S3Config → Text → Text
unfolding lit has_prefix trim_slashes
s3_url s key =
    if is_empty s.endpoint
    then lit "https://"
      ++ (s.bucket ++ (lit ".s3." ++ (s.region ++ (lit ".amazonaws.com/" ++ key))))
    else below (with_scheme (trim_slashes s.endpoint) ++ (lit "/" ++ s.bucket)) key

-- The order of `sort.Strings`
unfoldable pub text_le : Text → Text → Bool
text_le [] t = true
text_le (a ∷ s) [] = false
text_le (a ∷ s) (b ∷ t) = ltb a b || (a == b && text_le s t)

unfoldable pub insert_sorted : Text → List Text → List Text
unfolding text_le
insert_sorted k [] = k ∷ []
insert_sorted k (x ∷ xs) = if text_le k x then k ∷ x ∷ xs else x ∷ insert_sorted k xs

unfoldable pub sort_keys : List Text → List Text
unfolding insert_sorted
sort_keys [] = []
sort_keys (k ∷ ks) = insert_sorted k (sort_keys ks)

abbrev pairs_of : Text → List Text → List Text
pairs_of k [] = []
pairs_of k (x ∷ xs) = (k ++ (lit "=" ++ x)) ∷ pairs_of k xs

abbrev values_of : Option (List Text) → List Text
values_of none = []
values_of (some xs) = xs

abbrev query_pairs : Dict (List Text) → List Text → List Text
query_pairs q [] = []
query_pairs q (k ∷ ks) = pairs_of k (values_of (lookup k q)) ++ query_pairs q ks

-- `s3CanonicalQueryString`
unfoldable pub s3_canonical_query_string : Dict (List Text) → Text
unfolding lit lookup sort_keys join
s3_canonical_query_string q = join b'&' (query_pairs q (sort_keys (keys q)))

-- The longest line that bufio.Scanner takes is shorter than this.
abbrev pub max_scan_token_size : ℕ
max_scan_token_size = 65536

-- The loop over the lines, from the number of the line before.
unfoldable pub parse_lines : (Text → Result S3Record) → ℕ → List Text → Result (List S3Record)
unfolding lit trim_space print
parse_lines unmarshal n [] = ok []
parse_lines unmarshal n (line ∷ lines) =
    let rest = parse_lines unmarshal (suc n) lines in
    if leb max_scan_token_size (length line)
    then err (lit "scan NDJSON: bufio.Scanner: token too long")
    else if is_empty (trim_space line)
    then rest
    else wrap (λ e. lit "parse NDJSON line " ++ (print (suc n) ++ (lit ": " ++ e)))
        (unmarshal (trim_space line))
      >>= λ r. rest >>= λ rs. ok (r ∷ rs)

module _ (j : Codecs) where
  -- `parseS3Records`
  unfoldable pub parse_s3_records : Text → Result (List S3Record)
  unfolding lit trim_space has_prefix parse_lines
  parse_s3_records body =
      let trimmed = trim_space body in
      if is_empty trimmed
      then ok []
      else if has_prefix trimmed (lit "[")
      then wrap (λ e. lit "parse JSON array: " ++ e) (j.unmarshal_records trimmed)
      else parse_lines j.unmarshal_record 0 (split 10 trimmed)

  -- `parseS3Keys`
  unfoldable pub parse_s3_keys : Text → List Text
  parse_s3_keys body = elim (j.unmarshal_listing body) [
    | none ↦ []
    | some ks ↦ keep (λ k. not (is_empty k)) ks
  ]

-- The record that `ingestKey` makes for the meter store.
unfoldable pub meter_record : S3Record → MeterRecord
unfolding lit dedupe_key
meter_record r = record {
  agent = r.agent;
  campaign_id = r.campaign_id;
  tool_name = lit "llm:" ++ r.model;
  request_bytes = 0;
  response_bytes = 0;
  duration_ms = bits r.duration_ms;
  timestamp = r.timestamp;
  is_error = not (is_empty r.error);
  input_tokens = bits r.input_tokens;
  output_tokens = bits r.output_tokens;
  dedupe_key = dedupe_key r.model r.agent r.input_tokens r.output_tokens r.timestamp;
}

module _ {W : Type 0} (t : Transport W) (sg : Signing W) (j : Codecs) (cfg : S3Config)
    (range : Dict ℕ → Dict ℕ) where
  -- The loop over the records of a file, at one time.
  unfoldable pub record_all : ℕ → List S3Record → MeterStore → MeterStore
  unfolding meter_record record_usage
  record_all now [] m = m
  record_all now (r ∷ rs) m = record_all now rs (record_usage range now now (meter_record r) m)

  abbrev signed_get : Text → W → HttpRequest
  signed_get url w =
      sign_s3_request sg cfg (sg.clock w)
        (record { method = lit "GET"; url = url; headers = []; body = [] }) (sg.sha256_hex [])

  abbrev file_records : Result HttpResponse → Result (List S3Record)
  file_records o = o >>= λ r.
      if r.status_code == 200
      then (read_all (λ e. lit "read body: " ++ e) r >>= λ body. parse_s3_records j body)
      else err (lit "S3 returned " ++ print r.status_code)

  abbrev ingested : MeterStore → Result (List S3Record) → W → Option Text × (MeterStore × W)
  ingested m (err e) w = (some e, (m, w))
  ingested m (ok rs) w = (none, (record_all (sg.clock w) rs m, w))

  abbrev ingest_answer : MeterStore → Result HttpResponse × W → Option Text × (MeterStore × W)
  ingest_answer m (o, w) = ingested m (file_records o) w

  -- `ingestKey`; `none` is the nil error.
  unfoldable pub ingest_key : Text → MeterStore → W → Option Text × (MeterStore × W)
  unfolding lit print s3_url sign_s3_request parse_s3_records record_all
  ingest_key key m w = ingest_answer m (
      exchange t (λ e. lit "create request: " ++ e) (λ e. lit "fetch: " ++ e)
        (signed_get (s3_url cfg key) w) w)

  abbrev pub after_key : Text → Ingester → Option Text × (MeterStore × W) → Ingester × W
  after_key key s (some e, (m, w)) = (record s { meter = m }, w)
  after_key key s (none, (m, w)) = (record { last_key = key; meter = m }, w)

  -- The loop over the listed keys.
  unfoldable pub ingest_keys : List Text → Ingester × W → Ingester × W
  unfolding ingest_key
  ingest_keys [] s = s
  ingest_keys (key ∷ ks) (s, w) = ingest_keys ks (after_key key s (ingest_key key s.meter w))

  abbrev pub set_if : Text → Text → Dict (List Text) → Dict (List Text)
  set_if k x q = if is_empty x then q else insert k (x ∷ []) q

  -- The query of the list request.
  abbrev pub list_query : Ingester → Dict (List Text)
  list_query s = set_if (lit "start-after") s.last_key (
      set_if (lit "prefix") cfg.prefix
        (insert (lit "list-type") (lit "2" ∷ []) (j.url_query (s3_url cfg []))))

  abbrev listed_keys : Result HttpResponse → List Text
  listed_keys (err e) = []
  listed_keys (ok r) =
      if r.status_code == 200
      then elim (read_all (λ e. e) r) [ ok body ↦ parse_s3_keys j body | err e ↦ [] ]
      else []

  abbrev ingest_listed : Ingester → Result HttpResponse × W → Ingester × W
  ingest_listed s (o, w) = ingest_keys (listed_keys o) (s, w)

  -- `poll`
  unfoldable pub poll : Ingester × W → Ingester × W
  unfolding lit insert s3_url sign_s3_request s3_canonical_query_string parse_s3_keys ingest_keys
  poll (s, w) = ingest_listed s (
      exchange t (λ e. e) (λ e. e)
        (signed_get (s3_url cfg [] ++ (lit "?" ++ s3_canonical_query_string (list_query s))) w) w)
