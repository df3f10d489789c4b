-- ===== src/Gateway/Metering.antt =====
-- The meter store of gateway/metering.go: counters for each pair of an agent and a campaign. Counters
-- are 64-bit patterns, and a time is its distance in nanoseconds from a time before all others.
pub mod Totals
pub mod Keys
pub mod Pairs
use remote_juggler.Prelude.{
  ℕ, ◌+◌, ◌*◌, ◌/◌, ◌^◌, Bool, true, false, ◌&&◌, ◌||◌, not, Option, none, some, List, [], ◌∷◌,
  ◌++◌, ltb, leb, ◌==◌, is_some, nat_eq, if◌then◌else◌, length, drop, keep,
}
use remote_juggler.Prelude.Int.{add64}
use remote_juggler.Text.{Text, lit, text_eq, same, is_empty}
use remote_juggler.Dict.{Dict, lookup, insert, values}

pub record MeterRecord : Type 0 where
  pub agent : Text
  pub campaign_id : Text
  pub tool_name : Text
  pub request_bytes : ℕ
  pub response_bytes : ℕ
  pub duration_ms : ℕ
  pub timestamp : ℕ
  pub is_error : Bool
  pub input_tokens : ℕ
  pub output_tokens : ℕ
  pub dedupe_key : Text

pub record MeterBucket : Type 0 where
  pub agent : Text
  pub campaign_id : Text
  pub tool_calls : ℕ
  pub request_bytes : ℕ
  pub response_bytes : ℕ
  pub error_count : ℕ
  pub total_duration_ms : ℕ
  pub input_tokens : ℕ
  pub output_tokens : ℕ
  pub first_seen : ℕ
  pub last_seen : ℕ

pub record MeterStore : Type 0 where
  pub buckets : Dict MeterBucket
  pub seen : Dict ℕ
  pub seen_size : ℕ
  -- The error of the callback, if it fails.
  pub flush_callback : Option (List MeterBucket → Option Text)

unfoldable pub new_meter_store : MeterStore
new_meter_store = record { buckets = []; seen = []; seen_size = 1000; flush_callback = none }

unfoldable pub set_flush_callback : (List MeterBucket → Option Text) → MeterStore → MeterStore
set_flush_callback cb m = record m { flush_callback = some cb }

unfoldable pub bucket_key : Text → Text → Text
unfolding lit
bucket_key agent campaign_id =
    (if is_empty agent then lit "unknown" else agent) ++ (lit ":" ++ campaign_id)

abbrev ten_minutes : ℕ
ten_minutes = 600 * 10 ^ 9

-- The bucket of a pair that is met for the first time.
abbrev new_bucket : MeterRecord → MeterBucket
new_bucket r = record {
  agent = r.agent;
  campaign_id = r.campaign_id;
  tool_calls = 0;
  request_bytes = 0;
  response_bytes = 0;
  error_count = 0;
  total_duration_ms = 0;
  input_tokens = 0;
  output_tokens = 0;
  first_seen = r.timestamp;
  last_seen = 0;
}

-- The updates at the end of `Record`.
unfoldable pub bump : MeterRecord → MeterBucket → MeterBucket
bump r b = record b {
  tool_calls = add64 b.tool_calls 1;
  request_bytes = add64 b.request_bytes r.request_bytes;
  response_bytes = add64 b.response_bytes r.response_bytes;
  total_duration_ms = add64 b.total_duration_ms r.duration_ms;
  input_tokens = add64 b.input_tokens r.input_tokens;
  output_tokens = add64 b.output_tokens r.output_tokens;
  last_seen = r.timestamp;
  error_count = if r.is_error then add64 b.error_count 1 else b.error_count;
}

abbrev or_new : Option MeterBucket → MeterRecord → MeterBucket
or_new none r = new_bucket r
or_new (some b) r = b

-- The second half of `Record`: the bucket of the record's pair is found or made, and updated.
unfoldable pub count_record : MeterRecord → Dict MeterBucket → Dict MeterBucket
unfolding bump bucket_key lookup insert
count_record r d =
    let key = bucket_key r.agent r.campaign_id in insert key (bump r (or_new (lookup key d) r)) d

-- `range` is the order in which Go visits the entries of the map.
module _ (range : Dict ℕ → Dict ℕ) where
  -- `evictSeen`: entries of more than ten minutes go, and half of the others if they are too many.
  -- The loop deletes an entry before it looks at its count, so at least one goes.
  unfoldable pub evict_seen : ℕ → MeterStore → MeterStore
  evict_seen now m =
      let recent = keep (λ (k, t). not (ltb (t + ten_minutes) now)) m.seen in
      let target = length recent / 2 in
      if ltb m.seen_size (length recent)
      then record m { seen = drop (if target == 0 then 1 else target) (range recent) }
      else record m { seen = recent }

  -- The first half of `Record`, for a key that has not been seen.
  unfoldable pub remember : ℕ → ℕ → Text → MeterStore → MeterStore
  unfolding evict_seen insert
  remember now evict_now key m =
      let m' = record m { seen = insert key now m.seen } in
      if ltb m'.seen_size (length m'.seen) then evict_seen evict_now m' else m'

  -- `Record`, with what its two calls of `time.Now` return.
  unfoldable pub record_usage : ℕ → ℕ → MeterRecord → MeterStore → MeterStore
  unfolding remember count_record lookup
  record_usage now evict_now r m =
      if is_empty r.dedupe_key
      then record m { buckets = count_record r m.buckets }
      else if is_some (lookup r.dedupe_key m.seen)
      then m
      else (let m' = remember now evict_now r.dedupe_key m in
          record m' { buckets = count_record r m'.buckets })

-- `Query`: an empty argument filters nothing.
unfoldable pub query : Text → Text → MeterStore → List MeterBucket
unfolding values
query agent campaign_id m =
    keep
      (λ b.
        (is_empty agent || b.agent == agent)
        && (is_empty campaign_id || b.campaign_id == campaign_id))
      (values m.buckets)

unfoldable pub snapshot : MeterStore → List MeterBucket
unfolding query
snapshot m = query [] [] m

-- The sums in the branch of `Flush` that merges a bucket into a newer one of the same pair.
unfoldable pub merge_bucket : MeterBucket → MeterBucket → MeterBucket
merge_bucket existing b = record existing {
  tool_calls = add64 existing.tool_calls b.tool_calls;
  request_bytes = add64 existing.request_bytes b.request_bytes;
  response_bytes = add64 existing.response_bytes b.response_bytes;
  error_count = add64 existing.error_count b.error_count;
  total_duration_ms = add64 existing.total_duration_ms b.total_duration_ms;
  input_tokens = add64 existing.input_tokens b.input_tokens;
  output_tokens = add64 existing.output_tokens b.output_tokens;
  first_seen = if ltb b.first_seen existing.first_seen then b.first_seen else existing.first_seen;
}

abbrev merge_or : Option MeterBucket → MeterBucket → MeterBucket
merge_or none b = b
merge_or (some existing) b = merge_bucket existing b

-- The loop of `Flush` that puts the buckets back after a failure.
unfoldable pub put_back : List MeterBucket → Dict MeterBucket → Dict MeterBucket
unfolding merge_bucket bucket_key lookup insert
put_back [] d = d
put_back (b ∷ bs) d =
    let key = bucket_key b.agent b.campaign_id in
    put_back bs (insert key (merge_or (lookup key d) b) d)

pub data FlushResult : Type 0 where
  flushed : ℕ → FlushResult
  flush_failed : Text → FlushResult

abbrev flush_error : Option (List MeterBucket → Option Text) → List MeterBucket → Option Text
flush_error none bs = none
flush_error (some cb) bs = cb bs

abbrev finish_flush : Option Text → List MeterBucket → MeterStore → FlushResult × MeterStore
finish_flush none bs m = (flushed (length bs), m)
finish_flush (some e) bs m =
    (flush_failed (lit "flush callback: " ++ e), record m { buckets = put_back bs m.buckets })

-- `Flush`. It does not hold the lock while the callback runs; `others` is what the other goroutines
-- do to the store in that time.
unfoldable pub flush : (MeterStore → MeterStore) → MeterStore → FlushResult × MeterStore
unfolding put_back values
flush others m =
    let bs = values m.buckets in
    let emptied = record m { buckets = [] } in
    if length bs == 0
    then (flushed 0, emptied)
    else finish_flush (flush_error m.flush_callback bs) bs (others emptied)
