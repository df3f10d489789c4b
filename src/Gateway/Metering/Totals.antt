-- ===== src/Gateway/Metering/Totals.antt =====
-- No usage is lost or counted twice: the sums of the counters over all buckets of
-- gateway/metering.go, through Record and Flush.
use remote_juggler.Prelude.{
  ℕ, ◌+◌, ◌%◌, ◌≡◌, refl, ap, sym, ◌∙◌, Bool, true, ◌&&◌, not, Option, none, some, List, [], ◌∷◌,
  arith, is_some, if◌then◌else◌, Bool-cases, inl, inr, length, ◌==◌, nat_eq,
}
use remote_juggler.Prelude.Int.{word, add64}
use remote_juggler.Text.{Text, is_empty}
use remote_juggler.Dict.{Dict, lookup, insert, values}
use remote_juggler.Gateway.Metering.{
  MeterRecord, MeterBucket, MeterStore, bucket_key, bump, count_record, record_usage, remember,
  merge_bucket, put_back, flush, new_bucket, or_new, merge_or, finish_flush, flush_error,
}

-- The counters of a bucket.
pub data Counter : Type 0 where
  calls requests responses errors durations inputs outputs : Counter

abbrev pub reading : Counter → MeterBucket → ℕ
reading calls b = b.tool_calls
reading requests b = b.request_bytes
reading responses b = b.response_bytes
reading errors b = b.error_count
reading durations b = b.total_duration_ms
reading inputs b = b.input_tokens
reading outputs b = b.output_tokens

-- What a record adds to a counter.
abbrev pub weight : Counter → MeterRecord → ℕ
weight calls r = 1
weight requests r = r.request_bytes
weight responses r = r.response_bytes
weight errors r = if r.is_error then 1 else 0
weight durations r = r.duration_ms
weight inputs r = r.input_tokens
weight outputs r = r.output_tokens

abbrev pub sum : Counter → List MeterBucket → ℕ
sum c [] = 0
sum c (b ∷ bs) = reading c b + sum c bs

-- The sum of a counter over the store, as a 64-bit word.
abbrev pub total : Counter → Dict MeterBucket → ℕ
total c d = sum c (values d) % word

abbrev old_reading : Counter → Option MeterBucket → ℕ
old_reading c none = 0
old_reading c (some b) = reading c b

sum-insert :
    (c : Counter) (k : Text) (b : MeterBucket) (d : Dict MeterBucket)
    → sum c (values (insert k b d)) + old_reading c (lookup k d) ≡ sum c (values d) + reading c b
unfolding insert lookup values
sum-insert c k b [] = omega arith
sum-insert c k b ((j, w) ∷ d) = ground (arith, sum-insert c k b d)

reading-bump :
    (c : Counter) (r : MeterRecord) (b : MeterBucket)
    → reading c (bump r b) % word ≡ (reading c b + weight c r) % word
unfolding bump
reading-bump errors r b = ground arith
reading-bump _ r b = omega arith

reading-merge_bucket :
    (c : Counter) (b b' : MeterBucket)
    → reading c (merge_bucket b b') % word ≡ (reading c b + reading c b') % word
unfolding merge_bucket
reading-merge_bucket errors b b' = omega arith
reading-merge_bucket _ b b' = omega arith

total-insert :
    (c : Counter) (k : Text) (b : MeterBucket) (d : Dict MeterBucket) (w : ℕ)
    → reading c b % word ≡ (old_reading c (lookup k d) + w) % word
    → total c (insert k b d) ≡ add64 (total c d) w
total-insert c k b d w h = omega (arith, sum-insert c k b d)

reading-new_bucket : (c : Counter) (r : MeterRecord) → reading c (new_bucket r) ≡ 0
reading-new_bucket errors r = refl
reading-new_bucket _ r = refl

reading-bump-or_new :
    (c : Counter) (r : MeterRecord) (o : Option MeterBucket)
    → reading c (bump r (or_new o r)) % word ≡ (old_reading c o + weight c r) % word
reading-bump-or_new c r none =
    omega (arith, reading-bump c r (new_bucket r), reading-new_bucket c r)
reading-bump-or_new c r (some b) = reading-bump c r b

-- Counting a record adds its weight to the total, whether or not its bucket exists.
total-count_record :
    (c : Counter) (r : MeterRecord) (d : Dict MeterBucket)
    → total c (count_record r d) ≡ add64 (total c d) (weight c r)
unfolding count_record
total-count_record c r d =
    total-insert c (bucket_key r.agent r.campaign_id) _ d (weight c r)
      (reading-bump-or_new c r (lookup (bucket_key r.agent r.campaign_id) d))

-- A record whose dedupe key has been seen.
abbrev pub is_duplicate : MeterRecord → MeterStore → Bool
is_duplicate r m = not (is_empty r.dedupe_key) && is_some (lookup r.dedupe_key m.seen)

remember_buckets :
    (range : Dict ℕ → Dict ℕ) (now evict_now : ℕ) (key : Text) (m : MeterStore)
    → (remember range now evict_now key m).buckets ≡ m.buckets
unfolding remember
remember_buckets range now evict_now key m = ground arith

-- Record adds exactly the record's usage to every counter's total, and nothing for a record whose
-- dedupe key has been seen, whatever order Go visits the map of keys in.
pub total-record_usage :
    (range : Dict ℕ → Dict ℕ) (now evict_now : ℕ) (r : MeterRecord) (m : MeterStore) (c : Counter)
    → total c (record_usage range now evict_now r m).buckets
      ≡ (if is_duplicate r m then total c m.buckets else add64 (total c m.buckets) (weight c r))
unfolding record_usage
total-record_usage range now evict_now r m c =
    ground
      (arith, total-count_record c r m.buckets, remember_buckets range now evict_now r.dedupe_key m)

merge_or-reading :
    (c : Counter) (o : Option MeterBucket) (b : MeterBucket)
    → reading c (merge_or o b) % word ≡ (old_reading c o + reading c b) % word
merge_or-reading c none b = omega arith
merge_or-reading c (some b') b = reading-merge_bucket c b' b

total-put_back :
    (c : Counter) (bs : List MeterBucket) (d : Dict MeterBucket)
    → total c (put_back bs d) ≡ add64 (total c d) (sum c bs)
unfolding put_back
total-put_back c [] d = omega arith
total-put_back c (b ∷ bs) d =
    let key = bucket_key b.agent b.campaign_id in
    let d' = insert key (merge_or (lookup key d) b) d in
    omega (
      arith,
      total-put_back c bs d',
      total-insert c key _ d (reading c b) (merge_or-reading c (lookup key d) b),
    )

abbrev booked : Option Text → List MeterBucket → Counter → ℕ
booked none bs c = sum c bs % word
booked (some e) bs c = 0

-- What a callback takes of these buckets: all of them, or nothing if it fails on them.
abbrev pub taken : (List MeterBucket → Option Text) → List MeterBucket → Counter → ℕ
taken cb bs c = booked (cb bs) bs c

booked-nothing :
    (o : Option Text) (bs : List MeterBucket) (c : Counter)
    → (length bs == 0) ≡ true
    → booked o bs c ≡ 0
booked-nothing none [] c h = refl
booked-nothing none (b ∷ bs) c h = absurd (ground (arith, h))
booked-nothing (some e) bs c h = refl

sum-empty : (bs : List MeterBucket) (c : Counter) → (length bs == 0) ≡ true → sum c bs % word ≡ 0
sum-empty [] c h = refl
sum-empty (b ∷ bs) c h = absurd (ground (arith, h))

total-empty : (d : Dict MeterBucket) (c : Counter) → (length (values d) == 0) ≡ true → total c d ≡ 0
total-empty d c h = sum-empty (values d) c h

finish_flush-booked :
    (o : Option Text) (bs : List MeterBucket) (m m' : MeterStore) (c : Counter)
    → sum c bs ≡ sum c (values m.buckets)
    → add64 (booked o bs c) (total c (finish_flush o bs m').1.buckets)
      ≡ add64 (total c m.buckets) (total c m'.buckets)
finish_flush-booked none bs m m' c h = omega (arith, h)
finish_flush-booked (some e) bs m m' c h = omega (arith, h, total-put_back c bs m'.buckets)

-- Flush keeps the books with a callback: what the callback takes of the buckets of the store and what the
-- store holds afterwards is, for every counter, what the store held before and what the other goroutines
-- recorded meanwhile. A callback that fails takes nothing, so that all of it is in the store again.
pub total-flush :
    (others : MeterStore → MeterStore) (cb : List MeterBucket → Option Text) (m : MeterStore)
    (c : Counter)
    → m.flush_callback ≡ some cb
    → add64 (taken cb (values m.buckets) c) (total c (flush others m).1.buckets)
      ≡ add64 (total c m.buckets) (
          if length (values m.buckets) == 0
          then 0
          else total c (others (record m { buckets = [] })).buckets)
unfolding flush
total-flush others cb m c has = elim (Bool-cases (length (values m.buckets) == 0)) [
  | inl empty ↦
      rw
        (
          empty,
          booked-nothing (cb (values m.buckets)) (values m.buckets) c empty,
          total-empty m.buckets c empty,
        )
        refl
  | inr full ↦
      let bs = values m.buckets in
      let m' = others (record m { buckets = [] }) in
      let o = flush_error m.flush_callback bs in
      let asked : cb bs ≡ o = sym (ap (λ f. flush_error f bs) has) in
      rw full (
        ap (λ x. add64 (booked x bs c) (total c (finish_flush o bs m').1.buckets)) asked
        ∙ finish_flush-booked o bs m m' c refl)
]
