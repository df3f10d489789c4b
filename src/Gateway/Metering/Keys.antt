-- ===== src/Gateway/Metering/Keys.antt =====
-- The maps of gateway/metering.go: which bucket a record goes to, and the bounded set of dedupe keys.
use remote_juggler.Prelude.{
  ℕ, ◌+◌, ◌≤◌, ◌<◌, ◌≡◌, refl, true, false, not, Option, none, some, List, [], ◌∷◌, arith, is_some,
  if◌then◌else◌, Bool-cases, Option-cases, inl, inr, length, ◌==◌, nat_eq, ltb, length-drop, keep,
  length-keep, sym, ◌/◌,
}
use mathlib.Core.Path.{subst}
use remote_juggler.Text.{Text, is_empty, same_iff, text_eq}
use remote_juggler.Dict.{
  Dict, lookup, insert, values, NodupKeys, Every, lookup-insert_self, insert-NodupKeys,
  insert-Every, length-insert,
}
use remote_juggler.Gateway.Metering.{
  MeterRecord, MeterBucket, MeterStore, bucket_key, bump, count_record, record_usage, remember,
  merge_bucket, put_back, flush, evict_seen, or_new, merge_or, finish_flush, flush_error,
  ten_minutes,
}

-- Every bucket stands under the key of its own agent and campaign, and no key stands twice.
pub record IsKeyed (d : Dict MeterBucket) : Type 0 where
  pub own : Every (λ k b. k ≡ bucket_key b.agent b.campaign_id) d
  pub nodup : NodupKeys d

Every-lookup :
    (k : Text) (d : Dict MeterBucket) {b : MeterBucket}
    → Every (λ k b. k ≡ bucket_key b.agent b.campaign_id) d
    → lookup k d ≡ some b
    → k ≡ bucket_key b.agent b.campaign_id
unfolding lookup
Every-lookup k [] h e = cc
Every-lookup k ((j, w) ∷ d) (own, h) e = elim (Bool-cases (j == k)) [
  | inl s ↦ ground (arith, same_iff j k)
  | inr s ↦ Every-lookup k d h (rw s at e)
]

insert-IsKeyed :
    (b : MeterBucket) (d : Dict MeterBucket)
    → IsKeyed d
    → IsKeyed (insert (bucket_key b.agent b.campaign_id) b d)
insert-IsKeyed b d h = record {
  own =
      insert-Every (λ k b'. k ≡ bucket_key b'.agent b'.campaign_id)
        (bucket_key b.agent b.campaign_id) b d refl h.own;
  nodup = insert-NodupKeys (bucket_key b.agent b.campaign_id) b d h.nodup;
}

-- The bucket that `Record` writes has the key that it is written under.
bump-key :
    (r : MeterRecord) (d : Dict MeterBucket)
    → IsKeyed d
    → let b = or_new (lookup (bucket_key r.agent r.campaign_id) d) r in
      bucket_key r.agent r.campaign_id ≡ bucket_key b.agent b.campaign_id
bump-key r d h = elim (Option-cases (lookup (bucket_key r.agent r.campaign_id) d)) [
  | inl e ↦ rw e
  | inr (b, e) ↦ rw e (Every-lookup _ d h.own e)
]

count_record-IsKeyed :
    (r : MeterRecord) (d : Dict MeterBucket) → IsKeyed d → IsKeyed (count_record r d)
unfolding count_record bump
count_record-IsKeyed r d h =
    let b = bump r (or_new (lookup (bucket_key r.agent r.campaign_id) d) r) in
    subst (λ k. IsKeyed (insert k b d)) (sym (bump-key r d h)) (insert-IsKeyed b d h)

merge_or-key :
    (b : MeterBucket) (d : Dict MeterBucket)
    → IsKeyed d
    → let b' = merge_or (lookup (bucket_key b.agent b.campaign_id) d) b in
      bucket_key b.agent b.campaign_id ≡ bucket_key b'.agent b'.campaign_id
unfolding merge_bucket
merge_or-key b d h = elim (Option-cases (lookup (bucket_key b.agent b.campaign_id) d)) [
  | inl e ↦ rw e
  | inr (b', e) ↦ rw e (Every-lookup _ d h.own e)
]

put_back-IsKeyed :
    (bs : List MeterBucket) (d : Dict MeterBucket) → IsKeyed d → IsKeyed (put_back bs d)
unfolding put_back
put_back-IsKeyed [] d h = h
put_back-IsKeyed (b ∷ bs) d h =
    let b' = merge_or (lookup (bucket_key b.agent b.campaign_id) d) b in
    put_back-IsKeyed bs _
      (subst (λ k. IsKeyed (insert k b' d)) (sym (merge_or-key b d h)) (insert-IsKeyed b' d h))

remember_buckets :
    (range : Dict ℕ → Dict ℕ) (now evict_now : ℕ) (key : Text) (m : MeterStore)
    → (remember range now evict_now key m).buckets ≡ m.buckets
unfolding remember
remember_buckets range now evict_now key m = ground arith

-- If every bucket stands under the key of its own agent and campaign, and no key has two
-- buckets, Record leaves it so.
pub record_usage-IsKeyed :
    (range : Dict ℕ → Dict ℕ) (now evict_now : ℕ) (r : MeterRecord) (m : MeterStore)
    → IsKeyed m.buckets
    → IsKeyed (record_usage range now evict_now r m).buckets
unfolding record_usage
record_usage-IsKeyed range now evict_now r m h = elim (Bool-cases (is_empty r.dedupe_key)) [
  | inl e ↦ rw e (count_record-IsKeyed r m.buckets h)
  | inr e ↦ elim (Bool-cases (is_some (lookup r.dedupe_key m.seen))) [
    | inl dup ↦ rw (e, dup) h
    | inr new ↦
        rw (e, new)
          (count_record-IsKeyed r _ (rw (remember_buckets range now evict_now r.dedupe_key m) h))
  ]
]

finish_flush-IsKeyed :
    (e : Option Text) (bs : List MeterBucket) (m : MeterStore)
    → IsKeyed m.buckets
    → IsKeyed (finish_flush e bs m).1.buckets
finish_flush-IsKeyed none bs m h = h
finish_flush-IsKeyed (some e) bs m h = put_back-IsKeyed bs m.buckets h

-- After Flush every bucket stands under the key of its own agent and campaign, and no key has
-- two, whether the callback succeeds or fails, if the other goroutines keep it so meanwhile.
pub flush-IsKeyed :
    (others : MeterStore → MeterStore) (m : MeterStore)
    → ((m' : MeterStore) → IsKeyed m'.buckets → IsKeyed (others m').buckets)
    → IsKeyed (flush others m).1.buckets
unfolding flush
flush-IsKeyed others m keeps = elim (Bool-cases (length (values m.buckets) == 0)) [
  | inl empty ↦ rw empty (record { own = tt; nodup = tt })
  | inr full ↦ rw full (
      finish_flush-IsKeyed (flush_error m.flush_callback (values m.buckets)) _ _
        (keeps (record m { buckets = [] }) (record { own = tt; nodup = tt })))
]

-- Evicting from a set that is one over its bound brings it back within the bound, also where no
-- entry is old and half of them are deleted.
evict_seen-le :
    (range : Dict ℕ → Dict ℕ) (now : ℕ) (m : MeterStore)
    → ((d : Dict ℕ) → length (range d) ≡ length d)
    → length m.seen ≤ m.seen_size + 1
    → length (evict_seen range now m).seen ≤ m.seen_size
unfolding evict_seen
evict_seen-le range now m order h =
    let recent = keep (λ (k, t). not (ltb (t + ten_minutes) now)) m.seen in
    ground (
      arith,
      length-keep (λ (k, t). not (ltb (t + ten_minutes) now)) m.seen,
      length-drop (if length recent / 2 == 0 then 1 else length recent / 2) (range recent),
      order recent,
    )

remember-seen :
    (range : Dict ℕ → Dict ℕ) (now evict_now : ℕ) (key : Text) (m : MeterStore)
    → ((d : Dict ℕ) → length (range d) ≡ length d)
    → length m.seen ≤ m.seen_size
    → lookup key m.seen ≡ none
    → length (remember range now evict_now key m).seen ≤ m.seen_size
unfolding remember
remember-seen range now evict_now key m order h fresh =
    let m' = record m { seen = insert key now m.seen } in
    elim (Bool-cases (ltb m.seen_size (length m'.seen))) [
      | inl full ↦ rw full (
          evict_seen-le range evict_now m' order
            (omega (arith, length-insert key now m.seen fresh)))
      | inr fits ↦ rw fits (ground arith)
    ]

-- Record keeps a set of dedupe keys that is within its bound within it, if the order in which Go
-- visits the set leaves out no entry and repeats none.
pub record_usage-seen_bounded :
    (range : Dict ℕ → Dict ℕ) (now evict_now : ℕ) (r : MeterRecord) (m : MeterStore)
    → ((d : Dict ℕ) → length (range d) ≡ length d)
    → length m.seen ≤ m.seen_size
    → length (record_usage range now evict_now r m).seen ≤ m.seen_size
unfolding record_usage
record_usage-seen_bounded range now evict_now r m order h =
    elim (Bool-cases (is_empty r.dedupe_key)) [
      | inl e ↦ rw e h
      | inr e ↦ elim (Bool-cases (is_some (lookup r.dedupe_key m.seen))) [
        | inl dup ↦ rw (e, dup) h
        | inr new ↦
            rw (e, new) (remember-seen range now evict_now r.dedupe_key m order h (ground arith))
      ]
    ]

remember-lookup :
    (range : Dict ℕ → Dict ℕ) (now evict_now : ℕ) (key : Text) (m : MeterStore)
    → length m.seen < m.seen_size
    → lookup key m.seen ≡ none
    → lookup key (remember range now evict_now key m).seen ≡ some now
unfolding remember
remember-lookup range now evict_now key m room fresh =
    let e : ltb m.seen_size (length (insert key now m.seen)) ≡ false =
      ground (arith, length-insert key now m.seen fresh) in
    rw e (lookup-insert_self key now m.seen)

record_usage-lookup :
    (range : Dict ℕ → Dict ℕ) (now evict_now : ℕ) (r : MeterRecord) (m : MeterStore)
    → is_empty r.dedupe_key ≡ false
    → length m.seen < m.seen_size
    → is_some (lookup r.dedupe_key (record_usage range now evict_now r m).seen) ≡ true
unfolding record_usage
record_usage-lookup range now evict_now r m k room =
    elim (Bool-cases (is_some (lookup r.dedupe_key m.seen))) [
      | inl dup ↦ rw (k, dup) dup
      | inr new ↦
          rw (k, new) (rw (remember-lookup range now evict_now r.dedupe_key m room (ground arith)))
    ]

record_usage_of_dup :
    (range : Dict ℕ → Dict ℕ) (now evict_now : ℕ) (r : MeterRecord) (m : MeterStore)
    → is_empty r.dedupe_key ≡ false
    → is_some (lookup r.dedupe_key m.seen) ≡ true
    → record_usage range now evict_now r m ≡ m
unfolding record_usage
record_usage_of_dup range now evict_now r m k dup = rw (k, dup)

-- While the set of keys has room, a record with a dedupe key that is not empty makes any later
-- record with the same key change nothing, when that comes next.
pub record_usage_again :
    (range : Dict ℕ → Dict ℕ) (t1 e1 t2 e2 : ℕ) (r r' : MeterRecord) (m : MeterStore)
    → is_empty r.dedupe_key ≡ false
    → r'.dedupe_key ≡ r.dedupe_key
    → length m.seen < m.seen_size
    → let m' = record_usage range t1 e1 r m in record_usage range t2 e2 r' m' ≡ m'
record_usage_again range t1 e1 t2 e2 r r' m k same_key room =
    record_usage_of_dup range t2 e2 r' _ (rw same_key k)
      (rw same_key (record_usage-lookup range t1 e1 r m k room))
