-- ===== src/Gateway/Campaigns/Statuses.antt =====
-- The keys of the campaigns' results.
use remote_juggler.Prelude.{
  ◌+◌, ◌-◌, ◌≡◌, ◌∙◌, ap, true, false, some, [], ◌∷◌, ◌++◌, ltb, ◌==◌, arith, length, take, drop,
  length-append, take-append, drop-append, drop-append_both,
}
use remote_juggler.Text.{Text, text_eq, same_iff, is_empty, slice}
use remote_juggler.Gateway.Campaigns.{campaign_of_key, campaign_key, key_prefix, key_suffix}

-- A key that is put together of two parts around a name is taken apart again.
cut_key :
    (p id s : Text)
    → let name = p ++ (id ++ s) in
      let cut = length name - length s in
      (take (length p) name ≡ p) × (drop cut name ≡ s) × (slice (length p) cut name ≡ id)
cut_key p id s =
    let name = p ++ (id ++ s) in
    let len : length name - length s ≡ length p + length id =
      omega (arith, length-append p (id ++ s), length-append id s) in
    let middle : slice (length p) (length p + length id) name ≡ id =
      ap (λ k. take k (drop (length p) name)) (omega arith)
      ∙ ap (take (length id)) (drop-append p (id ++ s))
      ∙ take-append id s in
    (
      take-append p (id ++ s),
      ap (λ k. drop k name) len ∙ drop-append_both p id s,
      ap (λ k. slice (length p) k name) len ∙ middle,
    )

-- The loop over the names finds every campaign under the key that its result is read from.
pub campaign_of_key-campaign_key :
    (id : Text) → is_empty id ≡ false → campaign_of_key (campaign_key id) ≡ some id
unfolding campaign_of_key
campaign_of_key-campaign_key [] full = absurd (ground (arith, full))
campaign_of_key-campaign_key (a ∷ id) full =
    let (before, after, middle) = cut_key key_prefix (a ∷ id) key_suffix in
    let name = campaign_key (a ∷ id) in
    let long : ltb (length key_prefix + length key_suffix) (length name) ≡ true = ground (
      arith,
      length-append key_prefix ((a ∷ id) ++ key_suffix),
      length-append (a ∷ id) key_suffix,
    ) in
    let same_before : (take (length key_prefix) name == key_prefix) ≡ true =
      (same_iff _ _).1 before in
    let same_after : (drop (length name - length key_suffix) name == key_suffix) ≡ true =
      (same_iff _ _).1 after in
    rw (campaign_of_key, long, same_before, same_after) (ap some middle)
