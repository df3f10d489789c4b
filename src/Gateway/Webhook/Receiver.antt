-- ===== src/Gateway/Webhook/Receiver.antt =====
-- The webhook receiver: who may add events, what a request adds, and what the buffer keeps.
use mathlib.Core.List.{reverse}
use remote_juggler.Prelude.{
  ℕ, ◌+◌, ◌≤◌, ◌<◌, ◌≡◌, refl, ◌∙◌, ap, sym, ◌⊎◌, inl, inr, Bool, true, false, Option, none, some,
  List, [], ◌∷◌, ◌++◌, not, ◌&&◌, ltb, length, drop, take, keep, map, ◌==◌, nat_eq, if◌then◌else◌,
  arith, length-append, length-drop, append-nil, append_assoc, Bool-cases, Option-cases,
}
use remote_juggler.Prelude.Int.{pos, negsuc}
use remote_juggler.Text.{Text, lit, text_eq, same_iff, is_empty}
use remote_juggler.Dict.{Dict}
use remote_juggler.Gateway.Newest.{newest_from-eq-take}
use remote_juggler.Gateway.Webhook.Payload.{ApertureEvent, Decoders}
use remote_juggler.Gateway.Webhook.{
  ApertureWebhookReceiver, receive, receive_all, accepted_of, handle_webhook, parse_body, stamp,
  answer, recent,
}

abbrev pub Fits : ApertureWebhookReceiver → Type 0
Fits r = (length r.events ≤ r.max_size) × (0 < r.max_size)

abbrev typed : ApertureEvent → Bool
typed e = not (is_empty e.type)

-- Recent with an argument that is not negative never goes out of range, and returns the newest
-- events, last one first. A negative argument panics.
pub recent_events-eq-take :
    (n : ℕ) (r : ApertureWebhookReceiver)
    → (recent (pos n) r
        ≡ some (take (if ltb (length r.events) n then length r.events else n) (reverse r.events)))
      × (recent (negsuc n) r ≡ none)
unfolding recent
recent_events-eq-take n r = (newest_from-eq-take r.events _ (ground arith), refl)

secret_ok :
    (secret expected : Text)
    → (not (is_empty expected) && not (secret == expected)) ≡ false
    → (is_empty expected ≡ true) ⊎ (secret ≡ expected)
secret_ok secret expected h = ground (arith, same_iff secret expected)

module _ (range : Dict ℕ → Dict ℕ) (now evict_now : ℕ) where
  receive-Fits :
      (e : ApertureEvent) (r : ApertureWebhookReceiver)
      → Fits r
      → Fits (receive range now evict_now e r)
  unfolding receive
  receive-Fits e r h = ground (
    arith,
    length-append (drop 1 r.events) (e ∷ []),
    length-append r.events (e ∷ []),
    length-drop 1 r.events,
  )

  receive_all-Fits :
      (es : List ApertureEvent) (n : ℕ) (r : ApertureWebhookReceiver)
      → Fits r
      → Fits (receive_all range now evict_now es n r).1
  unfolding receive_all
  receive_all-Fits [] n r h = h
  receive_all-Fits (e ∷ es) n r h = elim (Bool-cases (is_empty e.type)) [
    | inl skip ↦ rw (skip, receive_all) (receive_all-Fits es n r h)
    | inr typed' ↦
        rw (typed', receive_all) (receive_all-Fits es (n + 1) _ (receive-Fits (stamp now e) r h))
  ]

  receive_all_accepted :
      (es : List ApertureEvent) (n : ℕ) (r : ApertureWebhookReceiver)
      → (receive_all range now evict_now es n r).0 ≡ n + length (keep typed es)
  unfolding receive_all
  receive_all_accepted [] n r = omega arith
  receive_all_accepted (e ∷ es) n r = elim (Bool-cases (is_empty e.type)) [
    | inl skip ↦ rw (skip, receive_all) (receive_all_accepted es n r)
    | inr typed' ↦
        rw (typed', receive_all)
          (omega
            (arith, receive_all_accepted es (n + 1) (receive range now evict_now (stamp now e) r)))
  ]

  receive_of_room :
      (e : ApertureEvent) (r : ApertureWebhookReceiver)
      → length r.events < r.max_size
      → (receive range now evict_now e r).events ≡ r.events ++ (e ∷ [])
  unfolding receive
  receive_of_room e r room = ground arith

  receive_max_size :
      (e : ApertureEvent) (r : ApertureWebhookReceiver)
      → (receive range now evict_now e r).max_size ≡ r.max_size
  unfolding receive
  receive_max_size e r = refl

  -- While the buffer has room, the events of a request are appended in their order, stamped if they
  -- have no time, without those that have no type.
  receive_all_events :
      (es : List ApertureEvent) (n : ℕ) (r : ApertureWebhookReceiver)
      → length r.events + length es ≤ r.max_size
      → (receive_all range now evict_now es n r).1.events
        ≡ r.events ++ map (stamp now) (keep typed es)
  unfolding receive_all
  receive_all_events [] n r room = sym (append-nil r.events)
  receive_all_events (e ∷ es) n r room = elim (Bool-cases (is_empty e.type)) [
    | inl skip ↦ rw (skip, receive_all) (receive_all_events es n r (omega arith))
    | inr kept ↦
        let r' = receive range now evict_now (stamp now e) r in
        let grown : r'.events ≡ r.events ++ (stamp now e ∷ []) =
          receive_of_room (stamp now e) r (omega arith) in
        rw (kept, receive_all)
          (receive_all_events es (n + 1) r' (
              rw (grown, receive_max_size (stamp now e) r)
                (omega (arith, length-append r.events (stamp now e ∷ []))))
            ∙ ap (λ xs. xs ++ map (stamp now) (keep typed es)) grown
            ∙ append_assoc r.events (stamp now e ∷ []) (map (stamp now) (keep typed es)))
  ]

  answer-Fits :
      (body : Option (List ApertureEvent)) (r : ApertureWebhookReceiver)
      → Fits r
      → Fits (answer range now evict_now body r).1
  answer-Fits none r h = h
  answer-Fits (some es) r h = receive_all-Fits es 0 r h

  -- A request changes the receiver only if it is a POST, carries the secret where one is configured,
  -- and has a body that parses. Then the reply counts the events that have a type, and all events.
  pub handle_webhook_authorized :
      (d : Decoders) (method secret : Text) (body : Option Text) (r : ApertureWebhookReceiver)
      → let (reply, r') = handle_webhook range now evict_now d method secret body r in
        (r' ≡ r)
        ⊎ ((method ≡ lit "POST")
            × ((is_empty r.webhook_secret ≡ true) ⊎ (secret ≡ r.webhook_secret))
            × ((es : List ApertureEvent) × (parse_body d body ≡ some es)
                × (reply ≡ accepted_of (length (keep typed es)) (length es))))
  unfolding handle_webhook
  handle_webhook_authorized d method secret body r = elim (Bool-cases (method == lit "POST")) [
    | inr other ↦ rw other (inl refl)
    | inl post ↦
        elim (Bool-cases (not (is_empty r.webhook_secret) && not (secret == r.webhook_secret))) [
          | inl wrong ↦ rw (post, wrong) (inl refl)
          | inr right ↦
              rw (post, right)
                (elim (Option-cases (parse_body d body)) [
                  | inl bad ↦ rw (bad, answer) (inl refl)
                  | inr (es, good) ↦
                      rw (good, answer)
                        (inr (
                          (same_iff method (lit "POST")).0 post,
                          secret_ok secret r.webhook_secret right,
                          (
                            es,
                            refl,
                            ap (λ n. accepted_of n (length es))
                                (receive_all_accepted es 0 r ∙ omega arith),
                          ),
                        ))
                ])
        ]
  ]

  -- A request leaves a buffer that is within its bound, which is not 0, within it, whatever the
  -- request is.
  pub handle_webhook-Fits :
      (d : Decoders) (method secret : Text) (body : Option Text) (r : ApertureWebhookReceiver)
      → Fits r
      → Fits (handle_webhook range now evict_now d method secret body r).1
  unfolding handle_webhook
  handle_webhook-Fits d method secret body r h = elim (Bool-cases (method == lit "POST")) [
    | inr other ↦ rw other h
    | inl post ↦
        elim (Bool-cases (not (is_empty r.webhook_secret) && not (secret == r.webhook_secret))) [
          | inl wrong ↦ rw (post, wrong) h
          | inr right ↦ rw (post, right) (answer-Fits (parse_body d body) r h)
        ]
  ]
