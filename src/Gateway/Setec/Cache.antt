-- ===== src/Gateway/Setec/Cache.antt =====
-- What the cache of the Setec client answers, and when.
use remote_juggler.Prelude.{
  ◌-◌, ◌<◌, ◌≡◌, ◌≢◌, refl, ◌∙◌, ap, sym, true, false, none, some, ◌++◌, ltb, ◌==◌, nat_eq, arith,
  Bool-cases, inl, inr,
}
use mathlib.Core.Path.{subst}
use remote_juggler.Prelude.Int.{pos}
use remote_juggler.Text.{Text, lit}
use remote_juggler.Dict.{lookup, lookup-insert_self}
use remote_juggler.Result.{Result, ok, err}
use remote_juggler.Http.{HttpResponse, Transport}
use remote_juggler.Gateway.Setec.{
  CachedSecret, SetecClient, Codecs, configured, stored, call_api, get, put, fresh, remember,
}

module _ {W : Type 0} (t : Transport W) (j : Codecs W) where
  get_warm :
      (name : Text) (c : SetecClient) (w : W) (s : CachedSecret)
      → configured c ≡ true
      → lookup (c.prefix ++ name) c.cache ≡ some s
      → j.clock w - s.fetched_at < c.poll_interval
      → get t j name c w ≡ (ok s.value, (c, w))
  unfolding get fresh
  get_warm name c w s on found young =
      let young' : ltb (j.clock w - s.fetched_at) c.poll_interval ≡ true = ground (arith, young) in
      rw (on, fresh, found, young') refl

  abbrev written : Text → Text → SetecClient → W → SetecClient
  written full value c w =
      remember full (record { value = value; version = pos 0; fetched_at = j.clock w }) c

  stored-cases :
      (what full value : Text) (c : SetecClient) (a : Result HttpResponse × W)
      → (stored t j c what full value a).0 ≡ none
      → (stored t j c what full value a).1 ≡ (written full value c a.1, a.1)
  stored-cases what full value c (err e, w) h = absurd (ground (arith, h))
  stored-cases what full value c (ok r, w) h = elim (Bool-cases (r.status_code == 200)) [
    | inl good ↦ rw (stored, good) refl
    | inr bad ↦ absurd (ground (arith, h, bad))
  ]

  -- The exchange of a put.
  abbrev pub put_answer : Text → Text → SetecClient → W → Result HttpResponse × W
  put_answer name value c w =
      call_api t j c (lit "setec put " ++ j.quote name) (lit "/api/put")
        (j.marshal_put (c.prefix ++ name) (j.encode_value value)) w

  pub put-eq-stored :
      (name value : Text) (c : SetecClient) (w : W)
      → configured c ≡ true
      → put t j name value c w
        ≡ stored t j c
            (lit "setec put " ++ j.quote name)
            (c.prefix ++ name)
            value
            (put_answer name value c w)
  unfolding put
  put-eq-stored name value c w on = rw on refl

  pub put_off :
      (name value : Text) (c : SetecClient) (w : W)
      → configured c ≡ false
      → put t j name value c w ≡ (some (lit "setec not configured"), (c, w))
  unfolding put
  put_off name value c w off = rw off refl

  some_ne_none : (e : Text) → some e ≢ none
  some_ne_none e h = absurd (ground (arith, h))

  pub put-cases :
      (name value : Text) (c : SetecClient) (w : W)
      → (put t j name value c w).0 ≡ none
      → (configured c ≡ true)
        × ((put t j name value c w).1 ≡ (
            let w' = (put_answer name value c w).1 in (written (c.prefix ++ name) value c w', w')))
  put-cases name value c w h = elim (Bool-cases (configured c)) [
    | inl on ↦
        let e = put-eq-stored name value c w on in
        (
          on,
          ap (λ r. r.1) e
              ∙ stored-cases (lit "setec put " ++ j.quote name) (c.prefix ++ name) value c
                  (put_answer name value c w) (sym (ap (λ r. r.0) e) ∙ h),
        )
    | inr off ↦ absurd (some_ne_none _ (sym (ap (λ r. r.0) (put_off name value c w off)) ∙ h))
  ]

  -- What was put is read back for the poll interval, without a request, whatever the server does.
  pub get-put :
      (name value : Text) (c : SetecClient) (w later : W)
      → let (e, (c', w')) = put t j name value c w in
        e ≡ none
        → j.clock later - j.clock w' < c.poll_interval
        → get t j name c' later ≡ (ok value, (c', later))
  get-put name value c w later done young =
      let (on, e) = put-cases name value c w done in
      let w' = (put_answer name value c w).1 in
      let s : CachedSecret = record { value = value; version = pos 0; fetched_at = j.clock w' } in
      subst
        (λ p.
          j.clock later - j.clock p.1 < c.poll_interval
          → get t j name p.0 later ≡ (ok value, (p.0, later)))
        (sym e)
        (λ soon.
          get_warm name (written (c.prefix ++ name) value c w') later s on
            (lookup-insert_self (c.prefix ++ name) s c.cache) soon)
        young
