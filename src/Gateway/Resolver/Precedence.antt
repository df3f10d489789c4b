-- ===== src/Gateway/Resolver/Precedence.antt =====
-- Precedence: the first source that has the secret wins, and no later one is asked.
use remote_juggler.Prelude.{
  ◌≡◌, refl, sym, false, none, some, List, [], ◌∷◌, ◌++◌, arith, append_assoc, append-nil,
  Option-cases, inl, inr,
}
use remote_juggler.Text.{Text, lit, text_eq, is_empty}
use remote_juggler.Result.{Result, ok, err}
use remote_juggler.Gateway.Resolver.{
  ResolveResult, Backend, resolve_source, resolve_from, resolve, hit,
}

hit-ok : (o : Result Text) {v : Text} → hit o ≡ some v → (o ≡ ok v) × (is_empty v ≡ false)
hit-ok (ok w) h = ground arith
hit-ok (err e) h = cc

-- The sources of a query: its own, or those of the configuration.
abbrev pub effective_sources : List Text → List Text → List Text
effective_sources precedence [] = precedence
effective_sources precedence (s ∷ sources) = s ∷ sources

module _ (b : Backend) (query : Text) where
  -- None of the sources has a value that is not empty.
  abbrev pub AllMiss : List Text → Type 0
  AllMiss [] = Unit {0}
  AllMiss (src ∷ rest) = (hit (resolve_source b src query) ≡ none) × AllMiss rest

  -- What a resolution may return, over the list of its sources.
  pub data Resolved (sources : List Text) (r : ResolveResult) : Type 0 where
    found :
        (missed : List Text) (src : Text) (later : List Text) (v : Text)
        → sources ≡ missed ++ (src ∷ later)
        → AllMiss missed
        → resolve_source b src query ≡ ok v
        → is_empty v ≡ false
        → r ≡ record {
          value = v;
          source = src;
          sources_checked = missed ++ (src ∷ []);
          cached = false;
          error = [];
        }
        → Resolved sources r
    not_found :
        AllMiss sources
        → r.value ≡ []
        → r.source ≡ []
        → r.sources_checked ≡ sources
        → is_empty r.error ≡ false
        → Resolved sources r

  AllMiss-append :
      (xs : List Text) (x : Text)
      → AllMiss xs
      → hit (resolve_source b x query) ≡ none
      → AllMiss (xs ++ (x ∷ []))
  AllMiss-append [] x h m = (m, tt)
  AllMiss-append (y ∷ ys) x (hy, h) m = (hy, AllMiss-append ys x h m)

  resolve_from-Resolved :
      (checked sources : List Text)
      → AllMiss checked
      → Resolved (checked ++ sources) (resolve_from b query checked sources)
  unfolding resolve_from lit
  resolve_from-Resolved checked [] h =
      not_found (rw append-nil h) refl refl (sym (append-nil checked)) refl
  resolve_from-Resolved checked (src ∷ rest) h =
      elim (Option-cases (hit (resolve_source b src query))) [
        | inl miss ↦
            rw (miss, resolve_from)
              (rw (append_assoc checked (src ∷ []) rest) at (
                resolve_from-Resolved (checked ++ (src ∷ [])) rest
                  (AllMiss-append checked src h miss)))
        | inr (v, e) ↦
            let (is, ne) = hit-ok (resolve_source b src query) e in
            found checked src rest v refl h is ne (rw (e, resolve_from))
      ]

  -- A resolution either stops at the first of its sources with a value that is not empty, and says
  -- which sources were asked up to there, or finds that all of them miss, has asked them all, and
  -- reports an error. Its sources are those given, or those of the configuration if none are.
  pub resolve-Resolved :
      (precedence sources : List Text)
      → Resolved (effective_sources precedence sources) (resolve b precedence query sources)
  unfolding resolve
  resolve-Resolved precedence [] = resolve_from-Resolved [] precedence tt
  resolve-Resolved precedence (s ∷ sources) = resolve_from-Resolved [] (s ∷ sources) tt
