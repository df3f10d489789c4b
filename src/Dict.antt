-- ===== src/Dict.antt =====
-- Go maps with string keys, as association lists. The order of a list stands for the order in which
-- one `range` over the map visits its entries.
use remote_juggler.Prelude.{
  ◌+◌, ◌≡◌, refl, ◌∙◌, Option, none, some, List, [], ◌∷◌, arith, ◌==◌, if◌then◌else◌, length,
  Bool-cases, inl, inr, any, is_some, sym, ap,
}
use mathlib.Core.Path.{subst}
use remote_juggler.Text.{Text, text_eq, same_iff}

abbrev pub Dict {ℓ} : Type ℓ → Type ℓ
Dict V = List (Text × V)

module _ {ℓ} {V : Type ℓ} where
  -- `v, ok := m[k]`
  unfoldable pub lookup : Text → Dict V → Option V
  lookup k [] = none
  lookup k ((j, v) ∷ d) = if j == k then some v else lookup k d

  -- `m[k] = v`
  unfoldable pub insert : Text → V → Dict V → Dict V
  insert k v [] = (k, v) ∷ []
  insert k v ((j, w) ∷ d) = if j == k then (k, v) ∷ d else (j, w) ∷ insert k v d

  -- The values, in the order of the entries.
  unfoldable pub values : Dict V → List V
  values [] = []
  values ((k, v) ∷ d) = v ∷ values d

  -- No key is listed twice.
  abbrev pub NodupKeys : Dict V → Type ℓ
  NodupKeys [] = Unit
  NodupKeys ((k, v) ∷ d) = (lookup k d ≡ none) × NodupKeys d

  -- Every entry satisfies the predicate.
  abbrev pub Every {κ} : (Text → V → Type κ) → Dict V → Type κ
  Every P [] = Unit
  Every P ((k, v) ∷ d) = P k v × Every P d

  pub lookup-insert :
      (k j : Text) (v : V) (d : Dict V)
      → lookup j (insert k v d) ≡ (if k == j then some v else lookup j d)
  unfolding lookup insert
  lookup-insert k j v [] = refl
  lookup-insert k j v ((i, w) ∷ d) =
      ground (arith, same_iff k j, same_iff i k, same_iff i j, lookup-insert k j v d)

  pub lookup-insert_self : (k : Text) (v : V) (d : Dict V) → lookup k (insert k v d) ≡ some v
  lookup-insert_self k v d = lookup-insert k k v d ∙ rw ((same_iff k k).1 refl)

  pub insert-NodupKeys : (k : Text) (v : V) (d : Dict V) → NodupKeys d → NodupKeys (insert k v d)
  unfolding lookup insert
  insert-NodupKeys k v [] u = (refl, tt)
  insert-NodupKeys k v ((j, w) ∷ d) (fresh, u) =
      ground (arith, insert-NodupKeys k v d u, lookup-insert k j v d, same_iff j k, same_iff k j)

  pub insert-Every {κ} :
      (P : Text → V → Type κ) (k : Text) (v : V) (d : Dict V)
      → P k v
      → Every P d
      → Every P (insert k v d)
  unfolding insert
  insert-Every P k v [] p h = (p, tt)
  insert-Every P k v ((j, w) ∷ d) p (pj, h) = elim (Bool-cases (j == k)) [
    | inl e ↦ rw e (p, h)
    | inr e ↦ rw e (pj, insert-Every P k v d p h)
  ]

  pub length-insert :
      (k : Text) (v : V) (d : Dict V) → lookup k d ≡ none → length (insert k v d) ≡ length d + 1
  unfolding lookup insert
  length-insert k v [] h = omega arith
  length-insert k v ((j, w) ∷ d) h = ground (arith, length-insert k v d)

  -- The keys, in the order of the entries.
  abbrev pub keys : Dict V → List Text
  keys [] = []
  keys ((k, v) ∷ d) = k ∷ keys d

  pub is_some-lookup : (k : Text) (d : Dict V) → is_some (lookup k d) ≡ any (λ u. u == k) (keys d)
  unfolding lookup
  is_some-lookup k [] = refl
  is_some-lookup k ((j, v) ∷ d) = elim (Bool-cases (j == k)) [
    | inl e ↦ rw e refl
    | inr e ↦ rw e (is_some-lookup k d)
  ]

  abbrev some_or : V → Option V → V
  some_or w none = w
  some_or w (some v) = v

  pub lookup-Every {κ} :
      (P : Text → V → Type κ) (k : Text) (v : V) (d : Dict V)
      → Every P d
      → lookup k d ≡ some v
      → P k v
  unfolding lookup
  lookup-Every P k v [] h e = absurd (ground (arith, e))
  lookup-Every P k v ((j, w) ∷ d) (p, h) e = elim (Bool-cases (j == k)) [
    | inl found ↦
        let here : some w ≡ some v = sym (rw found refl) ∙ e in
        subst (λ x. P x v) ((same_iff j k).0 found) (subst (P j) (ap (some_or w) here) p)
    | inr different ↦ lookup-Every P k v d h (sym (rw different refl) ∙ e)
  ]
