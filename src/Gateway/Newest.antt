-- ===== src/Gateway/Newest.antt =====
-- The loop that copies the newest entries of a slice, last one first: AuditLog.Recent of
-- gateway/identity.go and ApertureWebhookReceiver.Recent of gateway/aperture_webhook.go share it.
use mathlib.Core.List.{reverse, reverse-cons}
use native.Mathlib.Decide.{dec_lt}
use remote_juggler.Prelude.{
  ℕ, zero, suc, ◌+◌, ◌-◌, ◌≤◌, ◌<◌, ◌≡◌, refl, ◌∙◌, Option, none, some, List, [], ◌∷◌, ◌++◌, arith,
  length, get_elem?, take, drop, length-append, lt→ltb, ltb, if◌then◌else◌,
}

module _ {ℓ} {A : Type ℓ} where
  abbrev prepend : Option A → Option (List A) → Option (List A)
  prepend (some x) (some xs) = some (x ∷ xs)
  prepend _ _ = none

  -- `for i := i; i < n; i++ { result[i] = entries[total-1-i] }` with n - i rounds left. `none` is the
  -- panic of an index that is out of range.
  unfoldable pub newest_from : List A → ℕ → ℕ → Option (List A)
  newest_from xs i zero = some []
  newest_from xs i (suc rounds) =
      prepend (if ltb i (length xs) then get_elem? xs (length xs - 1 - i) else none)
        (newest_from xs (suc i) rounds)

  pub length-reverse : (xs : List A) → length (reverse xs) ≡ length xs
  length-reverse [] = refl
  length-reverse (x ∷ xs) =
      rw (reverse-cons x xs) (omega (arith, length-append (reverse xs) (x ∷ []), length-reverse xs))

  get_elem?-append :
      (xs : List A) (x : A) (n : ℕ) → n ≡ length xs → get_elem? (xs ++ (x ∷ [])) n ≡ some x
  get_elem?-append [] x zero h = refl
  get_elem?-append [] x (suc n) h = absurd (omega arith)
  get_elem?-append (y ∷ xs) x zero h = absurd (omega arith)
  get_elem?-append (y ∷ xs) x (suc n) h = get_elem?-append xs x n (omega arith)

  get_elem?-append_left :
      (xs ys : List A) (i : ℕ) → i < length xs → get_elem? (xs ++ ys) i ≡ get_elem? xs i
  get_elem?-append_left [] ys i h = absurd (omega arith)
  get_elem?-append_left (x ∷ xs) ys zero h = refl
  get_elem?-append_left (x ∷ xs) ys (suc i) h = get_elem?-append_left xs ys i (omega arith)

  get_elem?-reverse :
      (xs : List A) (i : ℕ)
      → i < length xs
      → get_elem? (reverse xs) i ≡ get_elem? xs (length xs - 1 - i)
  get_elem?-reverse [] i h = absurd (omega arith)
  get_elem?-reverse (x ∷ xs) i h = rw (reverse-cons x xs) (elim (dec_lt i (length xs)) [
    | yes inside ↦
        let e : suc (length xs) - 1 - i ≡ suc (length xs - 1 - i) = omega arith in
        rw e (
          get_elem?-append_left (reverse xs) (x ∷ []) i (omega (arith, length-reverse xs))
          ∙ get_elem?-reverse xs i inside)
    | no last ↦
        let e : suc (length xs) - 1 - i ≡ 0 = omega arith in
        rw e (get_elem?-append (reverse xs) x i (omega (arith, length-reverse xs)))
  ])

  drop_cons :
      (xs : List A) (i : ℕ)
      → i < length xs
      → (x : A) × (get_elem? xs i ≡ some x) × (drop i xs ≡ x ∷ drop (suc i) xs)
  drop_cons [] i h = absurd (omega arith)
  drop_cons (y ∷ xs) zero h = (y, refl, refl)
  drop_cons (y ∷ xs) (suc i) h = drop_cons xs i (omega arith)

  newest_from-take :
      (xs : List A) (i rounds : ℕ)
      → i + rounds ≤ length xs
      → newest_from xs i rounds ≡ some (take rounds (drop i (reverse xs)))
  unfolding newest_from
  newest_from-take xs i zero h = refl
  newest_from-take xs i (suc rounds) h =
      let (x, at, cut) = drop_cons (reverse xs) i (omega (arith, length-reverse xs)) in
      rw (
        lt→ltb i (length xs) (omega arith),
        ← get_elem?-reverse xs i (omega arith),
        at,
        cut,
        newest_from-take xs (suc i) rounds (omega arith),
      )

  -- Within the slice no index is out of range, and the loop copies the newest entries.
  pub newest_from-eq-take :
      (xs : List A) (n : ℕ) → n ≤ length xs → newest_from xs 0 n ≡ some (take n (reverse xs))
  newest_from-eq-take xs n h = newest_from-take xs 0 n (omega arith)
