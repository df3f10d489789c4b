-- ===== src/Result.antt =====
-- Go's pair of a value and an error: the value where the error is nil, or the error's text.
use remote_juggler.Prelude.{◌≡◌, refl, ◌⊎◌, inl, inr}
use remote_juggler.Text.{Text}

pub data Result {ℓ} (A : Type ℓ) : Type ℓ where
  ok : A → Result A
  err : Text → Result A

infixl 5 ◌>>=◌
abbrev pub ◌>>=◌ {ℓ κ} : {A : Type ℓ} {B : Type κ} → Result A → (A → Result B) → Result B
err e >>= next = err e
ok a >>= next = next a

-- `if err != nil { return fmt.Errorf("...: %w", err) }` with the wrapping of the message.
abbrev pub wrap {ℓ} : {A : Type ℓ} → (Text → Text) → Result A → Result A
wrap f (ok a) = ok a
wrap f (err e) = err (f e)

pub Result-cases {ℓ} :
    {A : Type ℓ} (o : Result A) → ((a : A) × (o ≡ ok a)) ⊎ ((e : Text) × (o ≡ err e))
Result-cases (ok a) = inl (a, refl)
Result-cases (err e) = inr (e, refl)
