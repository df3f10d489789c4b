-- ===== src/Gateway/Metering/Pairs.antt =====
-- Which pairs of an agent and a campaign share a bucket of the meter store.
use remote_juggler.Prelude.{◌≡◌, refl, false, [], ◌∷◌, ◌++◌, arith, ◌==◌, nat_eq}
use remote_juggler.Text.{Text, is_empty, text_eq}
use remote_juggler.Text.Laws.{Free}
use remote_juggler.Dict.{Dict}
use remote_juggler.Gateway.Metering.{bucket_key}

split_at_colon :
    (a c a' c' : Text)
    → Free (λ b. b == b':') a
    → Free (λ b. b == b':') a'
    → a ++ (b':' ∷ c) ≡ a' ++ (b':' ∷ c')
    → (a ≡ a') × (c ≡ c')
split_at_colon [] c [] c' f f' e = (refl, cc)
split_at_colon [] c (x ∷ a') c' f (g, _) e = absurd (ground arith)
split_at_colon (x ∷ a) c [] c' (g, _) f' e = absurd (ground arith)
split_at_colon (x ∷ a) c (y ∷ a') c' (_, f) (_, f') e =
    let (p, q) = split_at_colon a c a' c' f f' (ground arith) in (ground arith, q)

-- Agents without a colon, and with a name, share a bucket only with themselves: the keys of two pairs
-- are equal only if the pairs are.
pub bucket_key_injective :
    (a c a' c' : Text)
    → Free (λ b. b == b':') a
    → Free (λ b. b == b':') a'
    → is_empty a ≡ false
    → is_empty a' ≡ false
    → bucket_key a c ≡ bucket_key a' c'
    → (a ≡ a') × (c ≡ c')
unfolding bucket_key
bucket_key_injective a c a' c' f f' n n' e = split_at_colon a c a' c' f f' (rw (n, n') at e)
