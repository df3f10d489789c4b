-- ===== src/Text/Laws.antt =====
-- Round trips of the text functions: printing and reading numbers, joining and splitting.
use remote_juggler.Prelude.{
  ℕ, zero, suc, ◌+◌, ◌-◌, ◌*◌, ◌/◌, ◌%◌, ◌^◌, ◌<◌, ◌≡◌, refl, ◌∙◌, ap, inl, inr, Bool, true, false,
  some, List, [], ◌∷◌, ◌++◌, arith, ltb, all, nat_eq, Bool-cases, keep, not, ◌==◌,
}
use remote_juggler.Prelude.Int.{pos}
use remote_juggler.Text.{
  Text, text_eq, split_by, is_digit, parse_digits, atoi, print_onto, print, join, is_empty,
  contains, has_prefix, is_space, trim_left, trim_right, trim_space, fields,
}

-- No byte of the text passes the test.
abbrev pub Free : (ℕ → Bool) → Text → Type 0
Free sep [] = Unit {0}
Free sep (a ∷ s) = (sep a ≡ false) × Free sep s

pub split_by-Free : (sep : ℕ → Bool) (s : Text) → Free sep s → split_by sep s ≡ s ∷ []
unfolding split_by
split_by-Free sep [] h = refl
split_by-Free sep (a ∷ s) (h, hs) = ground (arith, split_by-Free sep s hs)

pub split_by-append :
    (sep : ℕ → Bool) (p : Text) (c : ℕ) (s : Text)
    → Free sep p
    → sep c ≡ true
    → split_by sep (p ++ (c ∷ s)) ≡ p ∷ split_by sep s
unfolding split_by
split_by-append sep [] c s h hc = ground arith
split_by-append sep (a ∷ p) c s (h, hp) hc = ground (arith, split_by-append sep p c s hp hc)

abbrev pub AllFree : (ℕ → Bool) → List Text → Type 0
AllFree sep [] = Unit {0}
AllFree sep (p ∷ ps) = Free sep p × AllFree sep ps

-- Pieces that lack the separator come back from their join.
pub split_by-join :
    (sep : ℕ → Bool) (c : ℕ) (p : Text) (ps : List Text)
    → sep c ≡ true
    → AllFree sep (p ∷ ps)
    → split_by sep (join c (p ∷ ps)) ≡ p ∷ ps
unfolding join
split_by-join sep c p [] hc (h, _) = split_by-Free sep p h
split_by-join sep c p (q ∷ rest) hc (h, hs) =
    split_by-append sep p c (join c (q ∷ rest)) h hc
    ∙ ap (λ qs. p ∷ qs) (split_by-join sep c q rest hc hs)

parse_digits-digit :
    (acc d : ℕ) (s : Text)
    → d < 10
    → parse_digits acc ((48 + d) ∷ s) ≡ parse_digits (acc * 10 + d) s
unfolding parse_digits
parse_digits-digit acc d s h = let e : 48 + d - 48 ≡ d = omega arith in rw e (ground arith)

parse_digits-print_onto :
    (fuel n : ℕ) (acc : Text)
    → n < fuel
    → parse_digits 0 (print_onto fuel n acc) ≡ parse_digits n acc
unfolding print_onto
parse_digits-print_onto zero n acc h = absurd (omega arith)
parse_digits-print_onto (suc f) n acc h = elim (Bool-cases (ltb n 10)) [
  | inl small ↦
      rw small
        (parse_digits-digit 0 n acc (ground arith) ∙ ap (λ m. parse_digits m acc) (omega arith))
  | inr large ↦ rw large (
      parse_digits-print_onto f (n / 10) _ (ground arith)
      ∙ parse_digits-digit (n / 10) (n % 10) acc (omega arith)
      ∙ ap (λ m. parse_digits m acc) (omega arith))
]

is_digit-digit : (d : ℕ) → d < 10 → is_digit (48 + d) ≡ true
unfolding is_digit
is_digit-digit d h = ground arith

-- What printing puts in front of a text is digits, and at least one.
print_onto-digits :
    (fuel n : ℕ) (acc : Text)
    → n < fuel
    → all is_digit acc ≡ true
    → all is_digit (print_onto fuel n acc) ≡ true
unfolding print_onto
print_onto-digits zero n acc h k = absurd (omega arith)
print_onto-digits (suc f) n acc h k = elim (Bool-cases (ltb n 10)) [
  | inl small ↦ rw small (rw (is_digit-digit n (ground arith)) k)
  | inr large ↦
      rw large (
        print_onto-digits f (n / 10) _ (ground arith)
          (rw (is_digit-digit (n % 10) (omega arith)) k))
]

pub print-digits : (n : ℕ) → all is_digit (print n) ≡ true
unfolding print
print-digits n = print_onto-digits (suc n) n [] (omega arith) refl

pub parse_digits-print : (n : ℕ) → parse_digits 0 (print n) ≡ some n
unfolding print parse_digits
parse_digits-print n = parse_digits-print_onto (suc n) n [] (omega arith)

print_onto-ne : (fuel n c : ℕ) (acc : Text) → is_empty (print_onto fuel n (c ∷ acc)) ≡ false
unfolding print_onto
print_onto-ne zero n c acc = refl
print_onto-ne (suc f) n c acc = ground (arith, print_onto-ne f (n / 10) (48 + n % 10) (c ∷ acc))

pub print-ne : (n : ℕ) → is_empty (print n) ≡ false
unfolding print print_onto
print-ne n = ground (arith, print_onto-ne n (n / 10) (48 + n % 10) [])

-- A row of digits has no sign, so it is read as it stands.
pub atoi-digits :
    (s : Text) (n : ℕ)
    → is_empty s ≡ false
    → all is_digit s ≡ true
    → parse_digits 0 s ≡ some n
    → n < 2 ^ 63
    → atoi s ≡ some (pos n)
unfolding atoi is_digit
atoi-digits [] n e d p h = cc
atoi-digits (c ∷ s) n e d p h = ground arith

-- Every number in range is read back from its print.
pub atoi-print : (n : ℕ) → n < 2 ^ 63 → atoi (print n) ≡ some (pos n)
atoi-print n h = atoi-digits (print n) n (print-ne n) (print-digits n) (parse_digits-print n) h

-- Digits are free of every byte that is no digit.
pub Free-digits :
    (sep : ℕ → Bool) (s : Text)
    → ((c : ℕ) → is_digit c ≡ true → sep c ≡ false)
    → all is_digit s ≡ true
    → Free sep s
Free-digits sep [] h d = tt
Free-digits sep (c ∷ s) h d = (h c (ground arith), Free-digits sep s h (ground arith))

pub contains-Free : (c : ℕ) (s : Text) → Free (λ a. a == c) s → contains s (c ∷ []) ≡ false
unfolding contains
contains-Free c [] h = refl
contains-Free c (a ∷ s) (h, hs) = ground (arith, contains-Free c s hs)

contains-append : (c : ℕ) (p s : Text) → contains (p ++ (c ∷ s)) (c ∷ []) ≡ true
unfolding contains
contains-append c [] s = ground arith
contains-append c (a ∷ p) s = ground (arith, contains-append c p s)

-- A separator that occurs in none of two or more pieces occurs in their join.
pub contains-join :
    (c : ℕ) (p q : Text) (ps : List Text) → contains (join c (p ∷ q ∷ ps)) (c ∷ []) ≡ true
unfolding join
contains-join c p q ps = contains-append c p (join c (q ∷ ps))

-- Cutting off nothing: no white space at either end of a text that has none.
trim_left-Free : (s : Text) → Free is_space s → trim_left s ≡ s
unfolding trim_left
trim_left-Free [] h = refl
trim_left-Free (a ∷ s) (h, hs) = ground arith

trim_right-Free : (s : Text) → Free is_space s → trim_right s ≡ s
unfolding trim_right
trim_right-Free [] h = refl
trim_right-Free (a ∷ []) (h, hs) = ground arith
trim_right-Free (a ∷ b ∷ s) (h, hs) = rw (trim_right-Free (b ∷ s) hs)

pub trim_space-Free : (s : Text) → Free is_space s → trim_space s ≡ s
unfolding trim_space
trim_space-Free s h = rw (trim_left-Free s h) (trim_right-Free s h)

pub keep-nonempty :
    (ps : List Text) → all (λ p. not (is_empty p)) ps ≡ true → keep (λ p. not (is_empty p)) ps ≡ ps
keep-nonempty [] h = refl
keep-nonempty (p ∷ ps) h = ground (arith, keep-nonempty ps (ground arith))

-- Words without white space come back from the text that spaces join them to.
pub fields-join :
    (p : Text) (ps : List Text)
    → AllFree is_space (p ∷ ps)
    → all (λ q. not (is_empty q)) (p ∷ ps) ≡ true
    → fields (join 32 (p ∷ ps)) ≡ p ∷ ps
unfolding fields
fields-join p ps h k = rw (split_by-join is_space 32 p ps refl h) (keep-nonempty (p ∷ ps) k)

pub has_prefix-append : (p s : Text) → has_prefix (p ++ s) p ≡ true
unfolding has_prefix
has_prefix-append [] [] = refl
has_prefix-append [] (b ∷ s) = refl
has_prefix-append (a ∷ p) s = ground (arith, has_prefix-append p s)
