-- ===== src/Runner/Cron/Laws.antt =====
-- Cron expressions against a grammar of their own: a field means what its rendering matches.
use remote_juggler.Prelude.{
  append-nil, ℕ, ◌%◌, ◌^◌, ◌<◌, ◌≡◌, refl, ◌∙◌, ap, Bool, true, false, ◌&&◌, List, [], ◌∷◌, ◌++◌,
  map, any, all, arith, ◌==◌, nat_eq, if◌then◌else◌,
}
use remote_juggler.Text.{
  Text, lit, same, text_eq, contains, split, is_space, is_digit, is_empty, trim_space, fields, atoi,
  print, join,
}
use remote_juggler.Text.Laws.{
  Free, AllFree, Free-digits, print-digits, print-ne, atoi-print, contains-Free, contains-join,
  trim_space-Free, split_by-join, fields-join,
}
use remote_juggler.Runner.Cron.{
  CivilTime, number_matches, list_matches, cron_field_matches, checks_match, cron_matches,
}

-- The fields that the doc comment of `cronFieldMatches` lists.
pub data FieldSpec : Type 0 where
  every : FieldSpec
  step : ℕ → FieldSpec
  number : ℕ → FieldSpec
  among : ℕ → ℕ → List ℕ → FieldSpec

unfoldable pub render : FieldSpec → Text
unfolding lit print join
render every = lit "*"
render (step k) = lit "*/" ++ print k
render (number n) = print n
render (among n m ns) = join b',' (map print (n ∷ m ∷ ns))

unfoldable pub meaning : FieldSpec → ℕ → Bool
meaning every v = true
meaning (step k) v = v % k == 0
meaning (number n) v = n == v
meaning (among n m ns) v = any (λ k. k == v) (n ∷ m ∷ ns)

abbrev pub Small : List ℕ → Type 0
Small [] = Unit {0}
Small (n ∷ ns) = (n < 2 ^ 63) × Small ns

-- Numbers that an `int` holds, and steps that are not 0.
abbrev pub InRange : FieldSpec → Type 0
InRange every = Unit {0}
InRange (step k) = (0 < k) × (k < 2 ^ 63)
InRange (number n) = n < 2 ^ 63
InRange (among n m ns) = Small (n ∷ m ∷ ns)

digit-ne-comma : (c : ℕ) → is_digit c ≡ true → (c == b',') ≡ false
unfolding is_digit
digit-ne-comma c h = ground arith

digit-ne-space : (c : ℕ) → is_digit c ≡ true → is_space c ≡ false
unfolding is_digit is_space
digit-ne-space c h = ground arith

print-no_comma : (n : ℕ) → Free (λ a. a == b',') (print n)
print-no_comma n = Free-digits (λ a. a == b',') (print n) digit-ne-comma (print-digits n)

print-no_space : (n : ℕ) → Free is_space (print n)
print-no_space n = Free-digits is_space (print n) digit-ne-space (print-digits n)

digit-ne-star : (c : ℕ) → is_digit c ≡ true → (c == b'*') ≡ false
unfolding is_digit
digit-ne-star c h = ground arith

-- A text that does not begin with a star is neither the star nor a step.
abbrev Starless : Text → Type 0
Starless [] = Unit {0}
Starless (c ∷ s) = (c == b'*') ≡ false

field_of_Starless :
    (s : Text) (v : ℕ)
    → Starless s
    → cron_field_matches s v
      ≡ (if contains s (lit ",") then list_matches (split b',' s) v else number_matches (atoi s) v)
unfolding cron_field_matches same
field_of_Starless [] v h = refl
field_of_Starless (c ∷ s) v h = ground arith

Starless-digits : (s t : Text) → is_empty s ≡ false → all is_digit s ≡ true → Starless (s ++ t)
Starless-digits [] t e d = absurd (cc)
Starless-digits (c ∷ s) t e d = digit-ne-star c (ground arith)

print-Starless : (n : ℕ) (t : Text) → Starless (print n ++ t)
print-Starless n t = Starless-digits (print n) t (print-ne n) (print-digits n)

print-no_comma_test : (n : ℕ) → contains (print n) (lit ",") ≡ false
unfolding lit
print-no_comma_test n = contains-Free b',' (print n) (print-no_comma n)

number_field : (n v : ℕ) → n < 2 ^ 63 → cron_field_matches (print n) v ≡ (n == v)
unfolding number_matches
number_field n v h =
    field_of_Starless (print n) v (rw append-nil at (print-Starless n []))
    ∙ rw (print-no_comma_test n, atoi-print n h)

step_field :
    (k v : ℕ) → 0 < k → k < 2 ^ 63 → cron_field_matches (lit "*/" ++ print k) v ≡ (v % k == 0)
unfolding cron_field_matches same
step_field k v p h = rw (atoi-print k h) (ground arith)

prints-AllFree : (ns : List ℕ) → AllFree (λ a. a == b',') (map print ns)
prints-AllFree [] = tt
prints-AllFree (n ∷ ns) = (print-no_comma n, prints-AllFree ns)

part_matches : (n v : ℕ) → n < 2 ^ 63 → number_matches (atoi (trim_space (print n))) v ≡ (n == v)
unfolding number_matches
part_matches n v h = rw (trim_space-Free (print n) (print-no_space n), atoi-print n h)

list_matches-prints :
    (ns : List ℕ) (v : ℕ) → Small ns → list_matches (map print ns) v ≡ any (λ k. k == v) ns
unfolding list_matches
list_matches-prints [] v h = refl
list_matches-prints (n ∷ ns) v (h, hs) = rw (part_matches n v h, list_matches-prints ns v hs)

join-Starless : (n m : ℕ) (ns : List ℕ) → Starless (join b',' (map print (n ∷ m ∷ ns)))
unfolding join
join-Starless n m ns = print-Starless n _

list_field :
    (n m : ℕ) (ns : List ℕ) (v : ℕ)
    → Small (n ∷ m ∷ ns)
    → cron_field_matches (join b',' (map print (n ∷ m ∷ ns))) v ≡ any (λ k. k == v) (n ∷ m ∷ ns)
unfolding lit
list_field n m ns v h =
    field_of_Starless _ v (join-Starless n m ns)
    ∙ rw (contains-join b',' (print n) (print m) (map print ns)) (
        rw
          (split_by-join (λ a. a == b',') b',' (print n) (print m ∷ map print ns) refl
            (prints-AllFree (n ∷ m ∷ ns)))
          (list_matches-prints (n ∷ m ∷ ns) v h))

-- A field matches a value exactly when the value is one that the field stands for.
pub cron_field-render :
    (f : FieldSpec) (v : ℕ) → InRange f → cron_field_matches (render f) v ≡ meaning f v
unfolding render meaning
cron_field-render every v h = unfold cron_field_matches same in refl
cron_field-render (step k) v (p, h) = step_field k v p h
cron_field-render (number n) v h = number_field n v h
cron_field-render (among n m ns) v h = list_field n m ns v h

Free-append : (sep : ℕ → Bool) (s t : Text) → Free sep s → Free sep t → Free sep (s ++ t)
Free-append sep [] t h k = k
Free-append sep (a ∷ s) t (ha, h) k = (ha, Free-append sep s t h k)

prints-no_space : (n : ℕ) (ns : List ℕ) → Free is_space (join b',' (map print (n ∷ ns)))
unfolding join is_space
prints-no_space n [] = print-no_space n
prints-no_space n (m ∷ ns) =
    Free-append is_space (print n) _ (print-no_space n) (refl, prints-no_space m ns)

render-no_space : (f : FieldSpec) → Free is_space (render f)
unfolding render is_space lit
render-no_space every = (refl, tt)
render-no_space (step k) = (refl, (refl, print-no_space k))
render-no_space (number n) = print-no_space n
render-no_space (among n m ns) = prints-no_space n (m ∷ ns)

append-ne : (s t : Text) → is_empty s ≡ false → is_empty (s ++ t) ≡ false
append-ne [] t h = absurd (cc)
append-ne (a ∷ s) t h = refl

render-ne : (f : FieldSpec) → is_empty (render f) ≡ false
unfolding render
render-ne every = refl
render-ne (step k) = refl
render-ne (number n) = print-ne n
render-ne (among n m ns) = append-ne (print n) _ (print-ne n)

-- The five fields of an expression.
pub record CronSpec : Type 0 where
  pub minute : FieldSpec
  pub hour : FieldSpec
  pub day : FieldSpec
  pub month : FieldSpec
  pub weekday : FieldSpec

abbrev pub render_cron : CronSpec → Text
render_cron c =
    join 32
      (render c.minute ∷ render c.hour ∷ render c.day ∷ render c.month ∷ render c.weekday ∷ [])

abbrev pub due_at : CronSpec → CivilTime → Bool
due_at c t =
    meaning c.minute t.minute
    && meaning c.hour t.hour
    && meaning c.day t.day
    && meaning c.month t.month
    && meaning c.weekday t.weekday

pub record CronInRange (c : CronSpec) : Type 0 where
  pub minute : InRange c.minute
  pub hour : InRange c.hour
  pub day : InRange c.day
  pub month : InRange c.month
  pub weekday : InRange c.weekday

fields-render_cron :
    (c : CronSpec)
    → fields (render_cron c)
      ≡ render c.minute ∷ render c.hour ∷ render c.day ∷ render c.month ∷ render c.weekday ∷ []
fields-render_cron c =
    fields-join _ _
      (
        render-no_space c.minute,
        (
          render-no_space c.hour,
          (render-no_space c.day, (render-no_space c.month, (render-no_space c.weekday, tt))),
        ),
      )
      (simp render-ne)

-- An expression of five fields (each a star, a step, a number or a list of numbers, the steps
-- not 0 and all numbers below 2^63), joined by single spaces, matches a time exactly when each
-- field allows its reading of the time.
pub cron_matches-render :
    (c : CronSpec) (t : CivilTime) → CronInRange c → cron_matches (render_cron c) t ≡ due_at c t
unfolding cron_matches
cron_matches-render c t h =
    ap (λ words. checks_match words t) (fields-render_cron c)
    ∙ rw (
      cron_field-render c.minute t.minute h.minute,
      cron_field-render c.hour t.hour h.hour,
      cron_field-render c.day t.day h.day,
      cron_field-render c.month t.month h.month,
      cron_field-render c.weekday t.weekday h.weekday,
    )
