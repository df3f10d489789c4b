-- ===== src/Runner/Cron.antt =====
-- Cron expressions: cronMatches and cronFieldMatches of test/campaigns/runner/scheduler.go.
pub mod Laws
use remote_juggler.Prelude.{
  ℕ, zero, ◌%◌, Bool, true, false, Option, none, some, List, [], ◌∷◌, drop, any, ◌==◌, nat_eq,
  if◌then◌else◌, ◌&&◌,
}
use remote_juggler.Prelude.Int.{ℤ, pos, negsuc}
use remote_juggler.Text.{Text, lit, text_eq, has_prefix, contains, split, trim_space, fields, atoi}

-- What `cronMatches` reads off a `time.Time`.
pub record CivilTime : Type 0 where
  pub minute : ℕ
  pub hour : ℕ
  pub day : ℕ
  pub month : ℕ
  pub weekday : ℕ  -- 0 is Sunday

-- `err == nil && n == value`
unfoldable pub number_matches : Option ℤ → ℕ → Bool
number_matches (some (pos n)) value = n == value
number_matches _ value = false

-- `*/N`: a step that is no positive number matches nothing.
unfoldable pub step_matches : Option ℤ → ℕ → Bool
step_matches (some (pos step)) value = if step == 0 then false else value % step == 0
step_matches _ value = false

-- The loop over the parts of a list; a part that is no number is skipped.
unfoldable pub list_matches : List Text → ℕ → Bool
unfolding trim_space atoi number_matches
list_matches parts value = any (λ part. number_matches (atoi (trim_space part)) value) parts

unfoldable pub cron_field_matches : Text → ℕ → Bool
unfolding lit has_prefix contains atoi step_matches list_matches number_matches
cron_field_matches field value =
    if field == lit "*"
    then true
    else if has_prefix field (lit "*/")
    then step_matches (atoi (drop 2 field)) value
    else if contains field (lit ",")
    then list_matches (split b',' field) value
    else number_matches (atoi field) value

-- The five checks, of which the first that fails ends the loop.
checks_match : List Text → CivilTime → Bool
unfolding cron_field_matches
checks_match (minute ∷ hour ∷ day ∷ month ∷ weekday ∷ []) t =
    cron_field_matches minute t.minute
    && cron_field_matches hour t.hour
    && cron_field_matches day t.day
    && cron_field_matches month t.month
    && cron_field_matches weekday t.weekday
checks_match _ t = false

unfoldable pub cron_matches : Text → CivilTime → Bool
unfolding fields checks_match
cron_matches expr t = checks_match (fields expr) t
