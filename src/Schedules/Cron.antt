-- ===== src/Schedules/Cron.antt =====
-- src/utils/cron.ts: cron expressions and time zones. The parser of expressions and the list of time
-- zones are not part of the repository; what they answer is a parameter.
use autobeat.Prelude.{ℕ, String, Bool, Option, none, some, if◌then◌else◌}
use autobeat.Result.{Result, ok, err, ErrorCode, invalid_input}

pub record CronParser : Type 0 where
  -- `parseExpression` does not throw.
  pub parses : String → Bool
  -- The first time after the given one, or `none` where the parser throws.
  pub next : String → String → ℕ → Option ℕ
  -- `Intl.DateTimeFormat` does not throw.
  pub has_timezone : String → Bool
  -- `Date.parse`, `none` for NaN.
  pub parse_date : String → Option ℕ

unfoldable pub validate_cron_expression : CronParser → String → Result (Unit {0}) ErrorCode
validate_cron_expression c expression = if c.parses expression then ok tt else err invalid_input

abbrev pub next_or_error : Option ℕ → Result ℕ ErrorCode
next_or_error none = err invalid_input
next_or_error (some t) = ok t

unfoldable pub get_next_run_time : CronParser → String → String → ℕ → Result ℕ ErrorCode
get_next_run_time c expression timezone after_time =
    next_or_error (c.next expression timezone after_time)

unfoldable pub is_valid_timezone : CronParser → String → Bool
is_valid_timezone c timezone = c.has_timezone timezone
