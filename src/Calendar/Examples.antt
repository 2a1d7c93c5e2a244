-- ===== src/Calendar/Examples.antt =====
-- The first of March 2024, a Friday.
use factory_agent.Prelude.{
  ◌≤◌, ◌≡◌, refl, none, some, nat_eq, list_eq, text, strip, lstrip, err, arith,
}
use factory_agent.Calendar.{
  Date, days_in_month, previous_day, subtract_days, days_before_month, ordinal, weekday,
  quarter_start, add_month, subtract_month, Bounds, this_week, named_phrases, week_start,
  named_bounds, name_of, out_of_range, Patterns, safe_date, month_pattern, day_pattern,
  recent_pattern, phrase_bounds, resolve_days,
}
use factory_agent.Calendar.Periods.{Sound}
use factory_agent.Calendar.Resolved.{resolve_days-Sound}
use factory_agent.Calendar.Today.{Lies, named_bounds-Lies}

abbrev today : Date
today = record { year = 2024; month = 3; day = 1 }

abbrev no_pattern : Patterns
no_pattern = record {
  recent_days = λ phrase. none;
  iso_day = λ phrase. none;
  month_match = λ phrase. none;
  bare_month = λ phrase. none;
  cn_bare_month = λ phrase. none;
}

-- The week begins on Monday, in the leap February.
this_monday : week_start today ≡ record { year = 2024; month = 2; day = 26 }
unfolding week_start subtract_days previous_day weekday ordinal days_before_month days_in_month
this_monday = refl

abbrev last_quarter_bounds : Bounds
last_quarter_bounds =
    (record { year = 2023; month = 10; day = 1 }, record { year = 2024; month = 1; day = 1 })

resolve_days-Sound_example :
    Sound last_quarter_bounds
    × (1 ≤ last_quarter_bounds.0.year)
    × (last_quarter_bounds.1.year ≤ 9999)
unfolding resolve_days phrase_bounds name_of named_phrases named_bounds quarter_start subtract_month
    days_in_month strip lstrip
resolve_days-Sound_example =
    resolve_days-Sound no_pattern (text " 上季度 ") today last_quarter_bounds refl refl

named_bounds-Lies_example : Lies this_week today (named_bounds this_week today)
unfolding named_bounds week_start subtract_days previous_day weekday ordinal days_before_month
    days_in_month
named_bounds-Lies_example = named_bounds-Lies this_week today refl (omega arith)

-- The last month that `date` has runs into a year that it does not have.
abbrev last_month_pattern : Patterns
last_month_pattern = record {
  recent_days = λ phrase. none;
  iso_day = λ phrase. none;
  month_match = λ phrase. some (9999, 12);
  bare_month = λ phrase. none;
  cn_bare_month = λ phrase. none;
}

last_month_is_out_of_range :
    resolve_days last_month_pattern (text "9999-12") today ≡ err out_of_range
unfolding resolve_days phrase_bounds name_of named_phrases recent_pattern day_pattern month_pattern
    safe_date add_month days_in_month strip lstrip
last_month_is_out_of_range = refl
