-- ===== src/Calendar.antt =====
-- src/factory_agent/application/time_expressions.py: the days of a phrase. `datetime.date` is a year,
-- a month and a day of the Gregorian calendar, and a step of a day goes over the ends of the months.
-- The regular expressions are parameters, each by the groups that it matches.
-- The instants of the days, which the time zone gives, and the redline of a range are left out.
pub mod Order
pub mod Steps
pub mod Periods
pub mod Resolved
pub mod Today
mod Examples
use factory_agent.Prelude.{
  ℕ, zero, suc, ◌+◌, ◌-◌, ◌*◌, ◌/◌, ◌%◌, Bool, true, false, not, ◌&&◌, ◌||◌, Option, none, some,
  List, [], ◌∷◌, leb, ltb, nat_beq, if◌then◌else◌, ◌==◌, nat_eq, list_eq, contains, is_empty, get,
  Text, text, strip, Result, ok, err, ◌>>=◌,
}

pub record Date : Type 0 where
  pub year : ℕ
  pub month : ℕ
  pub day : ℕ

abbrev pub is_leap : ℕ → Bool
is_leap year = nat_beq (year % 4) 0 && (not (nat_beq (year % 100) 0) || nat_beq (year % 400) 0)

unfoldable pub days_in_month : ℕ → ℕ → ℕ
days_in_month year month =
    if nat_beq month 2
    then if is_leap year then 29 else 28
    else if contains (4 ∷ 6 ∷ 9 ∷ 11 ∷ []) month
    then 30
    else 31

-- The days that `date` has.
abbrev pub is_date : Date → Bool
is_date d =
    leb 1 d.year
    && leb d.year 9999
    && (leb 1 d.month && leb d.month 12)
    && (leb 1 d.day && leb d.day (days_in_month d.year d.month))

-- d < e
abbrev pub is_before : Date → Date → Bool
is_before d e =
    ltb d.year e.year
    || nat_beq d.year e.year && (ltb d.month e.month || nat_beq d.month e.month && ltb d.day e.day)

unfoldable pub next_day : Date → Date
next_day d =
    if ltb d.day (days_in_month d.year d.month)
    then record d { day = d.day + 1 }
    else if ltb d.month 12
    then record d { month = d.month + 1; day = 1 }
    else record { year = d.year + 1; month = 1; day = 1 }

-- Before the first of January of the year 1 there is the year 0, which `date` refuses.
unfoldable pub previous_day : Date → Date
previous_day d =
    if ltb 1 d.day
    then record d { day = d.day - 1 }
    else if ltb 1 d.month
    then record d { month = d.month - 1; day = days_in_month d.year (d.month - 1) }
    else record { year = d.year - 1; month = 12; day = 31 }

-- + timedelta(days=n)
unfoldable pub add_days : ℕ → Date → Date
unfolding next_day
add_days zero d = d
add_days (suc n) d = next_day (add_days n d)

-- - timedelta(days=n)
unfoldable pub subtract_days : ℕ → Date → Date
unfolding previous_day
subtract_days zero d = d
subtract_days (suc n) d = previous_day (subtract_days n d)

-- The days of the months before.
unfoldable pub days_before_month : ℕ → ℕ → ℕ
days_before_month year zero = 0
days_before_month year (suc zero) = 0
days_before_month year (suc (suc m)) = days_before_month year (suc m) + days_in_month year (suc m)

-- `toordinal`: the days from the first day of the year 1 on, which is day 1.
unfoldable pub ordinal : Date → ℕ
unfolding days_before_month
ordinal d =
    let y = d.year - 1 in
    y * 365 + y / 4 - y / 100 + y / 400 + days_before_month d.year d.month + d.day

-- `weekday`: 0 is Monday.
unfoldable pub weekday : Date → ℕ
unfolding ordinal
weekday d = (ordinal d + 6) % 7

-- `_quarter_start`
unfoldable pub quarter_start : Date → Date
quarter_start d = record d { month = (d.month - 1) / 3 * 3 + 1; day = 1 }

-- `_add_month`, `_subtract_month`
unfoldable pub add_month : Date → Date
add_month d =
    if nat_beq d.month 12
    then record d { year = d.year + 1; month = 1 }
    else record d { month = d.month + 1 }

unfoldable pub subtract_month : Date → Date
subtract_month d =
    if nat_beq d.month 1
    then record d { year = d.year - 1; month = 12 }
    else record d { month = d.month - 1 }

abbrev pub Bounds : Type 0
Bounds = Date × Date

-- `_resolve_named` without the phrases.
pub data Named : Type 0 where
  today_named yesterday_named before_yesterday this_week last_week this_month last_month : Named
  this_quarter last_quarter this_year last_year : Named

unfoldable pub named_phrases : Named → List Text
named_phrases today_named = text "今天" ∷ text "今日" ∷ []
named_phrases yesterday_named = text "昨天" ∷ text "昨日" ∷ []
named_phrases before_yesterday = text "前天" ∷ []
named_phrases this_week = text "本周" ∷ text "这周" ∷ text "这个星期" ∷ []
named_phrases last_week = text "上周" ∷ text "上个星期" ∷ []
named_phrases this_month = text "本月" ∷ text "这个月" ∷ text "当月" ∷ []
named_phrases last_month = text "上月" ∷ text "上个月" ∷ []
named_phrases this_quarter = text "本季度" ∷ text "这个季度" ∷ []
named_phrases last_quarter = text "上季度" ∷ text "上个季度" ∷ []
named_phrases this_year = text "今年" ∷ text "本年" ∷ []
named_phrases last_year = text "去年" ∷ []

unfoldable pub week_start : Date → Date
unfolding subtract_days weekday
week_start today = subtract_days (weekday today) today

abbrev pub month_start : Date → Date
month_start today = record today { day = 1 }

abbrev pub year_start : Date → Date
year_start today = record today { month = 1; day = 1 }

unfoldable pub named_bounds : Named → Date → Bounds
unfolding add_days subtract_days week_start quarter_start add_month subtract_month
named_bounds today_named today = (today, add_days 1 today)
named_bounds yesterday_named today = (subtract_days 1 today, today)
named_bounds before_yesterday today = (subtract_days 2 today, subtract_days 1 today)
named_bounds this_week today = (week_start today, add_days 7 (week_start today))
named_bounds last_week today = (subtract_days 7 (week_start today), week_start today)
named_bounds this_month today = (month_start today, add_month (month_start today))
named_bounds last_month today = (subtract_month (month_start today), month_start today)
named_bounds this_quarter today =
    (quarter_start today, add_month (add_month (add_month (quarter_start today))))
named_bounds last_quarter today =
    (subtract_month (subtract_month (subtract_month (quarter_start today))), quarter_start today)
named_bounds this_year today =
    (year_start today, record (year_start today) { year = today.year + 1 })
named_bounds last_year today =
    (record (year_start today) { year = today.year - 1 }, year_start today)

abbrev pub all_named : List Named
all_named =
    today_named ∷ yesterday_named ∷ before_yesterday ∷ this_week ∷ last_week ∷ this_month
    ∷ last_month ∷ this_quarter ∷ last_quarter ∷ this_year ∷ last_year ∷ []

-- The first name with the phrase.
unfoldable pub name_of : Text → List Named → Option Named
unfolding named_phrases
name_of phrase [] = none
name_of phrase (name ∷ names) =
    if contains (named_phrases name) phrase then some name else name_of phrase names

-- What `resolve_time_expression` raises: its own error, or that of a year that `date` does not have.
pub data TimeError : Type 0 where
  time_expression_error out_of_range : TimeError

-- The groups of the regular expressions that match.
pub record Patterns : Type 0 where
  pub recent_days : Text → Option ℕ
  pub iso_day : Text → Option Date
  pub month_match : Text → Option (ℕ × ℕ)
  pub bare_month : Text → Option ℕ
  pub cn_bare_month : Text → Option Text

abbrev pub cn_month_numbers : List (Text × ℕ)
cn_month_numbers =
    (text "一", 1)
    ∷ (text "二", 2)
    ∷ (text "三", 3)
    ∷ (text "四", 4)
    ∷ (text "五", 5)
    ∷ (text "六", 6)
    ∷ (text "七", 7)
    ∷ (text "八", 8)
    ∷ (text "九", 9)
    ∷ (text "十", 10)
    ∷ (text "十一", 11)
    ∷ (text "十二", 12)
    ∷ []

-- `_safe_date`
unfoldable pub safe_date : Date → Result TimeError Date
unfolding days_in_month
safe_date d = if is_date d then ok d else err time_expression_error

-- The first day of the month, of this year unless that is still to come.
unfoldable pub bare_start : ℕ → Date → Date
bare_start month today =
    let this_start : Date = record { year = today.year; month = month; day = 1 } in
    if is_before today this_start
    then record { year = today.year - 1; month = month; day = 1 }
    else this_start

-- `_bare_month_bounds`
unfoldable pub bare_month_bounds : ℕ → Date → Result TimeError Bounds
unfolding bare_start add_month
bare_month_bounds month today =
    if not (leb 1 month && leb month 12)
    then err time_expression_error
    else ok (bare_start month today, add_month (bare_start month today))

unfoldable pub cn_bounds : Option ℕ → Date → Result TimeError Bounds
unfolding bare_month_bounds
cn_bounds none today = err time_expression_error
cn_bounds (some month) today = bare_month_bounds month today

unfoldable pub recent_bounds : ℕ → Date → Result TimeError Bounds
unfolding add_days subtract_days
recent_bounds days today =
    if ltb days 1
    then err time_expression_error
    else ok (subtract_days days (add_days 1 today), add_days 1 today)

module _ (patterns : Patterns) where
  -- `_resolve_pattern`, one pattern after the other; a phrase that matches none is not in the
  -- vocabulary.
  unfoldable pub cn_pattern : Option Text → Date → Result TimeError Bounds
  unfolding cn_bounds get
  cn_pattern none today = err time_expression_error
  cn_pattern (some word) today = cn_bounds (get word cn_month_numbers) today

  unfoldable pub bare_pattern : Option ℕ → Text → Date → Result TimeError Bounds
  unfolding cn_pattern bare_month_bounds
  bare_pattern none phrase today = cn_pattern (patterns.cn_bare_month phrase) today
  bare_pattern (some month) phrase today = bare_month_bounds month today

  unfoldable pub month_pattern : Option (ℕ × ℕ) → Text → Date → Result TimeError Bounds
  unfolding bare_pattern safe_date add_month
  month_pattern none phrase today = bare_pattern (patterns.bare_month phrase) phrase today
  month_pattern (some (year, month)) phrase today =
      safe_date (record { year = year; month = month; day = 1 }) >>= λ start.
      ok (start, add_month start)

  unfoldable pub day_pattern : Option Date → Text → Date → Result TimeError Bounds
  unfolding month_pattern safe_date add_days
  day_pattern none phrase today = month_pattern (patterns.month_match phrase) phrase today
  day_pattern (some d) phrase today = safe_date d >>= λ day. ok (day, add_days 1 day)

  unfoldable pub recent_pattern : Option ℕ → Text → Date → Result TimeError Bounds
  unfolding day_pattern recent_bounds
  recent_pattern none phrase today = day_pattern (patterns.iso_day phrase) phrase today
  recent_pattern (some days) phrase today = recent_bounds days today

  unfoldable pub phrase_bounds : Option Named → Text → Date → Result TimeError Bounds
  unfolding named_bounds recent_pattern
  phrase_bounds (some name) phrase today = ok (named_bounds name today)
  phrase_bounds none phrase today = recent_pattern (patterns.recent_days phrase) phrase today

  -- Every day has to be one that `date` has; the years are what may be wrong.
  abbrev pub in_range : Bounds → Result TimeError Bounds
  in_range (start, end) =
      if leb 1 start.year && leb end.year 9999 then ok (start, end) else err out_of_range

  -- `resolve_time_expression` as days, before `_to_utc`.
  unfoldable pub resolve_days : Text → Date → Result TimeError Bounds
  unfolding phrase_bounds name_of strip
  resolve_days expression today =
      if is_empty (strip expression)
      then err time_expression_error
      else phrase_bounds (name_of (strip expression) all_named) (strip expression) today
        >>= in_range
