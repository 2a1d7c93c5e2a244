-- ===== src/Calendar/Periods.antt =====
-- src/factory_agent/application/time_expressions.py: the days that a phrase stands for.
use factory_agent.Prelude.{ℕ, ◌≤◌, ◌≡◌, refl, true, nat_eq, list_eq, arith}
use factory_agent.Calendar.{
  weekday, Date, is_before, subtract_days, quarter_start, add_month, subtract_month, Bounds, Named,
  today_named, yesterday_named, before_yesterday, this_week, last_week, this_month, last_month,
  this_quarter, last_quarter, this_year, last_year, week_start, month_start, named_bounds,
}
use factory_agent.Calendar.Steps.{
  add_days-IsDay, subtract_days-IsDay, IsFirst, IsFirst-IsDay, add_month-IsFirst,
  subtract_month-IsFirst,
}
use factory_agent.Calendar.Order.{
  is_before_trans, is_before-previous_day, is_before-add_days, is_before-subtract_days,
  is_before-add_month, is_before-subtract_month, subtract_month_month, subtract_month_year, IsDay,
}

-- The first day comes before the day behind the last one, in the years that there are.
abbrev pub Ordered : Bounds → Type 0
Ordered (start, end) = is_before start end ≡ true

three_months_back :
    (d : Date)
    → 1 ≤ d.month
    → 1 ≤ (subtract_month (subtract_month (subtract_month d))).year
    → is_before (subtract_month (subtract_month (subtract_month d))) d ≡ true
three_months_back d m h =
    let a = subtract_month d in
    let b = subtract_month a in
    let ma = subtract_month_month d m in
    let mb = subtract_month_month a ma in
    let yb = subtract_month_year b h in
    let ya = subtract_month_year a yb in
    is_before_trans (subtract_month b) b d (is_before-subtract_month b mb h)
      (is_before_trans b a d (is_before-subtract_month a ma yb) (is_before-subtract_month d m ya))

pub named_bounds-Ordered :
    (name : Named) (today : Date)
    → 1 ≤ today.month
    → 1 ≤ (named_bounds name today).0.year
    → Ordered (named_bounds name today)
unfolding named_bounds quarter_start
named_bounds-Ordered today_named today m h = is_before-add_days 0 today
named_bounds-Ordered yesterday_named today m h = is_before-subtract_days 0 today h
named_bounds-Ordered before_yesterday today m h = is_before-previous_day (subtract_days 1 today) h
named_bounds-Ordered this_week today m h = is_before-add_days 6 (week_start today)
named_bounds-Ordered last_week today m h = is_before-subtract_days 6 (week_start today) h
named_bounds-Ordered this_month today m h = is_before-add_month (month_start today)
named_bounds-Ordered last_month today m h = is_before-subtract_month (month_start today) m h
named_bounds-Ordered this_quarter today m h =
    let q = quarter_start today in
    is_before_trans q (add_month (add_month q)) (add_month (add_month (add_month q)))
      (is_before_trans q (add_month q) (add_month (add_month q)) (is_before-add_month q)
        (is_before-add_month (add_month q)))
      (is_before-add_month (add_month (add_month q)))
named_bounds-Ordered last_quarter today m h =
    three_months_back (quarter_start today) (omega arith) h
named_bounds-Ordered this_year today m h = ground arith
named_bounds-Ordered last_year today m h = ground (arith, h)

-- A period in order, from a day of the calendar to another.
abbrev pub Sound : Bounds → Type 0
Sound b = Ordered b × IsDay b.0 × IsDay b.1

pub months-Sound : (d : Date) → IsFirst d → Sound (d, add_month d)
months-Sound d h =
    (is_before-add_month d, IsFirst-IsDay d h, IsFirst-IsDay (add_month d) (add_month-IsFirst d h))

quarter_start-IsFirst : (d : Date) → IsDay d → IsFirst (quarter_start d)
unfolding quarter_start
quarter_start-IsFirst d (m1, m12, d1, dn) = (omega arith, omega (arith, m12), refl)

three_on-IsFirst : (d : Date) → IsFirst d → IsFirst (add_month (add_month (add_month d)))
three_on-IsFirst d h = add_month-IsFirst _ (add_month-IsFirst (add_month d) (add_month-IsFirst d h))

three_back-IsFirst :
    (d : Date) → IsFirst d → IsFirst (subtract_month (subtract_month (subtract_month d)))
three_back-IsFirst d h =
    subtract_month-IsFirst _
      (subtract_month-IsFirst (subtract_month d) (subtract_month-IsFirst d h))

month_start-IsFirst : (d : Date) → IsDay d → IsFirst (month_start d)
month_start-IsFirst d (m1, m12, d1, dn) = (m1, m12, refl)

january-IsDay : (year : ℕ) → IsDay (record { year = year; month = 1; day = 1 })
january-IsDay year =
    IsFirst-IsDay (record { year = year; month = 1; day = 1 }) (omega arith, omega arith, refl)

-- Both bounds of a named period are days of the calendar.
pub named_bounds-IsDay :
    (name : Named) (today : Date)
    → IsDay today
    → IsDay (named_bounds name today).0 × IsDay (named_bounds name today).1
unfolding named_bounds week_start
named_bounds-IsDay today_named today h = (h, add_days-IsDay 1 today h)
named_bounds-IsDay yesterday_named today h = (subtract_days-IsDay 1 today h, h)
named_bounds-IsDay before_yesterday today h =
    (subtract_days-IsDay 2 today h, subtract_days-IsDay 1 today h)
named_bounds-IsDay this_week today h =
    let monday = subtract_days-IsDay (weekday today) today h in
    (monday, add_days-IsDay 7 (week_start today) monday)
named_bounds-IsDay last_week today h =
    let monday = subtract_days-IsDay (weekday today) today h in
    (subtract_days-IsDay 7 (week_start today) monday, monday)
named_bounds-IsDay this_month today h =
    let first = month_start-IsFirst today h in
    (IsFirst-IsDay _ first, IsFirst-IsDay _ (add_month-IsFirst (month_start today) first))
named_bounds-IsDay last_month today h =
    let first = month_start-IsFirst today h in
    (IsFirst-IsDay _ (subtract_month-IsFirst (month_start today) first), IsFirst-IsDay _ first)
named_bounds-IsDay this_quarter today h =
    let first = quarter_start-IsFirst today h in
    (IsFirst-IsDay _ first, IsFirst-IsDay _ (three_on-IsFirst (quarter_start today) first))
named_bounds-IsDay last_quarter today h =
    let first = quarter_start-IsFirst today h in
    (IsFirst-IsDay _ (three_back-IsFirst (quarter_start today) first), IsFirst-IsDay _ first)
named_bounds-IsDay this_year today h = (january-IsDay _, january-IsDay _)
named_bounds-IsDay last_year today h = (january-IsDay _, january-IsDay _)
