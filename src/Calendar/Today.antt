-- ===== src/Calendar/Today.antt =====
-- src/factory_agent/application/time_expressions.py: where the named periods lie, seen from today.
use factory_agent.Prelude.{
  ℕ, zero, suc, ◌+◌, ◌-◌, ◌*◌, ◌/◌, ◌≤◌, ◌≡◌, refl, sym, ap, subst, ◌∙◌, inl, inr, true, false, ltb,
  nat_beq, nat_eq, arith, Bool-cases,
}
use factory_agent.Calendar.{
  Date, is_date, is_before, add_days, subtract_days, weekday, quarter_start, add_month, Bounds,
  Named, today_named, yesterday_named, before_yesterday, this_week, last_week, this_month,
  last_month, this_quarter, last_quarter, this_year, last_year, week_start, month_start,
  named_bounds,
}
use factory_agent.Calendar.Steps.{date_of, is_before-further, add_days-subtract_days}
use factory_agent.Calendar.Order.{is_before-add_days, is_before-subtract_days, IsDay, is_date-IsDay}

-- today is a day of the period.
abbrev pub Contains : Date → Bounds → Type 0
Contains today (start, end) = (is_before today start ≡ false) × (is_before today end ≡ true)

-- Where the period of a name lies: around today, or directly before the period that it precedes.
abbrev pub Lies : Named → Date → Bounds → Type 0
Lies today_named today b = Contains today b
Lies this_week today b = Contains today b
Lies this_month today b = Contains today b
Lies this_quarter today b = Contains today b
Lies this_year today b = Contains today b
Lies yesterday_named today b = b.1 ≡ (named_bounds today_named today).0
Lies before_yesterday today b = b.1 ≡ (named_bounds yesterday_named today).0
Lies last_week today b = b.1 ≡ (named_bounds this_week today).0
Lies last_month today b = b.1 ≡ (named_bounds this_month today).0
Lies last_quarter today b = b.1 ≡ (named_bounds this_quarter today).0
Lies last_year today b = b.1 ≡ (named_bounds this_year today).0

asymmetric : (a b : Date) → is_before a b ≡ true → is_before b a ≡ false
asymmetric a b h = ground (arith, h)

not_after-subtract_days :
    (n : ℕ) (d : Date) → 1 ≤ (subtract_days n d).year → is_before d (subtract_days n d) ≡ false
unfolding subtract_days
not_after-subtract_days zero d y = ground arith
not_after-subtract_days (suc n) d y =
    asymmetric (subtract_days (suc n) d) d (is_before-subtract_days n d y)

weekday_bound : (d : Date) → ltb (weekday d) 7 ≡ true
unfolding weekday
weekday_bound d = ground arith

week-Contains :
    (today : Date)
    → IsDay today
    → 1 ≤ (week_start today).year
    → Contains today (week_start today, add_days 7 (week_start today))
unfolding week_start
week-Contains today h y = (
  not_after-subtract_days (weekday today) today y,
  is_before-further 7 (weekday today) (week_start today) today
      (add_days-subtract_days (weekday today) today h y) (weekday_bound today),
)

month-Contains :
    (today : Date) → IsDay today → Contains today (month_start today, add_month (month_start today))
unfolding add_month
month-Contains today (m1, m12, d1, dn) = (
  ground (arith, d1),
  elim (Bool-cases (nat_beq today.month 12)) [
    | inl december ↦ rw december (ground arith)
    | inr earlier ↦ rw earlier (ground arith)
  ],
)

add_month_inside :
    (d : Date) → nat_beq d.month 12 ≡ false → add_month d ≡ date_of d.year (d.month + 1) d.day
unfolding add_month
add_month_inside d h = rw h refl

three_months :
    (d : Date)
    → d.month ≤ 9
    → add_month (add_month (add_month d)) ≡ date_of d.year (d.month + 1 + 1 + 1) d.day
three_months d h =
    ap (λ x. add_month (add_month x)) (add_month_inside d (ground (arith, h)))
    ∙ ap add_month (add_month_inside (date_of d.year (d.month + 1) d.day) (ground (arith, h)))
    ∙ add_month_inside (date_of d.year (d.month + 1 + 1) d.day) (ground (arith, h))

quarter-Contains :
    (today : Date)
    → IsDay today
    → Contains today (quarter_start today, add_month (add_month (add_month (quarter_start today))))
unfolding quarter_start add_month
quarter-Contains today (m1, m12, d1, dn) = (
  ground (arith, d1, m1),
  elim (Bool-cases (ltb today.month 10)) [
    | inl early ↦
        subst (λ x. is_before today x ≡ true)
          (sym (three_months (quarter_start today) (ground (arith, early))))
          (ground (arith, early, m1))
    | inr late ↦
        let october : (today.month - 1) / 3 * 3 + 1 ≡ 10 = ground (arith, late, m12) in
        subst
          (λ n. is_before today (add_month (add_month (add_month (date_of today.year n 1)))) ≡ true)
          (sym october) (ground arith)
  ],
)

-- On any day of the calendar, when the year of the first day is one that there is: today, this week,
-- this month, this quarter and this year contain the day; yesterday, the day before yesterday, the
-- last week, month, quarter and year end where the period that follows them begins.
pub named_bounds-Lies :
    (name : Named) (today : Date)
    → is_date today ≡ true
    → 1 ≤ (named_bounds name today).0.year
    → Lies name today (named_bounds name today)
unfolding named_bounds
named_bounds-Lies today_named today h y = (ground arith, is_before-add_days 0 today)
named_bounds-Lies this_week today h y = week-Contains today (is_date-IsDay today h).1 y
named_bounds-Lies this_month today h y = month-Contains today (is_date-IsDay today h).1
named_bounds-Lies this_quarter today h y = quarter-Contains today (is_date-IsDay today h).1
named_bounds-Lies this_year today h y =
    let (year, (m1, m12, d1, dn)) = is_date-IsDay today h in (ground (arith, m1, d1), ground arith)
named_bounds-Lies yesterday_named today h y = refl
named_bounds-Lies before_yesterday today h y = refl
named_bounds-Lies last_week today h y = refl
named_bounds-Lies last_month today h y = refl
named_bounds-Lies last_quarter today h y = refl
named_bounds-Lies last_year today h y = refl
