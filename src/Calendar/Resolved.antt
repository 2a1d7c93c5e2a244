-- ===== src/Calendar/Resolved.antt =====
-- src/factory_agent/application/time_expressions.py: what any phrase resolves to.
use factory_agent.Prelude.{
  ℕ, zero, suc, ◌≤◌, ◌≡◌, refl, sym, subst, inl, inr, true, false, not, ◌&&◌, Option, none, some,
  leb, ltb, is_empty, get, nat_eq, list_eq, Text, strip, Result, ok, err, ok-injective, >>=-eq-ok,
  ◌>>=◌, arith, Bool-cases,
}
use factory_agent.Calendar.{
  Date, is_date, is_before, add_days, subtract_days, add_month, Bounds, Named, named_bounds,
  name_of, all_named, TimeError, time_expression_error, out_of_range, Patterns, safe_date,
  cn_month_numbers, bare_start, bare_month_bounds, cn_bounds, recent_bounds, cn_pattern,
  bare_pattern, month_pattern, day_pattern, recent_pattern, phrase_bounds, in_range, resolve_days,
}
use factory_agent.Calendar.Steps.{add_days-IsDay, subtract_days-IsDay, IsFirst}
use factory_agent.Calendar.Order.{is_before-add_days, is_before-subtract_days, IsDay, is_date-IsDay}
use factory_agent.Calendar.Periods.{Sound, months-Sound, named_bounds-Ordered, named_bounds-IsDay}

-- A result is in order, when there is one and its first year is one that there is.
abbrev InOrder : Result TimeError Bounds → Type 0
InOrder r = (b : Bounds) → r ≡ ok b → 1 ≤ b.0.year → Sound b

in_order : (b : Bounds) → (1 ≤ b.0.year → Sound b) → InOrder (ok b)
in_order b h c e y =
    let same : b ≡ c = ok-injective e in
    subst Sound same (h (subst (λ x. 1 ≤ x.0.year) (sym same) y))

bare_start-IsFirst :
    (month : ℕ) (today : Date)
    → not (leb 1 month && leb month 12) ≡ false
    → IsFirst (bare_start month today)
unfolding bare_start
bare_start-IsFirst month today h =
    elim (Bool-cases (is_before today (record { year = today.year; month = month; day = 1 }))) [
      | inl still ↦ rw still (ground (arith, h), ground (arith, h), refl)
      | inr now ↦ rw now (ground (arith, h), ground (arith, h), refl)
    ]

bare_month_bounds-InOrder : (month : ℕ) (today : Date) → InOrder (bare_month_bounds month today)
unfolding bare_month_bounds
bare_month_bounds-InOrder month today = elim (Bool-cases (not (leb 1 month && leb month 12))) [
  | inl wrong ↦ rw wrong (λ b e. cc)
  | inr right ↦ rw right (
      in_order (bare_start month today, add_month (bare_start month today))
        (λ y. months-Sound (bare_start month today) (bare_start-IsFirst month today right)))
]

cn_bounds-InOrder : (o : Option ℕ) (today : Date) → InOrder (cn_bounds o today)
unfolding cn_bounds
cn_bounds-InOrder none today = λ b e. cc
cn_bounds-InOrder (some month) today = bare_month_bounds-InOrder month today

recent_bounds-InOrder : (days : ℕ) (today : Date) → IsDay today → InOrder (recent_bounds days today)
unfolding recent_bounds
recent_bounds-InOrder zero today h = λ b e. cc
recent_bounds-InOrder (suc n) today h =
    let positive : ltb (suc n) 1 ≡ false = ground arith in
    let tomorrow = add_days-IsDay 1 today h in
    rw positive (
      in_order (subtract_days (suc n) (add_days 1 today), add_days 1 today)
        (λ y. (
          is_before-subtract_days n (add_days 1 today) y,
          subtract_days-IsDay (suc n) (add_days 1 today) tomorrow,
          tomorrow,
        )))

module _ (patterns : Patterns) where
  safe_date-InOrder :
      (d : Date) (f : Date → Date)
      → (IsDay d → Sound (d, f d))
      → InOrder (safe_date d >>= λ x. ok (x, f x))
  unfolding safe_date
  safe_date-InOrder d f h = elim (Bool-cases (is_date d)) [
    | inl real ↦ rw real (in_order (d, f d) (λ y. h (is_date-IsDay d real).1))
    | inr wrong ↦ rw wrong (λ b e. cc)
  ]

  cn_pattern-InOrder : (o : Option Text) (today : Date) → InOrder (cn_pattern patterns o today)
  unfolding cn_pattern
  cn_pattern-InOrder none today = λ b e. cc
  cn_pattern-InOrder (some word) today = cn_bounds-InOrder (get word cn_month_numbers) today

  bare_pattern-InOrder :
      (o : Option ℕ) (phrase : Text) (today : Date) → InOrder (bare_pattern patterns o phrase today)
  unfolding bare_pattern
  bare_pattern-InOrder none phrase today = cn_pattern-InOrder (patterns.cn_bare_month phrase) today
  bare_pattern-InOrder (some month) phrase today = bare_month_bounds-InOrder month today

  month_pattern-InOrder :
      (o : Option (ℕ × ℕ)) (phrase : Text) (today : Date)
      → InOrder (month_pattern patterns o phrase today)
  unfolding month_pattern
  month_pattern-InOrder none phrase today =
      bare_pattern-InOrder (patterns.bare_month phrase) phrase today
  month_pattern-InOrder (some (year, month)) phrase today =
      safe_date-InOrder (record { year = year; month = month; day = 1 }) add_month
        (λ h. months-Sound (record { year = year; month = month; day = 1 }) (h.0, h.1, refl))

  day_pattern-InOrder :
      (o : Option Date) (phrase : Text) (today : Date)
      → InOrder (day_pattern patterns o phrase today)
  unfolding day_pattern
  day_pattern-InOrder none phrase today =
      month_pattern-InOrder (patterns.month_match phrase) phrase today
  day_pattern-InOrder (some d) phrase today =
      safe_date-InOrder d (add_days 1) (λ h. (is_before-add_days 0 d, h, add_days-IsDay 1 d h))

  recent_pattern-InOrder :
      (o : Option ℕ) (phrase : Text) (today : Date)
      → IsDay today
      → InOrder (recent_pattern patterns o phrase today)
  unfolding recent_pattern
  recent_pattern-InOrder none phrase today h =
      day_pattern-InOrder (patterns.iso_day phrase) phrase today
  recent_pattern-InOrder (some days) phrase today h = recent_bounds-InOrder days today h

  phrase_bounds-InOrder :
      (o : Option Named) (phrase : Text) (today : Date)
      → IsDay today
      → InOrder (phrase_bounds patterns o phrase today)
  unfolding phrase_bounds
  phrase_bounds-InOrder none phrase today h =
      recent_pattern-InOrder (patterns.recent_days phrase) phrase today h
  phrase_bounds-InOrder (some name) phrase today h = in_order (named_bounds name today) (λ y.
      let (starts, ends) = named_bounds-IsDay name today h in
      (named_bounds-Ordered name today h.0 y, starts, ends))

  in_range-eq-ok :
      (b c : Bounds) → in_range patterns b ≡ ok c → (b ≡ c) × (1 ≤ b.0.year) × (b.1.year ≤ 9999)
  in_range-eq-ok (start, end) c h = elim (Bool-cases (leb 1 start.year && leb end.year 9999)) [
    | inl inside ↦
        let found : ◌≡◌ {A = Result TimeError Bounds} (ok (start, end)) (ok c) = rw inside at h in
        (ok-injective found, ground (arith, inside), ground (arith, inside))
    | inr outside ↦
        let found : ◌≡◌ {A = Result TimeError Bounds} (err out_of_range) (ok c) = rw outside at h in
        cc
  ]

-- The days that a phrase resolves to, on any day of the calendar, are a period that is not empty: its
-- first day comes before the day behind its last one, and both are days that `date` has.
pub resolve_days-Sound :
    (patterns : Patterns) (expression : Text) (today : Date) (b : Bounds)
    → is_date today ≡ true
    → resolve_days patterns expression today ≡ ok b
    → Sound b × (1 ≤ b.0.year) × (b.1.year ≤ 9999)
unfolding resolve_days
resolve_days-Sound patterns expression today b valid h =
    elim (Bool-cases (is_empty (strip expression))) [
      | inl blank ↦
          let found : ◌≡◌ {A = Result TimeError Bounds} (err time_expression_error) (ok b) =
            rw blank at h in
          cc
      | inr given ↦
          let phrase = strip expression in
          let name = name_of phrase all_named in
          let found : (phrase_bounds patterns name phrase today >>= in_range patterns) ≡ ok b =
            rw given at h in
          let (c, resolved, inside) =
            >>=-eq-ok (phrase_bounds patterns name phrase today) (in_range patterns) found in
          let (same, first, last) = in_range-eq-ok patterns c b inside in
          let (year, days) = is_date-IsDay today valid in
          let order = phrase_bounds-InOrder patterns name phrase today days c resolved first in
          (
            subst Sound same order,
            subst (λ x. 1 ≤ x.0.year) same first,
            subst (λ x. x.1.year ≤ 9999) same last,
          )
    ]
