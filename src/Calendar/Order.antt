-- ===== src/Calendar/Order.antt =====
-- src/factory_agent/application/time_expressions.py: the order of the days, and the steps by days and
-- months.
use factory_agent.Prelude.{
  ℕ, zero, suc, ◌-◌, ◌≤◌, ◌≡◌, inl, inr, true, ltb, nat_beq, arith, Bool-cases,
}
use factory_agent.Calendar.{
  Date, days_in_month, is_date, is_before, next_day, previous_day, add_days, subtract_days,
  add_month, subtract_month,
}

pub is_before_trans :
    (a b c : Date) → is_before a b ≡ true → is_before b c ≡ true → is_before a c ≡ true
is_before_trans a b c h k = ground (arith, h, k)

pub is_before-next_day : (d : Date) → is_before d (next_day d) ≡ true
unfolding next_day
is_before-next_day d = elim (Bool-cases (ltb d.day (days_in_month d.year d.month))) [
  | inl inside ↦ rw inside (ground arith)
  | inr last ↦ elim (Bool-cases (ltb d.month 12)) [
    | inl earlier ↦ rw (last, earlier) (ground arith)
    | inr december ↦ rw (last, december) (ground arith)
  ]
]

pub is_before-previous_day :
    (d : Date) → (1 ≤ (previous_day d).year) → is_before (previous_day d) d ≡ true
unfolding previous_day
is_before-previous_day d h = elim (Bool-cases (ltb 1 d.day)) [
  | inl inside ↦ rw inside (ground (arith, inside))
  | inr first ↦ elim (Bool-cases (ltb 1 d.month)) [
    | inl later ↦ rw (first, later) (ground (arith, later))
    | inr january ↦
        let k : 1 ≤ d.year - 1 = rw (first, january) at h in rw (first, january) (ground (arith, k))
  ]
]

pub previous_day_year : (d : Date) → (1 ≤ (previous_day d).year) → 1 ≤ d.year
unfolding previous_day
previous_day_year d h = elim (Bool-cases (ltb 1 d.day)) [
  | inl inside ↦ rw inside at h
  | inr first ↦ elim (Bool-cases (ltb 1 d.month)) [
    | inl later ↦ rw (first, later) at h
    | inr january ↦ let k : 1 ≤ d.year - 1 = rw (first, january) at h in omega (arith, k)
  ]
]

pub is_before-add_days : (n : ℕ) (d : Date) → is_before d (add_days (suc n) d) ≡ true
unfolding add_days
is_before-add_days zero d = is_before-next_day d
is_before-add_days (suc n) d =
    is_before_trans d (add_days (suc n) d) (next_day (add_days (suc n) d)) (is_before-add_days n d)
      (is_before-next_day (add_days (suc n) d))

pub is_before-subtract_days :
    (n : ℕ) (d : Date)
    → (1 ≤ (subtract_days (suc n) d).year)
    → is_before (subtract_days (suc n) d) d ≡ true
unfolding subtract_days
is_before-subtract_days zero d h = is_before-previous_day d h
is_before-subtract_days (suc n) d h =
    is_before_trans (previous_day (subtract_days (suc n) d)) (subtract_days (suc n) d) d
      (is_before-previous_day (subtract_days (suc n) d) h)
      (is_before-subtract_days n d (previous_day_year (subtract_days (suc n) d) h))

pub is_before-add_month : (d : Date) → is_before d (add_month d) ≡ true
unfolding add_month
is_before-add_month d = elim (Bool-cases (nat_beq d.month 12)) [
  | inl december ↦ rw december (ground arith)
  | inr earlier ↦ rw earlier (ground arith)
]

pub subtract_month_month : (d : Date) → 1 ≤ d.month → 1 ≤ (subtract_month d).month
unfolding subtract_month
subtract_month_month d m = elim (Bool-cases (nat_beq d.month 1)) [
  | inl january ↦ rw january (omega arith)
  | inr later ↦ rw later (ground (arith, m, later))
]

pub subtract_month_year : (d : Date) → 1 ≤ (subtract_month d).year → 1 ≤ d.year
unfolding subtract_month
subtract_month_year d h = elim (Bool-cases (nat_beq d.month 1)) [
  | inl january ↦ let k : 1 ≤ d.year - 1 = rw january at h in omega (arith, k)
  | inr later ↦ rw later at h
]

-- A month back, in the years that there are.
pub is_before-subtract_month :
    (d : Date) → 1 ≤ d.month → 1 ≤ (subtract_month d).year → is_before (subtract_month d) d ≡ true
unfolding subtract_month
is_before-subtract_month d m h = elim (Bool-cases (nat_beq d.month 1)) [
  | inl january ↦ let k : 1 ≤ d.year - 1 = rw january at h in rw january (ground (arith, k))
  | inr later ↦ rw later (ground (arith, m, later))
]

-- What a date has besides the bounds of its year.
abbrev pub IsDay : Date → Type 0
IsDay d = (1 ≤ d.month) × (d.month ≤ 12) × (1 ≤ d.day) × (d.day ≤ days_in_month d.year d.month)

pub is_date-IsDay : (d : Date) → is_date d ≡ true → (1 ≤ d.year) × IsDay d
is_date-IsDay d h = (
  ground (arith, h),
  (ground (arith, h), ground (arith, h), ground (arith, h), ground (arith, h)),
)
