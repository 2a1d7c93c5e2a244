-- ===== src/Calendar/Steps.antt =====
-- src/factory_agent/application/time_expressions.py: going back and forth by days.
use factory_agent.Prelude.{
  ℕ, zero, suc, ◌+◌, ◌-◌, ◌≤◌, ◌≡◌, refl, sym, ap, subst, ◌∙◌, inl, inr, true, false, ltb, nat_beq,
  nat_beq_iff, nat_eq, arith, Bool-cases,
}
use factory_agent.Calendar.{
  add_month, subtract_month, Date, days_in_month, is_before, next_day, previous_day, add_days,
  subtract_days,
}
use factory_agent.Calendar.Order.{is_before_trans, is_before-next_day, previous_day_year, IsDay}

abbrev pub date_of : ℕ → ℕ → ℕ → Date
date_of y m d = record { year = y; month = m; day = d }

date_path : (a b : Date) → a.year ≡ b.year → a.month ≡ b.month → a.day ≡ b.day → a ≡ b
date_path a b y m d =
    ap (λ x. date_of x a.month a.day) y
    ∙ ap (λ x. date_of b.year x a.day) m
    ∙ ap (λ x. date_of b.year b.month x) d

next_inside :
    (d : Date)
    → ltb d.day (days_in_month d.year d.month) ≡ true
    → next_day d ≡ date_of d.year d.month (d.day + 1)
unfolding next_day
next_inside d h = rw h refl

next_month :
    (d : Date)
    → ltb d.day (days_in_month d.year d.month) ≡ false
    → ltb d.month 12 ≡ true
    → next_day d ≡ date_of d.year (d.month + 1) 1
unfolding next_day
next_month d h k = rw (h, k) refl

next_year :
    (d : Date)
    → ltb d.day (days_in_month d.year d.month) ≡ false
    → ltb d.month 12 ≡ false
    → next_day d ≡ date_of (d.year + 1) 1 1
unfolding next_day
next_year d h k = rw (h, k) refl

days_in_month_pos : (year month : ℕ) → 1 ≤ days_in_month year month
unfolding days_in_month
days_in_month_pos year month = ground arith

december_days : (year : ℕ) → days_in_month year 12 ≡ 31
unfolding days_in_month
december_days year = refl

pub irreflexive : (n : ℕ) → ltb n n ≡ false
irreflexive n = ground arith

-- The day before, by its three cases.
pub data Before (d : Date) : Date → Type 0 where
  inside : ltb 1 d.day ≡ true → Before d (date_of d.year d.month (d.day - 1))
  month_end :
      d.day ≤ 1
      → ltb 1 d.month ≡ true
      → Before d (date_of d.year (d.month - 1) (days_in_month d.year (d.month - 1)))
  year_end : d.day ≤ 1 → d.month ≤ 1 → Before d (date_of (d.year - 1) 12 31)

previous_day-Before : (d : Date) → Before d (previous_day d)
unfolding previous_day
previous_day-Before d = elim (Bool-cases (ltb 1 d.day)) [
  | inl here ↦ rw here (inside here)
  | inr first ↦ elim (Bool-cases (ltb 1 d.month)) [
    | inl later ↦ rw (first, later) (month_end (ground (arith, first)) later)
    | inr january ↦ rw (first, january) (year_end (ground (arith, first)) (ground (arith, january)))
  ]
]

Before-IsDay : (d e : Date) → Before d e → IsDay d → IsDay e
Before-IsDay d _ (inside h) (m1, m12, d1, dn) = (m1, m12, ground (arith, h), omega (arith, dn))
Before-IsDay d _ (month_end h k) (m1, m12, d1, dn) =
    (ground (arith, k), omega (arith, m12), days_in_month_pos d.year (d.month - 1), omega arith)
Before-IsDay d _ (year_end h k) (m1, m12, d1, dn) =
    (omega arith, omega arith, omega arith, omega (arith, december_days (d.year - 1)))

-- The next day of the day before a day is that day.
back_and_forth : (d e : Date) → Before d e → IsDay d → 1 ≤ e.year → next_day e ≡ d
back_and_forth d _ (inside h) (m1, m12, d1, dn) y =
    next_inside (date_of d.year d.month (d.day - 1)) (ground (arith, h, dn))
    ∙ date_path (date_of d.year d.month (d.day - 1 + 1)) d refl refl (ground (arith, h))
back_and_forth d _ (month_end h k) (m1, m12, d1, dn) y =
    next_month (date_of d.year (d.month - 1) (days_in_month d.year (d.month - 1)))
      (irreflexive (days_in_month d.year (d.month - 1))) (ground (arith, k, m12))
    ∙ date_path (date_of d.year (d.month - 1 + 1) 1) d refl (ground (arith, k))
        (omega (arith, h, d1))
back_and_forth d _ (year_end h k) (m1, m12, d1, dn) y =
    next_year (date_of (d.year - 1) 12 31) (ap (λ n. ltb 31 n) (december_days (d.year - 1))) refl
    ∙ date_path (date_of (d.year - 1 + 1) 1 1) d (omega (arith, y)) (omega (arith, k, m1))
        (omega (arith, h, d1))

pub next_day-IsDay : (d : Date) → IsDay d → IsDay (next_day d)
unfolding next_day
next_day-IsDay d (m1, m12, d1, dn) = elim (Bool-cases (ltb d.day (days_in_month d.year d.month))) [
  | inl here ↦ rw here (m1, m12, omega arith, ground (arith, here))
  | inr last ↦ elim (Bool-cases (ltb d.month 12)) [
    | inl earlier ↦
        rw (last, earlier)
          (
            omega arith,
            ground (arith, earlier),
            omega arith,
            days_in_month_pos d.year (d.month + 1),
          )
    | inr december ↦
        rw (last, december)
          (omega arith, omega arith, omega arith, days_in_month_pos (d.year + 1) 1)
  ]
]

pub add_days-IsDay : (n : ℕ) (d : Date) → IsDay d → IsDay (add_days n d)
unfolding add_days
add_days-IsDay zero d h = h
add_days-IsDay (suc n) d h = next_day-IsDay (add_days n d) (add_days-IsDay n d h)

pub subtract_days-IsDay : (n : ℕ) (d : Date) → IsDay d → IsDay (subtract_days n d)
unfolding subtract_days
subtract_days-IsDay zero d h = h
subtract_days-IsDay (suc n) d h =
    Before-IsDay (subtract_days n d) _ (previous_day-Before (subtract_days n d))
      (subtract_days-IsDay n d h)

-- The first day of a month.
abbrev pub IsFirst : Date → Type 0
IsFirst d = (1 ≤ d.month) × (d.month ≤ 12) × (d.day ≡ 1)

pub IsFirst-IsDay : (d : Date) → IsFirst d → IsDay d
IsFirst-IsDay d (m1, m12, first) =
    (m1, m12, omega (arith, first), omega (arith, first, days_in_month_pos d.year d.month))

pub add_month-IsFirst : (d : Date) → IsFirst d → IsFirst (add_month d)
unfolding add_month
add_month-IsFirst d (m1, m12, first) = elim (Bool-cases (nat_beq d.month 12)) [
  | inl december ↦ rw december (omega arith, omega arith, first)
  | inr earlier ↦ rw earlier (omega arith, ground (arith, earlier, m12), first)
]

pub subtract_month-IsFirst : (d : Date) → IsFirst d → IsFirst (subtract_month d)
unfolding subtract_month
subtract_month-IsFirst d (m1, m12, first) = elim (Bool-cases (nat_beq d.month 1)) [
  | inl january ↦ rw january (omega arith, omega arith, first)
  | inr later ↦ rw later (ground (arith, later, m1), omega (arith, m12), first)
]

add_days-next_day : (n : ℕ) (d : Date) → add_days n (next_day d) ≡ next_day (add_days n d)
unfolding add_days
add_days-next_day zero d = refl
add_days-next_day (suc n) d = ap next_day (add_days-next_day n d)

-- Going back and forth by the same number of days.
pub add_days-subtract_days :
    (n : ℕ) (d : Date) → IsDay d → 1 ≤ (subtract_days n d).year → add_days n (subtract_days n d) ≡ d
unfolding add_days subtract_days
add_days-subtract_days zero d h y = refl
add_days-subtract_days (suc n) d h y =
    let x = subtract_days n d in
    let year = previous_day_year x y in
    sym (add_days-next_day n (previous_day x))
    ∙ ap (add_days n)
        (back_and_forth x (previous_day x) (previous_day-Before x) (subtract_days-IsDay n d h) y)
    ∙ add_days-subtract_days n d h year

-- Further forth than back.
pub is_before-further :
    (k w : ℕ) (x d : Date) → add_days w x ≡ d → ltb w k ≡ true → is_before d (add_days k x) ≡ true
unfolding add_days
is_before-further zero w x d e h = ground (arith, h)
is_before-further (suc k) w x d e h = elim (Bool-cases (nat_beq w k)) [
  | inl last ↦
      let here : add_days k x ≡ d = ap (λ n. add_days n x) (sym ((nat_beq_iff w k).0 last)) ∙ e in
      subst (λ z. is_before d (next_day z) ≡ true) (sym here) (is_before-next_day d)
  | inr earlier ↦
      is_before_trans d (add_days k x) (next_day (add_days k x))
        (is_before-further k w x d e (ground (arith, h, earlier)))
        (is_before-next_day (add_days k x))
]
