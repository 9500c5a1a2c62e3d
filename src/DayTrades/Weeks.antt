-- ===== src/DayTrades/Weeks.antt =====
-- The business days between two dates
-- (src/feelies/execution/regulatory/pdt_constraint.py: `_business_days_between`).
use feelies.Kit.{
  ℕ, zero, suc, ◌+◌, ◌-◌, ◌*◌, ◌/◌, ◌%◌, ◌≡◌, refl, sym, ap, ◌∙◌, arith, ltb, leb, if◌then◌else◌,
  Bool-cases, inl, inr,
}
use feelies.DayTrades.{weekday, partial_week, business_days_between}

-- The weekdays among the `n` days after a date, one by one.
abbrev pub weekdays_after : ℕ → ℕ → ℕ
weekdays_after from zero = 0
weekdays_after from (suc n) =
    let rest = weekdays_after from n in if ltb (weekday (from + suc n)) 5 then suc rest else rest

-- A further week has five of them.
week-after : (from n : ℕ) → weekdays_after from (n + 7) ≡ 5 + weekdays_after from n
week-after from n = ground arith

weekday-shift : (m n : ℕ) → (weekday m + n) % 7 ≡ weekday (m + n)
weekday-shift m n = omega arith

partial-after : (from n : ℕ) → partial_week (weekday from) n ≡ weekdays_after from n
partial-after from zero = refl
partial-after from (suc n) = rw (weekday-shift from (suc n), partial-after from n) refl

weeks-after :
    (from n weeks : ℕ) → weekdays_after from (n + weeks * 7) ≡ weeks * 5 + weekdays_after from n
weeks-after from n zero =
    let flat : n + 0 * 7 ≡ n = omega arith in ap (weekdays_after from) flat ∙ omega arith
weeks-after from n (suc weeks) =
    let flat : n + suc weeks * 7 ≡ n + weeks * 7 + 7 = omega arith in
    ap (weekdays_after from) flat
    ∙ week-after from (n + weeks * 7)
    ∙ omega (arith, weeks-after from n weeks)

-- The number of business days between two dates, which is computed from the whole weeks and the
-- rest, counts the days from Monday to Friday after the first date up to the second, one by one.
pub business_days_between-weekdays :
    (from to : ℕ) → business_days_between from to ≡ weekdays_after from (to - from)
unfolding business_days_between
business_days_between-weekdays from to = elim (Bool-cases (leb to from)) [
  | inl none_between ↦
      let empty : to - from ≡ 0 = ground (arith, none_between) in rw (none_between, empty) refl
  | inr later ↦
      let total = to - from in
      let parts : total % 7 + total / 7 * 7 ≡ total = omega arith in
      rw (later, partial-after from (total % 7))
        (sym (weeks-after from (total % 7) (total / 7)) ∙ ap (weekdays_after from) parts)
]
