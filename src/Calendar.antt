-- ===== src/Calendar.antt =====
-- Python's `datetime.date`, as the billing code uses it: comparison, and the first of a month.
use document_generation_anek.Prelude.{
  ℕ, ◌+◌, ◌*◌, ◌≤◌, ◌<◌, ◌≡◌, Bool, true, false, arith, ltb, leb, ◌==◌, if◌then◌else◌,
}

pub record Date : Type 0 where
  pub year : ℕ
  pub month : ℕ
  pub day : ℕ

-- `a <= b` on dates
abbrev pub date_le : Date → Date → Bool
date_le a b =
    if ltb a.year b.year
    then true
    else if a.year == b.year
    then (if ltb a.month b.month
        then true
        else if a.month == b.month
        then leb a.day b.day
        else false)
    else false

-- `a == b` on dates
abbrev pub date_eq : Date → Date → Bool
date_eq a b =
    if a.year == b.year then (if a.month == b.month then a.day == b.day else false) else false

-- A date that `date(...)` accepts, as far as months and days go.
abbrev pub IsDate : Date → Type 0
IsDate d = (1 ≤ d.month) × (d.month ≤ 12) × (1 ≤ d.day) × (d.day ≤ 31)

-- the months since the year 0: what each renewal raises by one
abbrev pub month_index : Date → ℕ
month_index d = d.year * 12 + d.month

-- BillingService._next_period_end
unfoldable pub next_period_end : Date → Date
next_period_end d =
    if d.month == 12
    then record { year = d.year + 1; month = 1; day = 1 }
    else record { year = d.year; month = d.month + 1; day = 1 }

-- BillingService._current_period_bounds, at the date `now`
unfoldable pub current_period_bounds : Date → Date × Date
unfolding next_period_end
current_period_bounds now =
    let start : Date = record { year = now.year; month = now.month; day = 1 } in
    (start, next_period_end start)

pub next_period_end-IsDate : (d : Date) → IsDate d → IsDate (next_period_end d)
unfolding next_period_end
next_period_end-IsDate d h = ground arith

pub month_index-next_period_end :
    (d : Date) → IsDate d → month_index (next_period_end d) ≡ month_index d + 1
unfolding next_period_end
month_index-next_period_end d h = ground arith

pub date_le-next_period_end : (d : Date) → IsDate d → date_le (next_period_end d) d ≡ false
unfolding next_period_end
date_le-next_period_end d h = ground arith

pub date_eq→eq : (a b : Date) → date_eq a b ≡ true → a ≡ b
date_eq→eq a b h = ground arith

pub date_eq_self : (a : Date) → date_eq a a ≡ true
date_eq_self a = ground arith

-- an earlier or equal date has an earlier or equal month
pub month_index-of_le :
    (a b : Date) → IsDate a → IsDate b → date_le a b ≡ true → month_index a ≤ month_index b
month_index-of_le a b ha hb h = ground arith

-- A date in a later month is not earlier.
pub date_le-of_month :
    (a b : Date) → IsDate a → IsDate b → month_index b < month_index a → date_le a b ≡ false
date_le-of_month a b ha hb h = ground arith

pub date_le_trans : (a b c : Date) → date_le a b ≡ true → date_le b c ≡ true → date_le a c ≡ true
date_le_trans a b c h k = ground arith
