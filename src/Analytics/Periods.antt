-- ===== src/Analytics/Periods.antt =====
-- app/analytics/periods.py: the periods, and their ranges of time.
use vyapar_ai.Prelude.{
  ℕ, ◌+◌, String, Bool, true, ◌&&◌, Option, none, some, leb, ltb, ◌==◌, if◌then◌else◌,
}

pub data Period : Type 0 where
  today month all_time : Period

-- `.value` of a member
abbrev pub period_value : Period → String
period_value today = "today"
period_value month = "month"
period_value all_time = "all"

-- `created_at >= start`, `created_at < end`, where there is a bound
abbrev from_start : Option ℕ → ℕ → Bool
from_start none time = true
from_start (some start) time = leb start time

abbrev before_end : Option ℕ → ℕ → Bool
before_end none time = true
before_end (some end) time = ltb time end

abbrev pub in_range : Option ℕ × Option ℕ → ℕ → Bool
in_range range time = from_start range.0 time && before_end range.1 time

-- A date on the wall in the time zone of the business, and what datetime and zoneinfo compute of it:
-- the date at an instant, the day after a date, and the instant at which a date begins.
pub record LocalDate : Type 0 where
  pub year : ℕ
  pub month : ℕ
  pub day : ℕ

pub record Zone : Type 0 where
  pub date_at : ℕ → LocalDate
  pub next_day : LocalDate → LocalDate
  pub midnight : LocalDate → ℕ

-- The first day of the month, and of the next.
abbrev month_start : LocalDate → LocalDate
month_start d = record d { day = 1 }

abbrev next_month : LocalDate → LocalDate
next_month d =
    if d.month == 12
    then record d { year = d.year + 1; month = 1 }
    else record d { month = d.month + 1 }

unfoldable pub resolve_period : Zone → Period → ℕ → Option ℕ × Option ℕ
resolve_period zone all_time now = (none, none)
resolve_period zone today now =
    let current = zone.date_at now in
    (some (zone.midnight current), some (zone.midnight (zone.next_day current)))
resolve_period zone month now =
    let start = month_start (zone.date_at now) in
    (some (zone.midnight start), some (zone.midnight (next_month start)))
