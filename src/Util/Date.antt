-- ===== src/Util/Date.antt =====
-- core/src/util/date.rs and the deadlines of core/src/constants.rs. Timestamps are `u64` seconds.
use e_bill.Prelude.{
  ℕ, ◌+◌, ◌-◌, ◌*◌, ◌<◌, ◌≡◌, ◌↔◌, String, Bool, true, false, Option, none, some, arith, ltb,
  if◌then◌else◌, Result, ok, ◌>>=◌, ok_or, expect,
}
use e_bill.Error.{ValidationError, invalid_date}
use e_bill.Platform.{Platform, NaiveDate}

abbrev pub default_date_format : String
default_date_format = "%Y-%m-%d"

abbrev pub payment_deadline_seconds : ℕ
payment_deadline_seconds = 86400 * 2

abbrev pub accept_deadline_seconds : ℕ
accept_deadline_seconds = 86400 * 2

abbrev pub recourse_deadline_seconds : ℕ
recourse_deadline_seconds = 86400 * 2

unfoldable pub check_if_deadline_has_passed : ℕ → ℕ → ℕ → Bool
check_if_deadline_has_passed timestamp_to_check current_timestamp deadline_seconds =
    if ltb current_timestamp timestamp_to_check
    then false
    else ltb deadline_seconds (current_timestamp - timestamp_to_check)

module _ (P : Platform) where
  open P use {date_from_str, date_of_timestamp, timestamp_of}

  -- `seconds` panics where chrono has no such moment.
  seconds : ℕ → Result ValidationError NaiveDate
  seconds timestamp = expect (date_of_timestamp timestamp)

  unfoldable pub start_of_day_as_timestamp : ℕ → Result ValidationError ℕ
  unfolding seconds
  start_of_day_as_timestamp timestamp = do date ← seconds timestamp; ok (timestamp_of date 0)

  -- 23:59:59; the microseconds are lost in the timestamp.
  unfoldable pub end_of_day_as_timestamp : ℕ → Result ValidationError ℕ
  unfolding seconds
  end_of_day_as_timestamp timestamp = do
    date ← seconds timestamp
    ok (timestamp_of date (23 * 3600 + 59 * 60 + 59))

  unfoldable pub date_string_to_timestamp : String → Option String → Result ValidationError ℕ
  date_string_to_timestamp date_str format_str = do
    date ←
        ok_or (date_from_str date_str (elim format_str [ none ↦ default_date_format | some f ↦ f ]))
          invalid_date
    ok (timestamp_of date 0)

-- A deadline has passed exactly when the moment lies more than the deadline's seconds back.
pub check_if_deadline_has_passed_iff :
    (t now d : ℕ) → (check_if_deadline_has_passed t now d ≡ true) ↔ (t + d < now)
unfolding check_if_deadline_has_passed
check_if_deadline_has_passed_iff t now d = (λ h. ground arith, λ h. ground arith)
