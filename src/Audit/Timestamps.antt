-- ===== src/Audit/Timestamps.antt =====
-- The timestamps of the audit trail (`format_epoch_iso` and the calendar part of
-- `parse_timestamp_to_epoch_secs` in crates/mesh-core/src/audit.rs). A time is a number of
-- milliseconds since the epoch; the reading of a float is not modelled.
use Prim.Native.Nat.{◌/◌}
use causalmesh.Prelude.{
  ℕ, ◌+◌, ◌-◌, ◌*◌, ◌%◌, ◌≤◌, ◌<◌, ◌&&◌, ◌||◌, Option, none, some, [], ◌∷◌, ◌++◌, ltb, leb, nat_beq,
  if◌then◌else◌, ◌≡◌, ap, ◌∙◌, arith,
}
use causalmesh.Prelude.Text.{Text, text, concat}
use causalmesh.Prelude.Decimal.{digit, decimal}

-- The fields of a date and a time of day.
pub record Civil : Type 0 where
  pub year : ℕ
  pub month : ℕ
  pub day : ℕ
  pub hours : ℕ
  pub minutes : ℕ
  pub seconds : ℕ
  pub millis : ℕ

abbrev secs_per_day : ℕ
secs_per_day = 86400

-- the year of a day in an era of 400 years
unfoldable pub year_of_era : ℕ → ℕ
year_of_era doe = (doe - doe / 1460 + doe / 36524 - doe / 146096) / 365

-- the days of an era before a year
abbrev days_before : ℕ → ℕ
days_before yoe = 365 * yoe + yoe / 4 - yoe / 100

unfoldable pub day_of_year : ℕ → ℕ
day_of_year doe = doe - days_before (year_of_era doe)

-- a month counted from March
unfoldable pub month_part : ℕ → ℕ
month_part doy = (5 * doy + 2) / 153

abbrev month_of : ℕ → ℕ
month_of mp = if ltb mp 10 then mp + 3 else mp - 9

-- The fields of a date by its year counted from March and of a time of day.
abbrev civil_at : ℕ → ℕ → ℕ → ℕ → ℕ → Civil
civil_at y mp doy rem_secs millis =
    let m = month_of mp in
    record {
      year = if leb m 2 then y + 1 else y;
      month = m;
      day = doy - (153 * mp + 2) / 5 + 1;
      hours = rem_secs / 3600;
      minutes = rem_secs % 3600 / 60;
      seconds = rem_secs % 60;
      millis = millis;
    }

-- The conversion of a duration since the epoch.
unfoldable pub civil_of : ℕ → ℕ → Civil
civil_of total_secs millis =
    let z = total_secs / secs_per_day + 719468 in
    let era = z / 146097 in
    let doe = z - era * 146097 in
    let doy = day_of_year doe in
    civil_at (year_of_era doe + era * 400) (month_part doy) doy (total_secs % secs_per_day) millis

abbrev two_digits : ℕ → Text
two_digits n = digit (n / 10) ∷ digit n ∷ []

abbrev three_digits : ℕ → Text
three_digits n = digit (n / 100) ∷ two_digits n

-- `{y:04}`
abbrev four_digits : ℕ → Text
four_digits y = if ltb y 10000 then two_digits (y / 100) ++ two_digits y else decimal y

-- The text of a duration since the epoch.
unfoldable pub format_epoch_iso : ℕ → ℕ → Text
format_epoch_iso total_secs millis =
    let c = civil_of total_secs millis in
    concat (
      four_digits c.year
      ∷ text "-"
      ∷ two_digits c.month
      ∷ text "-"
      ∷ two_digits c.day
      ∷ text "T"
      ∷ two_digits c.hours
      ∷ text ":"
      ∷ two_digits c.minutes
      ∷ text ":"
      ∷ two_digits c.seconds
      ∷ text "."
      ∷ three_digits c.millis
      ∷ text "Z"
      ∷ [])

-- The time of the fields; `none` where a subtraction of the source wraps or the time is negative.
unfoldable pub time_of : Civil → Option ℕ
time_of c =
    let is_early = leb c.month 2 in
    let y = if is_early then c.year - 1 else c.year in
    let era = y / 400 in
    let yoe = y - era * 400 in
    let m_idx = if ltb 2 c.month then c.month - 3 else c.month + 9 in
    let doy = (153 * m_idx + 2) / 5 + c.day - 1 in
    let doe = yoe * 365 + yoe / 4 - yoe / 100 + doy in
    let days = era * 146097 + doe in
    if (is_early && nat_beq c.year 0)
      || (nat_beq ((153 * m_idx + 2) / 5 + c.day) 0 || ltb days 719468)
    then none
    else some (
        ((days - 719468) * secs_per_day + (c.hours * 3600 + c.minutes * 60 + c.seconds)) * 1000
        + c.millis)

year_lt : (doe : ℕ) → doe < 146097 → year_of_era doe < 400
unfolding year_of_era
year_lt doe l = omega arith

days_before-le : (doe : ℕ) → doe < 146097 → days_before (year_of_era doe) ≤ doe
unfolding year_of_era
days_before-le doe l = omega arith

day_of_year-le : (doe : ℕ) → doe < 146097 → day_of_year doe ≤ 365
unfolding day_of_year year_of_era
day_of_year-le doe l = omega arith

days_back : (doe : ℕ) → doe < 146097 → days_before (year_of_era doe) + day_of_year doe ≡ doe
unfolding day_of_year
days_back doe l = omega (arith, days_before-le doe l)

month_part-le :
    (doy : ℕ)
    → doy ≤ 365
    → (month_part doy ≤ 11)
      × ((153 * month_part doy + 2) / 5 ≤ doy)
      × (doy - (153 * month_part doy + 2) / 5 ≤ 30)
unfolding month_part
month_part-le doy l = omega arith

-- The time of the fields at a day of an era.
time_of-civil_at :
    (era yoe mp doy rem_secs millis : ℕ)
    → yoe < 400
    → mp ≤ 11
    → (153 * mp + 2) / 5 ≤ doy
    → 719468 ≤ era * 146097 + (days_before yoe + doy)
    → rem_secs < 86400
    → time_of (civil_at (yoe + era * 400) mp doy rem_secs millis)
      ≡ some
          (((era * 146097 + (days_before yoe + doy) - 719468) * 86400 + rem_secs) * 1000 + millis)
unfolding time_of
time_of-civil_at era yoe mp doy rem_secs millis y m s l r = ground arith

-- The fields of any duration since the epoch are in their ranges, and they give the time back.
pub time_of-civil_of :
    (total_secs millis : ℕ)
    → (time_of (civil_of total_secs millis) ≡ some (total_secs * 1000 + millis))
      × ((civil_of total_secs millis).month ≤ 12)
      × (1 ≤ (civil_of total_secs millis).month)
      × ((civil_of total_secs millis).day ≤ 31)
      × (1 ≤ (civil_of total_secs millis).day)
      × ((civil_of total_secs millis).hours < 24)
      × ((civil_of total_secs millis).minutes < 60)
      × ((civil_of total_secs millis).seconds < 60)
unfolding civil_of
time_of-civil_of total_secs millis =
    let z = total_secs / 86400 + 719468 in
    let era = z / 146097 in
    let doe = z - era * 146097 in
    let in_era : doe < 146097 = omega arith in
    let doy = day_of_year doe in
    let (m, s, d) = month_part-le doy (day_of_year-le doe in_era) in
    let back = days_back doe in_era in
    (
      time_of-civil_at era (year_of_era doe) (month_part doy) doy (total_secs % 86400) millis
            (year_lt doe in_era) m s (omega (arith, back)) (omega arith)
          ∙ ap some (omega (arith, back)),
      ground (arith, m),
      ground (arith, m),
      omega (arith, d),
      omega arith,
      omega arith,
      omega arith,
      omega arith,
    )
