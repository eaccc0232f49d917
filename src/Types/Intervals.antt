-- ===== src/Types/Intervals.antt =====
-- Modifiers of intervals, as the server packs them, and what the driver reads of them.
use Prim.Native.String.{String}
use open_gauss_connector_odb.Base.{
  ℕ, ◌+◌, ◌*◌, ◌^◌, ◌%◌, ◌<◌, ◌≡◌, ◌∙◌, refl, Bool, true, false, leb, ◌||◌, ◌==◌, if◌then◌else◌,
  arith,
}
use open_gauss_connector_odb.Base.Int.{ℤ, pos, negsuc, eqb_ℤ, to_i16}
use open_gauss_connector_odb.Types.Odbc.{
  sql_interval_year, sql_interval_month, sql_interval_day, sql_interval_hour, sql_interval_minute,
  sql_interval_second, sql_interval_year_to_month, sql_interval_day_to_hour,
  sql_interval_day_to_minute, sql_interval_day_to_second, sql_interval_hour_to_minute,
  sql_interval_hour_to_second, sql_interval_minute_to_second,
}
use open_gauss_connector_odb.Types.Sizes.{
  has_bit, get_interval_type, low_16, get_interval_decimal_digits, year_bit, month_bit, day_bit,
  hour_bit, minute_bit, second_bit,
}

-- The fields that an interval is restricted to.
pub data Range : Type 0 where
  year month day hour minute second year_to_month day_to_hour day_to_minute day_to_second : Range
  hour_to_minute hour_to_second minute_to_second : Range

-- The fields, as the server marks them: a bit each, in a mask above the lower 16 bits of a modifier.
abbrev pub range_mask : Range → ℕ
range_mask year = 2 ^ 2
range_mask month = 2 ^ 1
range_mask day = 2 ^ 3
range_mask hour = 2 ^ 10
range_mask minute = 2 ^ 11
range_mask second = 2 ^ 12
range_mask year_to_month = 2 ^ 2 + 2 ^ 1
range_mask day_to_hour = 2 ^ 3 + 2 ^ 10
range_mask day_to_minute = 2 ^ 3 + 2 ^ 10 + 2 ^ 11
range_mask day_to_second = 2 ^ 3 + 2 ^ 10 + 2 ^ 11 + 2 ^ 12
range_mask hour_to_minute = 2 ^ 10 + 2 ^ 11
range_mask hour_to_second = 2 ^ 10 + 2 ^ 11 + 2 ^ 12
range_mask minute_to_second = 2 ^ 11 + 2 ^ 12

-- The type of ODBC for the fields, and their name.
abbrev pub range_type : Range → ℤ × String
range_type year = (sql_interval_year, "interval year")
range_type month = (sql_interval_month, "interval month")
range_type day = (sql_interval_day, "interval day")
range_type hour = (sql_interval_hour, "interval hour")
range_type minute = (sql_interval_minute, "interval minute")
range_type second = (sql_interval_second, "interval second")
range_type year_to_month = (sql_interval_year_to_month, "interval year to month")
range_type day_to_hour = (sql_interval_day_to_hour, "interval day to hour")
range_type day_to_minute = (sql_interval_day_to_minute, "interval day to minute")
range_type day_to_second = (sql_interval_day_to_second, "interval day to second")
range_type hour_to_minute = (sql_interval_hour_to_minute, "interval hour to minute")
range_type hour_to_second = (sql_interval_hour_to_second, "interval hour to second")
range_type minute_to_second = (sql_interval_minute_to_second, "interval minute to second")

abbrev pub has_seconds : Range → Bool
has_seconds second = true
has_seconds day_to_second = true
has_seconds hour_to_second = true
has_seconds minute_to_second = true
has_seconds _ = false

-- A modifier with the fields and the digits of the seconds, at most 6, or 0xffff for no such restriction.
abbrev pub interval_typmod : Range → ℕ → ℤ
interval_typmod r precision = pos (range_mask r * 2 ^ 16 + precision)

no_minus_1 : (n : ℕ) → eqb_ℤ (pos n) (negsuc 0) ≡ false
no_minus_1 n = ground arith

-- The bits of a mask do not depend on what is below it.
module _ (m p : ℕ) (h : p < 2 ^ 16) where
  has_bit-year : has_bit year_bit (pos (m * 2 ^ 16 + p)) ≡ has_bit year_bit (pos (m * 2 ^ 16))
  unfolding has_bit
  has_bit-year = ground arith

  has_bit-month : has_bit month_bit (pos (m * 2 ^ 16 + p)) ≡ has_bit month_bit (pos (m * 2 ^ 16))
  unfolding has_bit
  has_bit-month = ground arith

  has_bit-day : has_bit day_bit (pos (m * 2 ^ 16 + p)) ≡ has_bit day_bit (pos (m * 2 ^ 16))
  unfolding has_bit
  has_bit-day = ground arith

  has_bit-hour : has_bit hour_bit (pos (m * 2 ^ 16 + p)) ≡ has_bit hour_bit (pos (m * 2 ^ 16))
  unfolding has_bit
  has_bit-hour = ground arith

  has_bit-minute : has_bit minute_bit (pos (m * 2 ^ 16 + p)) ≡ has_bit minute_bit (pos (m * 2 ^ 16))
  unfolding has_bit
  has_bit-minute = ground arith

  has_bit-second : has_bit second_bit (pos (m * 2 ^ 16 + p)) ≡ has_bit second_bit (pos (m * 2 ^ 16))
  unfolding has_bit
  has_bit-second = ground arith

  get_interval_type-mask :
      get_interval_type (pos (m * 2 ^ 16 + p)) ≡ get_interval_type (pos (m * 2 ^ 16))
  unfolding get_interval_type
  get_interval_type-mask =
      rw
        (
          no_minus_1 (m * 2 ^ 16 + p),
          no_minus_1 (m * 2 ^ 16),
          has_bit-year,
          has_bit-month,
          has_bit-day,
          has_bit-hour,
          has_bit-minute,
          has_bit-second,
        )
        refl

  get_interval_decimal_digits-mask : get_interval_decimal_digits (pos (m * 2 ^ 16 + p)) ≡ (
      if has_bit second_bit (pos (m * 2 ^ 16))
      then if p == 0xffff then pos 6 else to_i16 (pos p)
      else pos 0)
  unfolding get_interval_decimal_digits low_16
  get_interval_decimal_digits-mask =
      let low : (m * 2 ^ 16 + p) % 2 ^ 16 ≡ p = omega (arith, h) in
      rw (has_bit-second, low) (ground arith)

interval_digits : ℕ → ℤ
interval_digits p = if p == 0xffff then pos 6 else to_i16 (pos p)

interval_digits-limited :
    (p : ℕ)
    → (leb p 6 || p == 0xffff) ≡ true
    → interval_digits p ≡ (if leb p 6 then pos p else pos 6)
unfolding interval_digits to_i16
interval_digits-limited p h = ground arith

get_interval_type-range_mask :
    (r : Range) → get_interval_type (pos (range_mask r * 2 ^ 16)) ≡ range_type r
unfolding get_interval_type has_bit
get_interval_type-range_mask year = refl
get_interval_type-range_mask _ = refl

has_bit-range_mask : (r : Range) → has_bit second_bit (pos (range_mask r * 2 ^ 16)) ≡ has_seconds r
unfolding has_bit
has_bit-range_mask year = refl
has_bit-range_mask _ = refl

-- The modifier of an interval with fields gives the type of those fields and its name, and the digits
-- of the seconds if there are seconds, 6 where they are not restricted.
pub get_interval_type-interval_typmod :
    (r : Range) (p : ℕ)
    → (leb p 6 || p == 0xffff) ≡ true
    → (get_interval_type (interval_typmod r p) ≡ range_type r)
      × (get_interval_decimal_digits (interval_typmod r p)
          ≡ (if has_seconds r then if leb p 6 then pos p else pos 6 else pos 0))
unfolding interval_digits
get_interval_type-interval_typmod r p h =
    let low : p < 2 ^ 16 = ground arith in
    (
      get_interval_type-mask (range_mask r) p low ∙ get_interval_type-range_mask r,
      get_interval_decimal_digits-mask (range_mask r) p low
          ∙ rw (has_bit-range_mask r, interval_digits-limited p h) refl,
    )
