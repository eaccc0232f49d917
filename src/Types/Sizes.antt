-- ===== src/Types/Sizes.antt =====
-- Sizes of types (pgtypes.c): the functions that read the modifier of a type, with what is known of the
-- data. A modifier is negative where there is none.
use Prim.Native.String.{String}
use open_gauss_connector_odb.Base.{
  ℕ, suc, ◌-◌, ◌/◌, ◌%◌, ◌^◌, ◌==◌, Bool, not, ◌&&◌, ◌||◌, [], ◌∷◌, ltb, if◌then◌else◌,
}
use open_gauss_connector_odb.Base.Int.{ℤ, pos, negsuc, ◌+ℤ◌, ltb_ℤ, leb_ℤ, eqb_ℤ, to_i16, pos_part}
use open_gauss_connector_odb.Types.{
  switch, switch_ℤ, TypeSettings, type_may_be_array, unknowns_as_max, unknowns_as_dontknow,
  unknowns_as_longest, pg_type_text, pg_type_bpchar, pg_type_varchar, pg_type_time,
  pg_type_timestamp_no_tmzone, pg_type_time_with_tmzone, pg_type_nvarchar2,
}
use open_gauss_connector_odb.Types.Odbc.{
  sql_interval_year, sql_interval_month, sql_interval_day, sql_interval_hour, sql_interval_minute,
  sql_interval_second, sql_interval_year_to_month, sql_interval_day_to_hour,
  sql_interval_day_to_minute, sql_interval_day_to_second, sql_interval_hour_to_minute,
  sql_interval_hour_to_second, sql_interval_minute_to_second, sql_no_total,
}

abbrev pub text_field_size : ℤ
text_field_size = pos 8190

-- The maximum size of a type, from the settings.
unfoldable pub max_char_size : TypeSettings → ℕ → ℤ
max_char_size conn type =
    let longest = conn.max_longvarchar_size in
    let most = conn.max_varchar_size in
    switch type
      ((pg_type_text ∷ [], if conn.text_as_longvarchar then longest else most)
        ∷ (pg_type_varchar ∷ pg_type_nvarchar2 ∷ pg_type_bpchar ∷ [], most)
        ∷ [])
      (if conn.unknowns_as_longvarchar then longest else most)

-- The limit for SQL Server, and the length that stands for none.
unfoldable pub limited_char_size : TypeSettings → ℤ → ℤ
limited_char_size conn maxsize =
    let limited =
      if conn.in_unicode_driver && conn.is_sql_server && ltb_ℤ (pos 4000) maxsize
      then pos 4000
      else maxsize in
    if eqb_ℤ limited (text_field_size +ℤ pos 1) then pos 0 else limited

-- `getCharColumnSizeX` where the size is not known from the modifier.
unfoldable pub unknown_char_size : ℕ → ℤ → ℤ → ℤ → ℤ
unknown_char_size type maxsize p unknown =
    if not (eqb_ℤ unknown unknowns_as_longest || eqb_ℤ unknown unknowns_as_max)
    then negsuc 0
    else if leb_ℤ maxsize (pos 0)
    then maxsize
    else switch type
        ((pg_type_nvarchar2 ∷ pg_type_bpchar ∷ pg_type_varchar ∷ pg_type_text ∷ [], maxsize) ∷ [])
        (if ltb_ℤ maxsize p then p else maxsize)

unfoldable pub get_char_column_size : TypeSettings → ℕ → ℤ → ℤ → ℤ → ℤ
unfolding max_char_size limited_char_size unknown_char_size
get_char_column_size conn type atttypmod p unknown =
    let maxsize = limited_char_size conn (max_char_size conn type) in
    if ltb_ℤ atttypmod (pos 0) && ltb_ℤ p (pos 0)
    then maxsize
    else if eqb_ℤ unknown unknowns_as_longest
        && ltb_ℤ (pos 0) p
        && (ltb_ℤ atttypmod (pos 0) || ltb_ℤ p atttypmod)
    then p
    else if type_may_be_array type
    then if ltb_ℤ (pos 0) p then p else maxsize
    else if ltb_ℤ (pos 0) atttypmod
    then atttypmod
    else unknown_char_size type maxsize p unknown

-- `getNumericDecimalDigitsX`
unfoldable pub get_numeric_decimal_digits : ℤ → ℤ → ℤ
unfolding to_i16
get_numeric_decimal_digits (pos n) adtsize = to_i16 (pos (n % 2 ^ 16))
get_numeric_decimal_digits (negsuc n) (pos (suc a)) = to_i16 (pos (suc a / 2 ^ 16))
get_numeric_decimal_digits (negsuc n) _ = pos 6

-- `getNumericColumnSizeX`, where the modifier does not say it.
unfoldable pub numeric_size_of_data : ℤ → ℤ → ℤ
numeric_size_of_data unknown adtsize =
    let default_column_size : ℕ = 28 in
    if eqb_ℤ unknown unknowns_as_dontknow
    then sql_no_total
    else if leb_ℤ adtsize (pos 0)
    then pos default_column_size
    else let precision = pos_part adtsize % 2 ^ 16 in
      if eqb_ℤ unknown unknowns_as_max
      then pos (if ltb default_column_size precision then precision else default_column_size)
      else pos (if ltb precision 10 then 10 else precision)

unfoldable pub get_numeric_column_size : ℤ → ℤ → ℤ → ℤ
unfolding numeric_size_of_data
get_numeric_column_size (pos n) adtsize unknown = pos (n / 2 ^ 16 % 2 ^ 16)
get_numeric_column_size (negsuc n) adtsize unknown = numeric_size_of_data unknown adtsize

-- `getTimestampDecimalDigitsX`
unfoldable pub get_timestamp_decimal_digits : ℤ → ℤ
unfolding to_i16
get_timestamp_decimal_digits (pos n) = to_i16 (pos n)
get_timestamp_decimal_digits (negsuc n) = pos 6

-- `getTimestampColumnSizeX`
unfoldable pub get_timestamp_column_size : ℕ → ℤ → ℤ
unfolding get_timestamp_decimal_digits
get_timestamp_column_size type atttypmod =
    let fixed : ℤ =
      switch type
        ((pg_type_time ∷ [], pos 8)
          ∷ (pg_type_time_with_tmzone ∷ [], pos 11)
          ∷ (pg_type_timestamp_no_tmzone ∷ [], pos 19)
          ∷ [])
        (pos 19) in
    let scale = get_timestamp_decimal_digits atttypmod in
    to_i16 (if ltb_ℤ (pos 0) scale then fixed +ℤ pos 1 +ℤ scale else fixed)

-- A bit of a modifier.
unfoldable pub has_bit : ℕ → ℤ → Bool
has_bit bit (pos n) = n / bit % 2 == 1
has_bit bit (negsuc n) = n / bit % 2 == 0

abbrev pub month_bit : ℕ
month_bit = 2 ^ 17

abbrev pub year_bit : ℕ
year_bit = 2 ^ 18

abbrev pub day_bit : ℕ
day_bit = 2 ^ 19

abbrev pub hour_bit : ℕ
hour_bit = 2 ^ 26

abbrev pub minute_bit : ℕ
minute_bit = 2 ^ 27

abbrev pub second_bit : ℕ
second_bit = 2 ^ 28

-- `get_interval_type`: the type, or 0, and the name.
unfoldable pub get_interval_type : ℤ → ℤ × String
unfolding has_bit
get_interval_type t =
    if eqb_ℤ t (negsuc 0)
    then (pos 0, "interval")
    else if has_bit year_bit t
    then (if has_bit month_bit t
        then (sql_interval_year_to_month, "interval year to month")
        else (sql_interval_year, "interval year"))
    else if has_bit month_bit t
    then (sql_interval_month, "interval month")
    else if has_bit day_bit t
    then (if has_bit second_bit t
        then (sql_interval_day_to_second, "interval day to second")
        else if has_bit minute_bit t
        then (sql_interval_day_to_minute, "interval day to minute")
        else if has_bit hour_bit t
        then (sql_interval_day_to_hour, "interval day to hour")
        else (sql_interval_day, "interval day"))
    else if has_bit hour_bit t
    then (if has_bit second_bit t
        then (sql_interval_hour_to_second, "interval hour to second")
        else if has_bit minute_bit t
        then (sql_interval_hour_to_minute, "interval hour to minute")
        else (sql_interval_hour, "interval hour"))
    else if has_bit minute_bit t
    then (if has_bit second_bit t
        then (sql_interval_minute_to_second, "interval minute to second")
        else (sql_interval_minute, "interval minute"))
    else if has_bit second_bit t
    then (sql_interval_second, "interval second")
    else (pos 0, "interval")

-- The lower 16 bits of a modifier.
unfoldable pub low_16 : ℤ → ℕ
low_16 (pos n) = n % 2 ^ 16
low_16 (negsuc n) = 2 ^ 16 - 1 - n % 2 ^ 16

-- `getIntervalDecimalDigits`
unfoldable pub get_interval_decimal_digits : ℤ → ℤ
unfolding has_bit low_16
get_interval_decimal_digits t =
    let prec = low_16 t in
    if not (has_bit second_bit t)
    then pos 0
    else if prec == 0xffff
    then pos 6
    else to_i16 (pos prec)

-- `getIntervalColumnSize`
unfoldable pub get_interval_column_size : ℤ → ℤ
unfolding get_interval_type get_interval_decimal_digits
get_interval_column_size t =
    let ttl : ℤ =
      switch_ℤ (get_interval_type t).0
        ((pos 0 ∷ [], pos 25)
          ∷ (sql_interval_year ∷ [], pos 16)
          ∷ (sql_interval_month ∷ [], pos 16)
          ∷ (sql_interval_day ∷ [], pos 16)
          ∷ (
            sql_interval_day_to_second ∷ sql_interval_day_to_minute ∷ sql_interval_day_to_hour ∷ [],
            pos 25,
          )
          ∷ (
            sql_interval_hour_to_second ∷ sql_interval_hour_to_minute ∷ sql_interval_hour ∷ [],
            pos 17,
          )
          ∷ (sql_interval_minute_to_second ∷ sql_interval_minute ∷ [], pos 15)
          ∷ (sql_interval_year_to_month ∷ [], pos 24)
          ∷ [])
        (pos 9) in
    let scale = get_interval_decimal_digits t in
    to_i16 (if ltb_ℤ (pos 0) scale then ttl +ℤ pos 1 +ℤ scale else ttl)
