-- ===== src/Tests/Types.antt =====
-- The tables of types at concrete inputs.
use open_gauss_connector_odb.Base.{◌≡◌, refl, true, false, arith}
use open_gauss_connector_odb.Base.Int.{pos, negsuc, ◌+ℤ◌}
use open_gauss_connector_odb.Types.{
  TypeSettings, pg_type_numeric, pg_type_time, pg_type_lo_undefined, pg_type_bool,
}
use open_gauss_connector_odb.Types.Sizes.{
  get_interval_type, get_interval_decimal_digits, get_numeric_decimal_digits,
  get_numeric_column_size, limited_char_size, get_timestamp_decimal_digits,
}
use open_gauss_connector_odb.Types.Tables.{
  stays_long, sql_types, sqltype_to_pgtype, pgtype_attr_to_concise_type, concise_cases,
}
use open_gauss_connector_odb.Types.Columns.{
  pgtype_attr_display_size, pgtype_attr_decimal_digits, numeric_display_size, signed_size,
}
use open_gauss_connector_odb.Types.Info.{pgtype_max_decimal_digits}
use open_gauss_connector_odb.Types.Intervals.{
  day_to_second, interval_typmod, range_type, get_interval_type-interval_typmod,
}
use open_gauss_connector_odb.Types.Numbers.{
  numeric_typmod, text_size, IsNumeric, pgtype_attr_display_size-IsNumeric,
}
use open_gauss_connector_odb.Types.Kept.{IsDistinct, AreKept, sql_types-AreKept, reported}
use open_gauss_connector_odb.Types.Fixed.{AreSized, fixed_types, pgtype_attr_buffer_length-AreSized}

abbrev settings : TypeSettings
settings = record {
  text_as_longvarchar = true;
  unknowns_as_longvarchar = false;
  bools_as_char = false;
  max_varchar_size = pos 255;
  max_longvarchar_size = pos 8190;
  bytea_as_longvarbinary = false;
  lf_conversion = false;
  int8_as = pos 0;
  ms_jet = false;
  is_odbc3 = true;
  lobj_type = pg_type_lo_undefined;
  in_unicode_driver = true;
  disallow_wchar = false;
  is_sql_server = false;
  pg_version_major = 9;
  pg_version_minor = 2;
  mb_maxbyte_per_char = pos 4;
  max_idlen = pos 63;
}

settings-IsDistinct : IsDistinct settings
unfolding stays_long limited_char_size ◌+ℤ◌
settings-IsDistinct = record {
  int8_plain = refl;
  no_jet = refl;
  bools = refl;
  sized = refl;
  long_text = refl;
  version = refl;
  lobj = refl;
}

sql_types-AreKept_example : AreKept settings sql_types
sql_types-AreKept_example = sql_types-AreKept settings settings-IsDistinct

-- A truth value that is reported as a text does not stay one.
bool_lost :
    sqltype_to_pgtype
      (record settings { bools_as_char = true })
      (reported (record settings { bools_as_char = true }) pg_type_bool)
    ≡ 1043
unfolding sqltype_to_pgtype pgtype_attr_to_concise_type concise_cases
bool_lost = refl

get_interval_type-interval_typmod_example :
    (get_interval_type (interval_typmod day_to_second 3) ≡ range_type day_to_second)
    × (get_interval_decimal_digits (interval_typmod day_to_second 3) ≡ pos 3)
get_interval_type-interval_typmod_example = get_interval_type-interval_typmod day_to_second 3 refl

-- `numeric(5, -2)`
pgtype_attr_display_size-IsNumeric_example : IsNumeric settings 5 (negsuc 1) (negsuc 2) (pos 0)
pgtype_attr_display_size-IsNumeric_example =
    pgtype_attr_display_size-IsNumeric settings 5 (negsuc 1) (negsuc 2) (pos 0) (omega arith)
      (omega arith) (omega arith) (omega arith)

-- `numeric(2, 2)`: a number such as -0.12 has five characters, the display size is 4.
display_size_short :
    pgtype_attr_display_size settings pg_type_numeric (numeric_typmod 2 (pos 2)) (negsuc 2) (pos 0)
    ≡ pos 4
unfolding pgtype_attr_display_size numeric_display_size get_numeric_decimal_digits
    get_numeric_column_size signed_size ◌+ℤ◌
display_size_short = refl

text_size_longer : text_size 2 (pos 2) ≡ 5
text_size_longer = refl

-- The digits of a time are up to 6, the most that is reported is -1.
time_digits : pgtype_attr_decimal_digits pg_type_time (negsuc 0) (negsuc 0) ≡ pos 6
unfolding pgtype_attr_decimal_digits get_timestamp_decimal_digits
time_digits = refl

time_max_digits : pgtype_max_decimal_digits pg_type_time ≡ negsuc 0
unfolding pgtype_max_decimal_digits
time_max_digits = refl

pgtype_attr_buffer_length-AreSized_example :
    AreSized settings (negsuc 0) (negsuc 2) (pos 0) fixed_types
pgtype_attr_buffer_length-AreSized_example =
    pgtype_attr_buffer_length-AreSized settings (negsuc 0) (negsuc 2) (pos 0) refl refl
