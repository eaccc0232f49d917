-- ===== src/Types/Info.antt =====
-- What is said of a type without its modifier (pgtypes.c).
use Prim.Native.String.{String}
use open_gauss_connector_odb.Base.{
  ℕ, ◌==◌, Bool, true, false, List, [], ◌∷◌, if◌then◌else◌, Option, none, some,
}
use open_gauss_connector_odb.Base.Int.{ℤ, pos, negsuc}
use open_gauss_connector_odb.Types.{
  switch, switch_ℤ, TypeSettings, pg_type_bool, pg_type_char, pg_type_name, pg_type_int8,
  pg_type_int2, pg_type_int4, pg_type_text, pg_type_oid, pg_type_xid, pg_type_float4,
  pg_type_float8, pg_type_abstime, pg_type_money, pg_type_bpchar, pg_type_varchar, pg_type_date,
  pg_type_time, pg_type_timestamp_no_tmzone, pg_type_datetime, pg_type_time_with_tmzone,
  pg_type_timestamp, pg_type_numeric, pg_type_refcursor, pg_type_nvarchar2, pg_type_int1,
  pg_type_smalldatetime,
}
use open_gauss_connector_odb.Types.Odbc.{
  sql_c_numeric, sql_c_long, sql_c_short, sql_c_float, sql_c_double, sql_c_date, sql_c_time,
  sql_c_timestamp, sql_c_type_date, sql_c_type_time, sql_c_type_timestamp, sql_c_tinyint, sql_c_bit,
  sql_c_guid, sql_c_sshort, sql_c_slong, sql_c_ushort, sql_c_ulong, sql_c_sbigint, sql_c_stinyint,
  sql_c_ubigint, sql_c_utinyint, sql_interval_year, sql_interval_month, sql_interval_day,
  sql_interval_hour, sql_interval_minute, sql_interval_second, sql_interval_year_to_month,
  sql_interval_day_to_hour, sql_interval_day_to_minute, sql_interval_day_to_second,
  sql_interval_hour_to_minute, sql_interval_hour_to_second, sql_interval_minute_to_second,
}
use open_gauss_connector_odb.Types.Sizes.{get_numeric_decimal_digits}

-- `SQL_SEARCHABLE`, `SQL_ALL_EXCEPT_LIKE` and `SQL_UNSEARCHABLE`
abbrev pub sql_searchable : ℤ
sql_searchable = pos 3

abbrev pub sql_all_except_like : ℤ
sql_all_except_like = pos 2

abbrev pub sql_unsearchable : ℤ
sql_unsearchable = pos 0

-- `pgtype_min_decimal_digits`
unfoldable pub pgtype_min_decimal_digits : ℕ → ℤ
pgtype_min_decimal_digits type =
    switch type
      ((
        pg_type_int2 ∷ pg_type_oid ∷ pg_type_xid ∷ pg_type_int4 ∷ pg_type_int8 ∷ pg_type_int1
            ∷ pg_type_float4 ∷ pg_type_float8 ∷ pg_type_money ∷ pg_type_bool ∷ pg_type_abstime
            ∷ pg_type_timestamp ∷ pg_type_datetime ∷ pg_type_timestamp_no_tmzone ∷ pg_type_numeric
            ∷ pg_type_smalldatetime ∷ [],
        pos 0,
      )
        ∷ [])
      (negsuc 0)

-- `pgtype_max_decimal_digits`
unfoldable pub pgtype_max_decimal_digits : ℕ → ℤ
unfolding get_numeric_decimal_digits
pgtype_max_decimal_digits type =
    switch type
      ((
        pg_type_int2 ∷ pg_type_oid ∷ pg_type_xid ∷ pg_type_int4 ∷ pg_type_int8 ∷ pg_type_int1
            ∷ pg_type_float4 ∷ pg_type_float8 ∷ pg_type_money ∷ pg_type_bool ∷ pg_type_abstime
            ∷ pg_type_timestamp ∷ pg_type_smalldatetime ∷ [],
        pos 0,
      )
        ∷ (pg_type_datetime ∷ pg_type_timestamp_no_tmzone ∷ [], pos 38)
        ∷ (pg_type_numeric ∷ [], get_numeric_decimal_digits (negsuc 0) (negsuc 0))
        ∷ [])
      (negsuc 0)

-- The types of numbers.
abbrev pub radix_types : List ℕ
radix_types =
    pg_type_int2 ∷ pg_type_xid ∷ pg_type_oid ∷ pg_type_int4 ∷ pg_type_int8 ∷ pg_type_int1
    ∷ pg_type_numeric ∷ pg_type_float4 ∷ pg_type_money ∷ pg_type_float8 ∷ []

-- `pgtype_radix`
unfoldable pub pgtype_radix : ℕ → ℤ
pgtype_radix type = switch type ((radix_types, pos 10) ∷ []) (negsuc 0)

-- `pgtype_auto_increment`
unfoldable pub pgtype_auto_increment : ℕ → ℤ
pgtype_auto_increment type =
    switch type
      ((
        pg_type_int2 ∷ pg_type_oid ∷ pg_type_xid ∷ pg_type_int4 ∷ pg_type_int1 ∷ pg_type_float4
            ∷ pg_type_money ∷ pg_type_bool ∷ pg_type_float8 ∷ pg_type_int8 ∷ pg_type_numeric
            ∷ pg_type_date ∷ pg_type_time_with_tmzone ∷ pg_type_time ∷ pg_type_abstime
            ∷ pg_type_datetime ∷ pg_type_timestamp_no_tmzone ∷ pg_type_timestamp
            ∷ pg_type_smalldatetime ∷ [],
        pos 0,
      )
        ∷ [])
      (negsuc 0)

-- `pgtype_case_sensitive`
unfoldable pub pgtype_case_sensitive : ℕ → Bool
pgtype_case_sensitive type =
    switch type
      ((
        pg_type_char ∷ pg_type_nvarchar2 ∷ pg_type_varchar ∷ pg_type_bpchar ∷ pg_type_text
            ∷ pg_type_name ∷ pg_type_refcursor ∷ [],
        true,
      )
        ∷ [])
      false

-- `pgtype_money`
unfoldable pub pgtype_money : ℕ → Bool
pgtype_money type = switch type ((pg_type_money ∷ [], true) ∷ []) false

-- `pgtype_searchable`; there may be no connection.
unfoldable pub pgtype_searchable : Option TypeSettings → ℕ → ℤ
pgtype_searchable conn type =
    switch type
      ((
        pg_type_char ∷ pg_type_nvarchar2 ∷ pg_type_varchar ∷ pg_type_bpchar ∷ pg_type_text
            ∷ pg_type_name ∷ pg_type_refcursor ∷ [],
        sql_searchable,
      )
        ∷ [])
      (elim conn [
        | none ↦ sql_all_except_like
        | some c ↦ if type == c.lobj_type then sql_unsearchable else sql_all_except_like
      ])

-- `pgtype_unsigned`
unfoldable pub pgtype_unsigned : ℕ → ℤ
pgtype_unsigned type =
    switch type
      ((pg_type_oid ∷ pg_type_xid ∷ pg_type_int1 ∷ [], pos 1)
        ∷ (
          pg_type_int2 ∷ pg_type_int4 ∷ pg_type_int8 ∷ pg_type_numeric ∷ pg_type_float4
              ∷ pg_type_float8 ∷ pg_type_money ∷ [],
          pos 0,
        )
        ∷ [])
      (negsuc 0)

-- `pgtype_literal_prefix`, where the null pointer is none.
unfoldable pub pgtype_literal_prefix : ℕ → Option String
pgtype_literal_prefix type =
    switch type
      ((
        pg_type_int2 ∷ pg_type_oid ∷ pg_type_xid ∷ pg_type_int4 ∷ pg_type_int1 ∷ pg_type_int8
            ∷ pg_type_numeric ∷ pg_type_float4 ∷ pg_type_float8 ∷ pg_type_money ∷ [],
        none,
      )
        ∷ [])
      (some "'")

-- `pgtype_literal_suffix`
unfoldable pub pgtype_literal_suffix : ℕ → Option String
pgtype_literal_suffix type =
    switch type
      ((
        pg_type_int2 ∷ pg_type_oid ∷ pg_type_xid ∷ pg_type_int4 ∷ pg_type_int1 ∷ pg_type_int8
            ∷ pg_type_numeric ∷ pg_type_float4 ∷ pg_type_float8 ∷ pg_type_money ∷ [],
        none,
      )
        ∷ [])
      (some "'")

-- `pgtype_create_params`
unfoldable pub pgtype_create_params : ℕ → Option String
pgtype_create_params type =
    switch type
      ((pg_type_bpchar ∷ pg_type_varchar ∷ pg_type_nvarchar2 ∷ [], some "max. length")
        ∷ (pg_type_numeric ∷ [], some "precision, scale")
        ∷ [])
      none

-- `ctype_length`, of a platform with integers of 64 bits.
unfoldable pub ctype_length : ℤ → ℤ
ctype_length ctype =
    switch_ℤ ctype
      ((sql_c_sshort ∷ sql_c_short ∷ sql_c_ushort ∷ [], pos 2)
        ∷ (sql_c_slong ∷ sql_c_long ∷ sql_c_ulong ∷ sql_c_float ∷ [], pos 4)
        ∷ (sql_c_double ∷ [], pos 8)
        ∷ (sql_c_bit ∷ sql_c_stinyint ∷ sql_c_tinyint ∷ sql_c_utinyint ∷ [], pos 1)
        ∷ (sql_c_date ∷ sql_c_type_date ∷ sql_c_time ∷ sql_c_type_time ∷ [], pos 6)
        ∷ (sql_c_timestamp ∷ sql_c_type_timestamp ∷ sql_c_guid ∷ [], pos 16)
        ∷ (
          sql_interval_year ∷ sql_interval_month ∷ sql_interval_year_to_month ∷ sql_interval_day
              ∷ sql_interval_hour ∷ sql_interval_day_to_hour ∷ sql_interval_minute
              ∷ sql_interval_day_to_minute ∷ sql_interval_hour_to_minute ∷ sql_interval_second
              ∷ sql_interval_day_to_second ∷ sql_interval_hour_to_second
              ∷ sql_interval_minute_to_second ∷ [],
          pos 28,
        )
        ∷ (sql_c_numeric ∷ [], pos 19)
        ∷ (sql_c_sbigint ∷ sql_c_ubigint ∷ [], pos 8)
        ∷ [])
      (pos 0)
