-- ===== src/Types/Tables.antt =====
-- Between types of the backend and types of ODBC (pgtypes.c).
use Prim.Native.String.{String}
use open_gauss_connector_odb.Base.{ℕ, ◌==◌, Bool, not, ◌&&◌, List, [], ◌∷◌, if◌then◌else◌}
use open_gauss_connector_odb.Base.Int.{ℤ, pos, negsuc, ◌-ℤ◌, ltb_ℤ, leb_ℤ, eqb_ℤ}
use open_gauss_connector_odb.Types.{
  switch, switch_ℤ, TypeSettings, version_ge, pg_type_bool, pg_type_bytea, pg_type_char,
  pg_type_name, pg_type_int8, pg_type_int2, pg_type_int4, pg_type_text, pg_type_oid, pg_type_xid,
  pg_type_xml, pg_type_cidr, pg_type_float4, pg_type_float8, pg_type_abstime, pg_type_money,
  pg_type_macaddr, pg_type_inet, pg_type_bpchar, pg_type_varchar, pg_type_date, pg_type_time,
  pg_type_timestamp_no_tmzone, pg_type_datetime, pg_type_interval, pg_type_timestamp,
  pg_type_numeric, pg_type_refcursor, pg_type_uuid, pg_type_nvarchar2, pg_type_int1,
  pg_type_smalldatetime, pg_type_lo_undefined,
}
use open_gauss_connector_odb.Types.Odbc.{
  sql_char, sql_numeric, sql_decimal, sql_integer, sql_smallint, sql_float, sql_real, sql_double,
  sql_date, sql_time, sql_timestamp, sql_varchar, sql_type_date, sql_type_time, sql_type_timestamp,
  sql_longvarchar, sql_binary, sql_varbinary, sql_longvarbinary, sql_bigint, sql_tinyint, sql_bit,
  sql_wchar, sql_wvarchar, sql_wlongvarchar, sql_guid, sql_c_char, sql_c_float, sql_c_double,
  sql_c_date, sql_c_time, sql_c_timestamp, sql_c_type_date, sql_c_type_time, sql_c_type_timestamp,
  sql_c_binary, sql_c_bit, sql_c_guid, sql_c_sshort, sql_c_slong, sql_c_ulong, sql_c_sbigint,
  sql_c_utinyint, sql_interval_year, sql_interval_month, sql_interval_day, sql_interval_hour,
  sql_interval_minute, sql_interval_second, sql_interval_year_to_month, sql_interval_day_to_hour,
  sql_interval_day_to_minute, sql_interval_day_to_second, sql_interval_hour_to_minute,
  sql_interval_hour_to_second, sql_interval_minute_to_second, sql_datetime, sql_code_date,
  sql_code_time, sql_code_timestamp,
}
use open_gauss_connector_odb.Types.Sizes.{get_char_column_size, get_interval_type}

-- `ansi_to_wtype`
unfoldable pub ansi_to_wtype : TypeSettings → ℤ → ℤ
ansi_to_wtype conn ansitype =
    if not (conn.in_unicode_driver && not conn.disallow_wchar)
    then ansitype
    else switch_ℤ ansitype
        ((sql_char ∷ [], sql_wchar)
          ∷ (sql_varchar ∷ [], sql_wvarchar)
          ∷ (sql_longvarchar ∷ [], sql_wlongvarchar)
          ∷ [])
        ansitype

-- A long type of text, where the size is not one that fits into the others.
unfoldable pub stays_long : TypeSettings → ℤ → Bool
stays_long conn column_size =
    not (ltb_ℤ (pos 0) column_size && leb_ℤ column_size conn.max_varchar_size)

unfoldable pub text_type : TypeSettings → Bool → ℤ → ℤ
unfolding stays_long
text_type conn long column_size =
    if long && stays_long conn column_size then sql_longvarchar else sql_varchar

-- The cases of `pgtype_attr_to_concise_type`, with the size of the column.
unfoldable pub concise_cases : TypeSettings → ℤ → List (List ℕ × ℤ)
unfolding ansi_to_wtype text_type
concise_cases conn column_size =
    let too_long = ltb_ℤ conn.max_varchar_size column_size in
    (pg_type_char ∷ [], ansi_to_wtype conn sql_char)
    ∷ (pg_type_name ∷ pg_type_refcursor ∷ [], ansi_to_wtype conn sql_varchar)
    ∷ (pg_type_bpchar ∷ [], ansi_to_wtype conn (if too_long then sql_longvarchar else sql_char))
    ∷ (
      pg_type_varchar ∷ pg_type_nvarchar2 ∷ [],
      ansi_to_wtype conn (if too_long then sql_longvarchar else sql_varchar),
    )
    ∷ (pg_type_text ∷ [], ansi_to_wtype conn (text_type conn conn.text_as_longvarchar column_size))
    ∷ (pg_type_bytea ∷ [], if conn.bytea_as_longvarbinary then sql_longvarbinary else sql_varbinary)
    ∷ (pg_type_lo_undefined ∷ [], sql_longvarbinary)
    ∷ (pg_type_int2 ∷ [], sql_smallint)
    ∷ (pg_type_oid ∷ pg_type_xid ∷ pg_type_int4 ∷ [], sql_integer)
    ∷ (pg_type_int1 ∷ [], sql_tinyint)
    ∷ (
      pg_type_int8 ∷ [],
      if not (eqb_ℤ conn.int8_as (pos 0))
          then conn.int8_as
          else if conn.ms_jet
          then sql_numeric
          else sql_bigint,
    )
    ∷ (pg_type_numeric ∷ [], sql_numeric)
    ∷ (pg_type_float4 ∷ [], sql_real)
    ∷ (pg_type_float8 ∷ [], sql_float)
    ∷ (pg_type_date ∷ [], if conn.is_odbc3 then sql_type_date else sql_date)
    ∷ (pg_type_time ∷ [], if conn.is_odbc3 then sql_type_time else sql_time)
    ∷ (
      pg_type_abstime ∷ pg_type_datetime ∷ pg_type_timestamp_no_tmzone ∷ pg_type_timestamp
          ∷ pg_type_smalldatetime ∷ [],
      if conn.is_odbc3 then sql_type_timestamp else sql_timestamp,
    )
    ∷ (pg_type_money ∷ [], sql_float)
    ∷ (pg_type_bool ∷ [], if conn.bools_as_char then sql_varchar else sql_bit)
    ∷ (pg_type_xml ∷ [], ansi_to_wtype conn sql_longvarchar)
    ∷ (pg_type_inet ∷ pg_type_cidr ∷ pg_type_macaddr ∷ [], ansi_to_wtype conn sql_varchar)
    ∷ (pg_type_uuid ∷ [], sql_guid)
    ∷ (pg_type_interval ∷ [], ansi_to_wtype conn sql_varchar)
    ∷ []

-- `pgtype_attr_to_concise_type`
unfoldable pub pgtype_attr_to_concise_type : TypeSettings → ℕ → ℤ → ℤ → ℤ → ℤ
unfolding concise_cases ansi_to_wtype text_type get_char_column_size
pgtype_attr_to_concise_type conn type atttypmod adtsize unknown =
    let column_size = get_char_column_size conn type atttypmod adtsize unknown in
    switch type (concise_cases conn column_size) (
      if type == conn.lobj_type
      then sql_longvarbinary
      else ansi_to_wtype conn (text_type conn conn.unknowns_as_longvarchar column_size))

-- `pgtype_attr_to_sqldesctype`
unfoldable pub pgtype_attr_to_sqldesctype : TypeSettings → ℕ → ℤ → ℤ → ℤ → ℤ
unfolding pgtype_attr_to_concise_type
pgtype_attr_to_sqldesctype conn type atttypmod adtsize unknown =
    let rettype = pgtype_attr_to_concise_type conn type atttypmod adtsize unknown in
    switch_ℤ rettype ((sql_type_date ∷ sql_type_time ∷ sql_type_timestamp ∷ [], sql_datetime) ∷ [])
      rettype

-- `PG_ADT_UNSET` and `PG_UNKNOWNS_UNSET`
abbrev pub pg_adt_unset : ℤ
pg_adt_unset = negsuc 2

abbrev pub pg_unknowns_unset : ℤ
pg_unknowns_unset = pos 0

-- The types of intervals.
abbrev pub interval_types : List ℤ
interval_types =
    sql_interval_month ∷ sql_interval_year ∷ sql_interval_year_to_month ∷ sql_interval_day
    ∷ sql_interval_hour ∷ sql_interval_minute ∷ sql_interval_second ∷ sql_interval_day_to_hour
    ∷ sql_interval_day_to_minute ∷ sql_interval_day_to_second ∷ sql_interval_hour_to_minute
    ∷ sql_interval_hour_to_second ∷ sql_interval_minute_to_second ∷ []

-- `pgtype_attr_to_datetime_sub`
unfoldable pub pgtype_attr_to_datetime_sub : TypeSettings → ℕ → ℤ → ℤ
unfolding pgtype_attr_to_concise_type
pgtype_attr_to_datetime_sub conn type atttypmod =
    let rettype = pgtype_attr_to_concise_type conn type atttypmod pg_adt_unset pg_unknowns_unset in
    switch_ℤ rettype
      ((sql_type_date ∷ [], sql_code_date)
        ∷ (sql_type_time ∷ [], sql_code_time)
        ∷ (sql_type_timestamp ∷ [], sql_code_timestamp)
        ∷ (interval_types, rettype -ℤ pos 100)
        ∷ [])
      (negsuc 0)

-- `pgtype_attr_to_ctype`; `ALLOWED_C_BIGINT` is the one of a platform with integers of 64 bits.
unfoldable pub pgtype_attr_to_ctype : TypeSettings → ℕ → ℤ → ℤ
unfolding ansi_to_wtype
pgtype_attr_to_ctype conn type atttypmod =
    let text = ansi_to_wtype conn sql_c_char in
    switch type
      ((pg_type_int8 ∷ [], if not conn.ms_jet then sql_c_sbigint else sql_c_char)
        ∷ (pg_type_numeric ∷ [], sql_c_char)
        ∷ (pg_type_int2 ∷ [], sql_c_sshort)
        ∷ (pg_type_int1 ∷ [], sql_c_utinyint)
        ∷ (pg_type_oid ∷ pg_type_xid ∷ [], sql_c_ulong)
        ∷ (pg_type_int4 ∷ [], sql_c_slong)
        ∷ (pg_type_float4 ∷ [], sql_c_float)
        ∷ (pg_type_float8 ∷ [], sql_c_double)
        ∷ (pg_type_date ∷ [], if conn.is_odbc3 then sql_c_type_date else sql_c_date)
        ∷ (pg_type_time ∷ [], if conn.is_odbc3 then sql_c_type_time else sql_c_time)
        ∷ (
          pg_type_abstime ∷ pg_type_datetime ∷ pg_type_timestamp_no_tmzone ∷ pg_type_timestamp
              ∷ pg_type_smalldatetime ∷ [],
          if conn.is_odbc3 then sql_c_type_timestamp else sql_c_timestamp,
        )
        ∷ (pg_type_money ∷ [], sql_c_float)
        ∷ (pg_type_bool ∷ [], if conn.bools_as_char then sql_c_char else sql_c_bit)
        ∷ (pg_type_bytea ∷ [], sql_c_binary)
        ∷ (pg_type_lo_undefined ∷ [], sql_c_binary)
        ∷ (pg_type_bpchar ∷ pg_type_varchar ∷ pg_type_nvarchar2 ∷ pg_type_text ∷ [], text)
        ∷ (pg_type_uuid ∷ [], if not conn.ms_jet then sql_c_guid else text)
        ∷ (pg_type_interval ∷ [], ansi_to_wtype conn sql_char)
        ∷ [])
      (if type == conn.lobj_type then sql_c_binary else text)

-- `pgtype_attr_to_name`
unfoldable pub pgtype_attr_to_name : TypeSettings → ℕ → ℤ → Bool → String
unfolding get_interval_type
pgtype_attr_to_name conn type atttypmod auto_increment =
    let cases : List (List ℕ × String) =
      (pg_type_char ∷ [], "char")
      ∷ (pg_type_int8 ∷ [], if auto_increment then "bigserial" else "int8")
      ∷ (pg_type_numeric ∷ [], "numeric")
      ∷ (pg_type_varchar ∷ [], "varchar")
      ∷ (pg_type_nvarchar2 ∷ [], "nvarchar2")
      ∷ (pg_type_bpchar ∷ [], "char")
      ∷ (pg_type_text ∷ [], "text")
      ∷ (pg_type_name ∷ [], "name")
      ∷ (pg_type_refcursor ∷ [], "refcursor")
      ∷ (pg_type_int2 ∷ [], "int2")
      ∷ (pg_type_int1 ∷ [], "int1")
      ∷ (pg_type_oid ∷ [], "oid")
      ∷ (pg_type_xid ∷ [], "xid")
      ∷ (pg_type_int4 ∷ [], if auto_increment then "serial" else "int4")
      ∷ (pg_type_float4 ∷ [], "float4")
      ∷ (pg_type_float8 ∷ [], "float8")
      ∷ (pg_type_date ∷ [], "date")
      ∷ (pg_type_time ∷ [], "time")
      ∷ (pg_type_abstime ∷ [], "abstime")
      ∷ (pg_type_datetime ∷ [], "timestamptz")
      ∷ (pg_type_timestamp_no_tmzone ∷ [], "timestamp")
      ∷ (pg_type_timestamp ∷ [], "timestamp")
      ∷ (pg_type_smalldatetime ∷ [], "smalldatetime")
      ∷ (pg_type_money ∷ [], "money")
      ∷ (pg_type_bool ∷ [], "bool")
      ∷ (pg_type_bytea ∷ [], "bytea")
      ∷ (pg_type_xml ∷ [], "xml")
      ∷ (pg_type_macaddr ∷ [], "macaddr")
      ∷ (pg_type_inet ∷ [], "inet")
      ∷ (pg_type_cidr ∷ [], "cidr")
      ∷ (pg_type_uuid ∷ [], "uuid")
      ∷ (pg_type_interval ∷ [], (get_interval_type atttypmod).1)
      ∷ (pg_type_lo_undefined ∷ [], "lo")
      ∷ [] in
    switch type cases (if type == conn.lobj_type then "lo" else "unknown")

-- `sqltype_to_pgcast`
unfoldable pub sqltype_to_pgcast : TypeSettings → ℤ → String
sqltype_to_pgcast conn sqltype =
    let cases : List (List ℤ × String) =
      (sql_binary ∷ sql_varbinary ∷ [], "::bytea")
      ∷ (sql_type_date ∷ sql_date ∷ [], "::date")
      ∷ (sql_decimal ∷ sql_numeric ∷ [], "::numeric")
      ∷ (sql_bigint ∷ [], "::int8")
      ∷ (sql_integer ∷ [], "::int4")
      ∷ (sql_real ∷ [], "::float4")
      ∷ (sql_smallint ∷ [], "::int2")
      ∷ (sql_tinyint ∷ [], "::int1")
      ∷ (sql_time ∷ sql_type_time ∷ [], "::time")
      ∷ (sql_timestamp ∷ sql_type_timestamp ∷ [], "::timestamp")
      ∷ (sql_guid ∷ [], if version_ge conn 8 3 then "::uuid" else "")
      ∷ (interval_types, "::interval")
      ∷ [] in
    switch_ℤ sqltype cases ""

-- `sqltype_to_pgtype`
unfoldable pub sqltype_to_pgtype : TypeSettings → ℤ → ℕ
sqltype_to_pgtype conn sqltype =
    let long_text = if conn.text_as_longvarchar then pg_type_text else pg_type_varchar in
    switch_ℤ sqltype
      ((sql_binary ∷ [], pg_type_bytea)
        ∷ (sql_char ∷ [], pg_type_bpchar)
        ∷ (sql_wchar ∷ [], pg_type_bpchar)
        ∷ (sql_bit ∷ [], pg_type_bool)
        ∷ (sql_type_date ∷ sql_date ∷ [], pg_type_date)
        ∷ (sql_double ∷ sql_float ∷ [], pg_type_float8)
        ∷ (sql_decimal ∷ sql_numeric ∷ [], pg_type_numeric)
        ∷ (sql_bigint ∷ [], pg_type_int8)
        ∷ (sql_integer ∷ [], pg_type_int4)
        ∷ (
          sql_longvarbinary ∷ [],
          if conn.bytea_as_longvarbinary then pg_type_bytea else conn.lobj_type,
        )
        ∷ (sql_longvarchar ∷ [], long_text)
        ∷ (sql_wlongvarchar ∷ [], long_text)
        ∷ (sql_real ∷ [], pg_type_float4)
        ∷ (sql_smallint ∷ [], pg_type_int2)
        ∷ (sql_tinyint ∷ [], pg_type_int1)
        ∷ (sql_time ∷ sql_type_time ∷ [], pg_type_time)
        ∷ (sql_timestamp ∷ sql_type_timestamp ∷ [], pg_type_datetime)
        ∷ (sql_varbinary ∷ [], pg_type_bytea)
        ∷ (sql_varchar ∷ [], pg_type_varchar)
        ∷ (sql_wvarchar ∷ [], pg_type_varchar)
        ∷ (sql_guid ∷ [], if version_ge conn 8 3 then pg_type_uuid else 0)
        ∷ (interval_types, pg_type_interval)
        ∷ [])
      0

-- `sqltype_to_default_ctype`
unfoldable pub sqltype_to_default_ctype : TypeSettings → ℤ → ℤ
unfolding ansi_to_wtype
sqltype_to_default_ctype conn sqltype =
    switch_ℤ sqltype
      ((sql_char ∷ sql_varchar ∷ sql_longvarchar ∷ sql_decimal ∷ sql_numeric ∷ [], sql_c_char)
        ∷ (sql_bigint ∷ [], sql_c_sbigint)
        ∷ (sql_wchar ∷ sql_wvarchar ∷ sql_wlongvarchar ∷ [], ansi_to_wtype conn sql_c_char)
        ∷ (sql_bit ∷ [], sql_c_bit)
        ∷ (sql_tinyint ∷ [], sql_c_utinyint)
        ∷ (sql_smallint ∷ [], sql_c_sshort)
        ∷ (sql_integer ∷ [], sql_c_slong)
        ∷ (sql_real ∷ [], sql_c_float)
        ∷ (sql_float ∷ sql_double ∷ [], sql_c_double)
        ∷ (sql_binary ∷ sql_varbinary ∷ sql_longvarbinary ∷ [], sql_c_binary)
        ∷ (sql_date ∷ [], sql_c_date)
        ∷ (sql_time ∷ [], sql_c_time)
        ∷ (sql_timestamp ∷ [], sql_c_timestamp)
        ∷ (sql_type_date ∷ [], sql_c_type_date)
        ∷ (sql_type_time ∷ [], sql_c_type_time)
        ∷ (sql_type_timestamp ∷ [], sql_c_type_timestamp)
        ∷ (sql_guid ∷ [], if conn.ms_jet then sql_c_char else sql_c_guid)
        ∷ [])
      sql_c_char

-- `sqlTypes`, the types that `SQLGetTypeInfo` reports.
abbrev pub sql_types : List ℤ
sql_types =
    sql_bigint ∷ sql_bit ∷ sql_char ∷ sql_type_date ∷ sql_date ∷ sql_decimal ∷ sql_double
    ∷ sql_float ∷ sql_integer ∷ sql_longvarbinary ∷ sql_longvarchar ∷ sql_numeric ∷ sql_real
    ∷ sql_smallint ∷ sql_type_time ∷ sql_type_timestamp ∷ sql_time ∷ sql_timestamp ∷ sql_tinyint
    ∷ sql_varbinary ∷ sql_varchar ∷ sql_wchar ∷ sql_wvarchar ∷ sql_wlongvarchar ∷ sql_guid ∷ []

-- `PG_ATP_UNSET`
abbrev pub pg_atp_unset : ℤ
pg_atp_unset = negsuc 2
