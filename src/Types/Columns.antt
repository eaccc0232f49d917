-- ===== src/Types/Columns.antt =====
-- Sizes of columns (pgtypes.c), in the units that each attribute of ODBC asks for. Sizes are integers
-- without a bound; the program has 32 bits for them.
use open_gauss_connector_odb.Base.{ℕ, ◌==◌, not, ◌&&◌, [], ◌∷◌, if◌then◌else◌}
use open_gauss_connector_odb.Base.Int.{
  ℤ, pos, negsuc, ◌+ℤ◌, ◌-ℤ◌, ◌*ℤ◌, ltb_ℤ, leb_ℤ, eqb_ℤ, to_i16,
}
use open_gauss_connector_odb.Types.{
  switch, TypeSettings, version_gt, pg_type_bool, pg_type_bytea, pg_type_char, pg_type_name,
  pg_type_int8, pg_type_int2, pg_type_int4, pg_type_text, pg_type_oid, pg_type_xid, pg_type_cidr,
  pg_type_float4, pg_type_float8, pg_type_abstime, pg_type_unknown, pg_type_money, pg_type_macaddr,
  pg_type_inet, pg_type_bpchar, pg_type_varchar, pg_type_date, pg_type_time,
  pg_type_timestamp_no_tmzone, pg_type_datetime, pg_type_interval, pg_type_timestamp,
  pg_type_numeric, pg_type_refcursor, pg_type_uuid, pg_type_nvarchar2, pg_type_int1,
  pg_type_smalldatetime, pg_type_lo_undefined,
}
use open_gauss_connector_odb.Types.Odbc.{sql_c_char, sql_no_total}
use open_gauss_connector_odb.Types.Sizes.{
  get_char_column_size, get_numeric_decimal_digits, get_numeric_column_size,
  get_timestamp_decimal_digits, get_timestamp_column_size, get_interval_column_size,
}
use open_gauss_connector_odb.Types.Tables.{pgtype_attr_to_ctype, pg_adt_unset}

-- The size of a name, with the answer of the server.
unfoldable pub name_size : TypeSettings → ℤ
name_size conn =
    let value = if version_gt conn 7 4 then conn.max_idlen else pos 0 in
    if eqb_ℤ value (pos 0) then pos 64 else value

-- `pgtype_attr_column_size`
unfoldable pub pgtype_attr_column_size : TypeSettings → ℕ → ℤ → ℤ → ℤ → ℤ
unfolding name_size get_char_column_size get_numeric_column_size get_timestamp_column_size
    get_interval_column_size
pgtype_attr_column_size conn type atttypmod adtsize unknown =
    switch type
      ((pg_type_char ∷ [], pos 1)
        ∷ (pg_type_name ∷ pg_type_refcursor ∷ [], name_size conn)
        ∷ (pg_type_int1 ∷ [], pos 3)
        ∷ (pg_type_int2 ∷ [], pos 5)
        ∷ (pg_type_oid ∷ pg_type_xid ∷ pg_type_int4 ∷ [], pos 10)
        ∷ (pg_type_int8 ∷ [], pos 19)
        ∷ (pg_type_numeric ∷ [], get_numeric_column_size atttypmod adtsize unknown)
        ∷ (pg_type_money ∷ [], pos 10)
        ∷ (pg_type_float4 ∷ [], pos 9)
        ∷ (pg_type_float8 ∷ [], pos 17)
        ∷ (pg_type_date ∷ [], pos 10)
        ∷ (pg_type_time ∷ [], pos 8)
        ∷ (pg_type_abstime ∷ pg_type_timestamp ∷ [], pos 22)
        ∷ (pg_type_smalldatetime ∷ [], pos 16)
        ∷ (
          pg_type_datetime ∷ pg_type_timestamp_no_tmzone ∷ [],
          get_timestamp_column_size type atttypmod,
        )
        ∷ (pg_type_bool ∷ [], if conn.bools_as_char then pos 5 else pos 1)
        ∷ (pg_type_macaddr ∷ [], pos 17)
        ∷ (pg_type_inet ∷ pg_type_cidr ∷ [], pos 50)
        ∷ (pg_type_uuid ∷ [], pos 37)
        ∷ (pg_type_lo_undefined ∷ [], sql_no_total)
        ∷ (pg_type_interval ∷ [], get_interval_column_size atttypmod)
        ∷ [])
      (if type == conn.lobj_type
        then sql_no_total
        else if pg_type_bytea == type && conn.bytea_as_longvarbinary
        then sql_no_total
        else get_char_column_size conn type atttypmod adtsize unknown)

-- `pgtype_attr_precision`
unfoldable pub pgtype_attr_precision : ℕ → ℤ → ℤ → ℤ → ℤ
unfolding get_numeric_column_size get_timestamp_decimal_digits
pgtype_attr_precision type atttypmod adtsize unknown =
    switch type
      ((pg_type_numeric ∷ [], to_i16 (get_numeric_column_size atttypmod adtsize unknown))
        ∷ (
          pg_type_time ∷ pg_type_datetime ∷ pg_type_timestamp_no_tmzone ∷ [],
          get_timestamp_decimal_digits atttypmod,
        )
        ∷ [])
      (negsuc 0)

-- The size of a number, to which the sign and the point are added.
unfoldable pub signed_size : ℤ → ℤ
signed_size dsize = if leb_ℤ dsize (pos 0) then dsize else dsize +ℤ pos 2

-- The display size of a number with a scale; -32768 marks a `float` that is kept as a number.
unfoldable pub numeric_display_size : ℤ → ℤ → ℤ → ℤ
unfolding signed_size
numeric_display_size scale dsize adtsize =
    if ltb_ℤ scale (pos 0)
    then (if not (eqb_ℤ scale (negsuc 32767)) then dsize -ℤ scale +ℤ pos 2 else adtsize)
    else if ltb_ℤ dsize scale
    then scale +ℤ pos 2
    else signed_size dsize

-- `pgtype_attr_display_size`
unfoldable pub pgtype_attr_display_size : TypeSettings → ℕ → ℤ → ℤ → ℤ → ℤ
unfolding pgtype_attr_column_size numeric_display_size get_numeric_decimal_digits
    get_numeric_column_size
pgtype_attr_display_size conn type atttypmod adtsize unknown =
    let scale = get_numeric_decimal_digits atttypmod adtsize in
    switch type
      ((pg_type_int2 ∷ [], pos 6)
        ∷ (pg_type_oid ∷ pg_type_xid ∷ [], pos 10)
        ∷ (pg_type_int4 ∷ [], pos 11)
        ∷ (pg_type_int1 ∷ [], pos 3)
        ∷ (pg_type_int8 ∷ [], pos 20)
        ∷ (
          pg_type_numeric ∷ [],
          numeric_display_size scale (get_numeric_column_size atttypmod adtsize unknown) adtsize,
        )
        ∷ (pg_type_money ∷ [], pos 15)
        ∷ (pg_type_float4 ∷ [], pos 15)
        ∷ (pg_type_float8 ∷ [], pos 24)
        ∷ (pg_type_macaddr ∷ [], pos 17)
        ∷ (pg_type_inet ∷ pg_type_cidr ∷ [], pos 50)
        ∷ (pg_type_uuid ∷ [], pos 36)
        ∷ (pg_type_interval ∷ [], pos 30)
        ∷ [])
      (pgtype_attr_column_size conn type atttypmod adtsize unknown)

-- The bytes of a text: two for each character of the wide driver (`WCLEN`), and otherwise as many as a
-- character may take, or 2 for a line break.
unfoldable pub text_bytes : TypeSettings → ℤ → ℤ
text_bytes conn prec =
    let coef =
      if ltb_ℤ conn.mb_maxbyte_per_char (pos 2) && conn.lf_conversion
      then pos 2
      else conn.mb_maxbyte_per_char in
    let maxvarc = conn.max_varchar_size in
    if eqb_ℤ prec sql_no_total
    then prec
    else if conn.in_unicode_driver
    then prec *ℤ pos 2
    else if eqb_ℤ coef (pos 1)
    then prec
    else if leb_ℤ prec maxvarc && ltb_ℤ maxvarc (prec *ℤ coef)
    then maxvarc
    else coef *ℤ prec

-- `pgtype_attr_buffer_length`
unfoldable pub pgtype_attr_buffer_length : TypeSettings → ℕ → ℤ → ℤ → ℤ → ℤ
unfolding pgtype_attr_column_size pgtype_attr_to_ctype text_bytes signed_size
    get_numeric_column_size
pgtype_attr_buffer_length conn type atttypmod adtsize unknown =
    let size = pgtype_attr_column_size conn type atttypmod adtsize unknown in
    switch type
      ((pg_type_int2 ∷ [], pos 2)
        ∷ (pg_type_oid ∷ pg_type_xid ∷ pg_type_int4 ∷ [], pos 4)
        ∷ (pg_type_int1 ∷ [], pos 1)
        ∷ (
          pg_type_int8 ∷ [],
          if eqb_ℤ sql_c_char (pgtype_attr_to_ctype conn type atttypmod) then pos 20 else pos 8,
        )
        ∷ (pg_type_numeric ∷ [], signed_size (get_numeric_column_size atttypmod adtsize unknown))
        ∷ (pg_type_float4 ∷ pg_type_money ∷ [], pos 4)
        ∷ (pg_type_float8 ∷ [], pos 8)
        ∷ (pg_type_date ∷ pg_type_time ∷ [], pos 6)
        ∷ (
          pg_type_abstime ∷ pg_type_datetime ∷ pg_type_timestamp ∷ pg_type_timestamp_no_tmzone
              ∷ pg_type_smalldatetime ∷ [],
          pos 16,
        )
        ∷ (pg_type_macaddr ∷ [], pos 17)
        ∷ (pg_type_inet ∷ pg_type_cidr ∷ [], pos 50)
        ∷ (pg_type_uuid ∷ [], pos 16)
        ∷ (pg_type_varchar ∷ pg_type_nvarchar2 ∷ pg_type_bpchar ∷ [], text_bytes conn size)
        ∷ [])
      size

-- `pgtype_attr_desclength`
unfoldable pub pgtype_attr_desclength : TypeSettings → ℕ → ℤ → ℤ → ℤ → ℤ
unfolding pgtype_attr_column_size signed_size get_numeric_column_size
pgtype_attr_desclength conn type atttypmod adtsize unknown =
    let size = pgtype_attr_column_size conn type atttypmod adtsize unknown in
    switch type
      ((pg_type_int2 ∷ [], pos 2)
        ∷ (pg_type_oid ∷ pg_type_xid ∷ pg_type_int4 ∷ [], pos 4)
        ∷ (pg_type_int8 ∷ [], pos 20)
        ∷ (pg_type_int1 ∷ [], pos 1)
        ∷ (pg_type_numeric ∷ [], signed_size (get_numeric_column_size atttypmod adtsize unknown))
        ∷ (pg_type_float4 ∷ pg_type_money ∷ [], pos 4)
        ∷ (pg_type_float8 ∷ [], pos 8)
        ∷ (
          pg_type_date ∷ pg_type_time ∷ pg_type_abstime ∷ pg_type_datetime
              ∷ pg_type_timestamp_no_tmzone ∷ pg_type_smalldatetime ∷ pg_type_timestamp
              ∷ pg_type_varchar ∷ pg_type_nvarchar2 ∷ pg_type_bpchar ∷ [],
          size,
        )
        ∷ [])
      size

-- `pgtype_attr_decimal_digits`
unfoldable pub pgtype_attr_decimal_digits : ℕ → ℤ → ℤ → ℤ
unfolding get_timestamp_decimal_digits get_numeric_decimal_digits
pgtype_attr_decimal_digits type atttypmod adtsize =
    switch type
      ((
        pg_type_int2 ∷ pg_type_oid ∷ pg_type_xid ∷ pg_type_int4 ∷ pg_type_int8 ∷ pg_type_float4
            ∷ pg_type_float8 ∷ pg_type_money ∷ pg_type_bool ∷ pg_type_int1 ∷ pg_type_abstime
            ∷ pg_type_timestamp ∷ pg_type_smalldatetime ∷ [],
        pos 0,
      )
        ∷ (
          pg_type_time ∷ pg_type_datetime ∷ pg_type_timestamp_no_tmzone ∷ [],
          get_timestamp_decimal_digits atttypmod,
        )
        ∷ (pg_type_numeric ∷ [], get_numeric_decimal_digits atttypmod adtsize)
        ∷ [])
      (negsuc 0)

-- `pgtype_attr_scale`
unfoldable pub pgtype_attr_scale : ℕ → ℤ → ℤ → ℤ
unfolding get_numeric_decimal_digits
pgtype_attr_scale type atttypmod adtsize =
    switch type ((pg_type_numeric ∷ [], get_numeric_decimal_digits atttypmod adtsize) ∷ [])
      (negsuc 0)

-- `pgtype_attr_transfer_octet_length`
unfoldable pub pgtype_attr_transfer_octet_length : TypeSettings → ℕ → ℤ → ℤ → ℤ
unfolding pgtype_attr_column_size text_bytes
pgtype_attr_transfer_octet_length conn type atttypmod unknown =
    let size = pgtype_attr_column_size conn type atttypmod pg_adt_unset unknown in
    switch type
      ((
        pg_type_varchar ∷ pg_type_nvarchar2 ∷ pg_type_bpchar ∷ pg_type_text ∷ pg_type_unknown ∷ [],
        text_bytes conn size,
      )
        ∷ (pg_type_bytea ∷ [], size)
        ∷ [])
      (if type == conn.lobj_type then size else negsuc 0)
