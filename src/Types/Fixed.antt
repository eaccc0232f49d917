-- ===== src/Types/Fixed.antt =====
-- Types of the backend that are bound to a type of C with a fixed size.
use open_gauss_connector_odb.Base.{
  ℕ, ◌≡◌, refl, ap, sym, ◌∙◌, Bool, true, false, List, [], ◌∷◌, if◌then◌else◌,
}
use open_gauss_connector_odb.Base.Int.{ℤ, pos}
use open_gauss_connector_odb.Types.{
  TypeSettings, pg_type_int1, pg_type_int2, pg_type_int4, pg_type_int8, pg_type_oid, pg_type_xid,
  pg_type_float4, pg_type_float8, pg_type_money, pg_type_date, pg_type_time, pg_type_abstime,
  pg_type_datetime, pg_type_timestamp, pg_type_timestamp_no_tmzone, pg_type_smalldatetime,
  pg_type_bool, pg_type_uuid,
}
use open_gauss_connector_odb.Types.Odbc.{
  sql_c_date, sql_c_type_date, sql_c_time, sql_c_type_time, sql_c_timestamp, sql_c_type_timestamp,
}
use open_gauss_connector_odb.Types.Tables.{pgtype_attr_to_ctype}
use open_gauss_connector_odb.Types.Columns.{pgtype_attr_column_size, pgtype_attr_buffer_length}
use open_gauss_connector_odb.Types.Info.{ctype_length}

abbrev pub fixed_types : List ℕ
fixed_types =
    pg_type_int1 ∷ pg_type_int2 ∷ pg_type_int4 ∷ pg_type_oid ∷ pg_type_xid ∷ pg_type_float4
    ∷ pg_type_float8 ∷ pg_type_money ∷ pg_type_date ∷ pg_type_time ∷ pg_type_abstime
    ∷ pg_type_datetime ∷ pg_type_timestamp ∷ pg_type_timestamp_no_tmzone ∷ pg_type_smalldatetime
    ∷ pg_type_int8 ∷ pg_type_uuid ∷ pg_type_bool ∷ []

-- The bytes that the driver reports for a column are those of the type of C that it binds by default.
abbrev pub IsSized : TypeSettings → ℤ → ℤ → ℤ → ℕ → Type 0
IsSized conn atttypmod adtsize unknown type =
    pgtype_attr_buffer_length conn type atttypmod adtsize unknown
    ≡ ctype_length (pgtype_attr_to_ctype conn type atttypmod)

abbrev pub AreSized : TypeSettings → ℤ → ℤ → ℤ → List ℕ → Type 0
AreSized conn atttypmod adtsize unknown [] = Unit
AreSized conn atttypmod adtsize unknown (type ∷ types) =
    IsSized conn atttypmod adtsize unknown type × AreSized conn atttypmod adtsize unknown types

either :
    (v : Bool) (a b n : ℤ)
    → ctype_length a ≡ n
    → ctype_length b ≡ n
    → ctype_length (if v then a else b) ≡ n
either true a b n g h = g
either false a b n g h = h

module _ (conn : TypeSettings) (atttypmod adtsize unknown : ℤ) where
  Sized : ℕ → Type 0
  Sized = IsSized conn atttypmod adtsize unknown

  int8-Sized : conn.ms_jet ≡ false → Sized pg_type_int8
  unfolding Sized pgtype_attr_buffer_length pgtype_attr_to_ctype ctype_length
  int8-Sized e = simp e

  uuid-Sized : conn.ms_jet ≡ false → Sized pg_type_uuid
  unfolding Sized pgtype_attr_buffer_length pgtype_attr_to_ctype ctype_length
  uuid-Sized e = simp e

  bool-Sized : conn.bools_as_char ≡ false → Sized pg_type_bool
  unfolding Sized pgtype_attr_buffer_length pgtype_attr_column_size pgtype_attr_to_ctype
      ctype_length
  bool-Sized e = simp e

  -- A type of C that depends on the version of ODBC.
  version-Sized :
      (type : ℕ) (n a b : ℤ)
      → pgtype_attr_buffer_length conn type atttypmod adtsize unknown ≡ n
      → pgtype_attr_to_ctype conn type atttypmod ≡ (if conn.is_odbc3 then a else b)
      → ctype_length a ≡ n
      → ctype_length b ≡ n
      → Sized type
  unfolding Sized
  version-Sized type n a b e f g h = e ∙ sym (ap ctype_length f ∙ either conn.is_odbc3 a b n g h)

  stamp :
      (type : ℕ)
      → pgtype_attr_buffer_length conn type atttypmod adtsize unknown ≡ pos 16
      → pgtype_attr_to_ctype conn type atttypmod
        ≡ (if conn.is_odbc3 then sql_c_type_timestamp else sql_c_timestamp)
      → Sized type
  unfolding ctype_length
  stamp type e f = version-Sized type (pos 16) sql_c_type_timestamp sql_c_timestamp e f refl refl

  time-Sized :
      Sized pg_type_date
      × Sized pg_type_time
      × Sized pg_type_abstime
      × Sized pg_type_datetime
      × Sized pg_type_timestamp
      × Sized pg_type_timestamp_no_tmzone
      × Sized pg_type_smalldatetime
  unfolding pgtype_attr_buffer_length pgtype_attr_to_ctype ctype_length
  time-Sized = (
    version-Sized pg_type_date (pos 6) sql_c_type_date sql_c_date refl refl refl refl,
    version-Sized pg_type_time (pos 6) sql_c_type_time sql_c_time refl refl refl refl,
    stamp pg_type_abstime refl refl,
    stamp pg_type_datetime refl refl,
    stamp pg_type_timestamp refl refl,
    stamp pg_type_timestamp_no_tmzone refl refl,
    stamp pg_type_smalldatetime refl refl,
  )

-- For the types of the backend that are bound to a type of C with a fixed size, the buffer length that the
-- driver reports is that size, whatever the modifier and the data, where it does not run for MS Jet and
-- truth values are no texts.
pub pgtype_attr_buffer_length-AreSized :
    (conn : TypeSettings) (atttypmod adtsize unknown : ℤ)
    → conn.ms_jet ≡ false
    → conn.bools_as_char ≡ false
    → AreSized conn atttypmod adtsize unknown fixed_types
unfolding Sized pgtype_attr_buffer_length pgtype_attr_to_ctype ctype_length
pgtype_attr_buffer_length-AreSized conn atttypmod adtsize unknown jet bools =
    let (date, time, abstime, datetime, timestamp, plain, small) =
      time-Sized conn atttypmod adtsize unknown in
    let int8 = int8-Sized conn atttypmod adtsize unknown jet in
    let uuid = uuid-Sized conn atttypmod adtsize unknown jet in
    let bool = bool-Sized conn atttypmod adtsize unknown bools in
    (
      refl,
      (
        refl,
        (
          refl,
          (
            refl,
            (
              refl,
              (
                refl,
                (
                  refl,
                  (
                    refl,
                    (
                      date,
                      (
                        time,
                        (
                          abstime,
                          (datetime, (timestamp, (plain, (small, (int8, (uuid, (bool, tt))))))),
                        ),
                      ),
                    ),
                  ),
                ),
              ),
            ),
          ),
        ),
      ),
    )
