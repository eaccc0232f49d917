-- ===== src/Types/Kept.antt =====
-- The tables of types, followed there and back.
use open_gauss_connector_odb.Base.{
  ℕ, ◌-◌, ◌^◌, ◌≡◌, ◌∙◌, refl, ap, ◌==◌, ◌||◌, ◌&&◌, not, Bool, true, false, List, [], ◌∷◌,
  if◌then◌else◌, leb, arith, Bool-cases, inl, inr,
}
use open_gauss_connector_odb.Base.Int.{ℤ, pos, negsuc, ◌+ℤ◌, ltb_ℤ, leb_ℤ}
use open_gauss_connector_odb.Types.{
  switch, is_label, TypeSettings, version_ge, pg_type_bpchar, pg_type_varchar, pg_type_text,
  pg_type_date, pg_type_time, pg_type_datetime, pg_type_bytea, pg_type_int8, pg_type_bool,
  pg_type_uuid, pg_type_float4, pg_type_float8, pg_type_numeric, pg_type_int1, pg_type_int2,
  pg_type_int4, pg_type_lo_undefined,
}
use open_gauss_connector_odb.Types.Odbc.{
  sql_char, sql_wchar, sql_varchar, sql_wvarchar, sql_longvarchar, sql_wlongvarchar, sql_type_date,
  sql_date, sql_type_time, sql_time, sql_type_timestamp, sql_timestamp, sql_longvarbinary,
  sql_varbinary, sql_bigint, sql_bit, sql_guid,
}
use open_gauss_connector_odb.Types.Sizes.{max_char_size, limited_char_size, get_char_column_size}
use open_gauss_connector_odb.Types.Tables.{
  ansi_to_wtype, text_type, stays_long, concise_cases, pgtype_attr_to_concise_type,
  sqltype_to_pgtype, sql_types, pg_atp_unset, pg_adt_unset, pg_unknowns_unset,
}

-- The type of ODBC that the type of the backend for a type of ODBC is reported with.
abbrev pub reported : TypeSettings → ℕ → ℤ
reported conn type =
    pgtype_attr_to_concise_type conn type pg_atp_unset pg_adt_unset pg_unknowns_unset

-- No case has the label.
is_listed : {A : Type 0} → ℕ → List (List ℕ × A) → Bool
is_listed x [] = false
is_listed x ((labels, a) ∷ cases) = is_label x labels || is_listed x cases

switch-default :
    {A : Type 0} (x : ℕ) (cases : List (List ℕ × A)) (default : A)
    → is_listed x cases ≡ false
    → switch x cases default ≡ default
unfolding is_listed
switch-default x [] default e = refl
switch-default x ((labels, a) ∷ cases) default e = elim (Bool-cases (is_label x labels)) [
  | inl l ↦ absurd (ground arith)
  | inr l ↦ rw l (switch-default x cases default (rw l at e))
]

-- A type that the server gives to objects made later, or the number that stands for no type.
abbrev pub is_lobj_type : ℕ → Bool
is_lobj_type type = type == pg_type_lo_undefined || leb 0x4000 type && leb type (2 ^ 32 - 1000)

-- Both answers of a test.
either : {A : Type 0} (P : A → Type 0) (b : Bool) (x y : A) → P x → P y → P (if b then x else y)
either P true x y p q = p
either P false x y p q = q

-- Without what is known of the data, a type of text has the maximum size.
module _ (conn : TypeSettings) where
  unset_size :
      (type : ℕ)
      → get_char_column_size conn type pg_atp_unset pg_adt_unset pg_unknowns_unset
        ≡ limited_char_size conn (max_char_size conn type)
  unfolding get_char_column_size
  unset_size type = refl

  -- A limit is no more than the size, of sizes that are not negative.
  limited_fits :
      (maxsize : ℤ)
      → leb_ℤ (pos 0) maxsize ≡ true
      → ltb_ℤ maxsize (limited_char_size conn maxsize) ≡ false
  unfolding limited_char_size ◌+ℤ◌
  limited_fits (pos n) h = ground arith
  limited_fits (negsuc n) h = absurd (ground arith)

  ReportedAs : ℕ → ℤ → Type 0
  ReportedAs pg s = (reported conn pg ≡ s) × (sqltype_to_pgtype conn s ≡ pg)

  -- A type of text and its wide form are of one type of the backend.
  IsOf : ℕ → ℤ → Type 0
  IsOf pg s = sqltype_to_pgtype conn s ≡ pg

  long_pg : ℕ
  long_pg = if conn.text_as_longvarchar then pg_type_text else pg_type_varchar

  char-IsOf : IsOf pg_type_bpchar (ansi_to_wtype conn sql_char)
  unfolding IsOf ansi_to_wtype sqltype_to_pgtype
  char-IsOf =
      either (IsOf pg_type_bpchar) (not (conn.in_unicode_driver && not conn.disallow_wchar))
        sql_char sql_wchar refl refl

  varchar-IsOf : IsOf pg_type_varchar (ansi_to_wtype conn sql_varchar)
  unfolding IsOf ansi_to_wtype sqltype_to_pgtype
  varchar-IsOf =
      either (IsOf pg_type_varchar) (not (conn.in_unicode_driver && not conn.disallow_wchar))
        sql_varchar sql_wvarchar refl refl

  longvarchar-IsOf : IsOf long_pg (ansi_to_wtype conn sql_longvarchar)
  unfolding IsOf long_pg ansi_to_wtype sqltype_to_pgtype
  longvarchar-IsOf =
      either (IsOf long_pg) (not (conn.in_unicode_driver && not conn.disallow_wchar))
        sql_longvarchar sql_wlongvarchar refl refl

  -- Types of the backend that are reported as a type of ODBC of theirs.
  Kept : ℕ → Type 0
  Kept pg = IsOf pg (reported conn pg)

  module _
      (fits : ltb_ℤ conn.max_varchar_size (limited_char_size conn conn.max_varchar_size)
        ≡ false) where
    bpchar-Kept : Kept pg_type_bpchar
    unfolding Kept concise_cases pgtype_attr_to_concise_type get_char_column_size max_char_size
    bpchar-Kept = rw fits char-IsOf

    varchar-Kept : Kept pg_type_varchar
    unfolding Kept concise_cases pgtype_attr_to_concise_type get_char_column_size max_char_size
    varchar-Kept = rw fits varchar-IsOf

  text-Kept :
      conn.text_as_longvarchar ≡ true
      → stays_long conn (limited_char_size conn conn.max_longvarchar_size) ≡ true
      → Kept pg_type_text
  unfolding Kept IsOf concise_cases pgtype_attr_to_concise_type text_type get_char_column_size
      max_char_size long_pg
  text-Kept as_long long =
      let text : long_pg ≡ pg_type_text = simp as_long in
      simp (as_long, long) (longvarchar-IsOf ∙ text)

  date-Kept : Kept pg_type_date
  unfolding Kept IsOf concise_cases pgtype_attr_to_concise_type sqltype_to_pgtype
  date-Kept = either (IsOf pg_type_date) conn.is_odbc3 sql_type_date sql_date refl refl

  time-Kept : Kept pg_type_time
  unfolding Kept IsOf concise_cases pgtype_attr_to_concise_type sqltype_to_pgtype
  time-Kept = either (IsOf pg_type_time) conn.is_odbc3 sql_type_time sql_time refl refl

  datetime-Kept : Kept pg_type_datetime
  unfolding Kept IsOf concise_cases pgtype_attr_to_concise_type sqltype_to_pgtype
  datetime-Kept =
      either (IsOf pg_type_datetime) conn.is_odbc3 sql_type_timestamp sql_timestamp refl refl

  longvarbinary-IsOf : conn.bytea_as_longvarbinary ≡ true → IsOf pg_type_bytea sql_longvarbinary
  unfolding IsOf sqltype_to_pgtype
  longvarbinary-IsOf e = rw e refl

  lobj-IsOf : conn.bytea_as_longvarbinary ≡ false → IsOf conn.lobj_type sql_longvarbinary
  unfolding IsOf sqltype_to_pgtype
  lobj-IsOf e = simp e

  varbinary-IsOf : IsOf pg_type_bytea sql_varbinary
  unfolding IsOf sqltype_to_pgtype
  varbinary-IsOf = refl

  bytea-Kept : Kept pg_type_bytea
  unfolding Kept concise_cases pgtype_attr_to_concise_type
  bytea-Kept = elim (Bool-cases conn.bytea_as_longvarbinary) [
    | inl e ↦ simp e (longvarbinary-IsOf e)
    | inr e ↦ simp e varbinary-IsOf
  ]

  bigint-IsOf : IsOf pg_type_int8 sql_bigint
  unfolding IsOf sqltype_to_pgtype
  bigint-IsOf = refl

  bit-IsOf : IsOf pg_type_bool sql_bit
  unfolding IsOf sqltype_to_pgtype
  bit-IsOf = refl

  int8-Kept : conn.int8_as ≡ pos 0 → conn.ms_jet ≡ false → Kept pg_type_int8
  unfolding Kept concise_cases pgtype_attr_to_concise_type
  int8-Kept plain no_jet = simp (plain, no_jet) bigint-IsOf

  bool-Kept : conn.bools_as_char ≡ false → Kept pg_type_bool
  unfolding Kept concise_cases pgtype_attr_to_concise_type
  bool-Kept b = simp b bit-IsOf

  uuid-Kept : version_ge conn 8 3 ≡ true → Kept pg_type_uuid
  unfolding Kept IsOf concise_cases pgtype_attr_to_concise_type sqltype_to_pgtype
  uuid-Kept v = rw v refl

  -- The types of the table are below the object identifiers that a server gives to types made later.
  concise_cases-default :
      (type : ℕ) (size : ℤ)
      → (leb 0x4000 type && leb type (2 ^ 32 - 1000)) ≡ true
      → is_listed type (concise_cases conn size) ≡ false
  unfolding concise_cases is_listed
  concise_cases-default type size h = ground arith

  lobj-reported :
      (leb 0x4000 conn.lobj_type && leb conn.lobj_type (2 ^ 32 - 1000)) ≡ true
      → reported conn conn.lobj_type ≡ sql_longvarbinary
  unfolding pgtype_attr_to_concise_type
  lobj-reported h =
      let same : (conn.lobj_type == conn.lobj_type) ≡ true = ground arith in
      switch-default conn.lobj_type (concise_cases conn _) _
        (concise_cases-default conn.lobj_type _ h)
      ∙ (simp same)

  lo_undefined-reported :
      (type : ℕ) → type ≡ pg_type_lo_undefined → reported conn type ≡ sql_longvarbinary
  unfolding concise_cases pgtype_attr_to_concise_type
  lo_undefined-reported type e = rw e refl

-- Settings that give each type of the backend a type of its own: 64-bit integers and truth values are
-- reported as such, a long text is longer than others, and large objects have a type of their own or none.
pub record IsDistinct (conn : TypeSettings) : Type 0 where
  pub int8_plain : conn.int8_as ≡ pos 0
  pub no_jet : conn.ms_jet ≡ false
  pub bools : conn.bools_as_char ≡ false
  pub sized : leb_ℤ (pos 0) conn.max_varchar_size ≡ true
  pub long_text : stays_long conn (limited_char_size conn conn.max_longvarchar_size) ≡ true
  pub version : version_ge conn 8 3 ≡ true
  pub lobj : is_lobj_type conn.lobj_type ≡ true

module _ (conn : TypeSettings) (d : IsDistinct conn) where
  lobj-Kept : conn.bytea_as_longvarbinary ≡ false → Kept conn conn.lobj_type
  unfolding Kept IsOf
  lobj-Kept e =
      ap (sqltype_to_pgtype conn) (elim (Bool-cases (conn.lobj_type == pg_type_lo_undefined)) [
        | inl u ↦ lo_undefined-reported conn conn.lobj_type (ground arith)
        | inr u ↦ lobj-reported conn (rw u at d.lobj)
      ])
      ∙ lobj-IsOf conn e

  fits : ltb_ℤ conn.max_varchar_size (limited_char_size conn conn.max_varchar_size) ≡ false
  fits = limited_fits conn conn.max_varchar_size d.sized

  -- The type of the backend for a type of ODBC.
  StaysSame : ℤ → Type 0
  StaysSame t = Kept conn (sqltype_to_pgtype conn t)

  long-StaysSame : Kept conn (long_pg conn)
  unfolding long_pg
  long-StaysSame = elim (Bool-cases conn.text_as_longvarchar) [
    | inl e ↦ simp e (text-Kept conn e d.long_text)
    | inr e ↦ simp e (varchar-Kept conn fits)
  ]

  binary-StaysSame : StaysSame sql_longvarbinary
  unfolding StaysSame sqltype_to_pgtype
  binary-StaysSame = elim (Bool-cases conn.bytea_as_longvarbinary) [
    | inl e ↦ simp e (bytea-Kept conn)
    | inr e ↦ simp e (lobj-Kept e)
  ]

  guid-StaysSame : StaysSame sql_guid
  unfolding StaysSame sqltype_to_pgtype
  guid-StaysSame = rw d.version (uuid-Kept conn d.version)

  -- Types of the backend that do not depend on the settings.
  float4-Kept : Kept conn pg_type_float4
  unfolding Kept IsOf concise_cases pgtype_attr_to_concise_type sqltype_to_pgtype
  float4-Kept = refl

  float8-Kept : Kept conn pg_type_float8
  unfolding Kept IsOf concise_cases pgtype_attr_to_concise_type sqltype_to_pgtype
  float8-Kept = refl

  numeric-Kept : Kept conn pg_type_numeric
  unfolding Kept IsOf concise_cases pgtype_attr_to_concise_type sqltype_to_pgtype
  numeric-Kept = refl

  int1-Kept : Kept conn pg_type_int1
  unfolding Kept IsOf concise_cases pgtype_attr_to_concise_type sqltype_to_pgtype
  int1-Kept = refl

  int2-Kept : Kept conn pg_type_int2
  unfolding Kept IsOf concise_cases pgtype_attr_to_concise_type sqltype_to_pgtype
  int2-Kept = refl

  int4-Kept : Kept conn pg_type_int4
  unfolding Kept IsOf concise_cases pgtype_attr_to_concise_type sqltype_to_pgtype
  int4-Kept = refl

-- What holds of each type of a list.
abbrev pub AreKept : TypeSettings → List ℤ → Type 0
AreKept conn [] = Unit
AreKept conn (t ∷ types) =
    (sqltype_to_pgtype conn (reported conn (sqltype_to_pgtype conn t)) ≡ sqltype_to_pgtype conn t)
    × AreKept conn types

-- Each type of ODBC that `SQLGetTypeInfo` reports is mapped to a type of the backend which is, as
-- the type of a column, reported with a type of ODBC that is mapped to it again, under settings that
-- keep the types of the backend apart.
pub sql_types-AreKept : (conn : TypeSettings) → IsDistinct conn → AreKept conn sql_types
unfolding StaysSame Kept IsOf sqltype_to_pgtype long_pg
sql_types-AreKept conn d =
    let small = fits conn d in
    (
      int8-Kept conn d.int8_plain d.no_jet,
      (
        bool-Kept conn d.bools,
        (
          bpchar-Kept conn small,
          (
            date-Kept conn,
            (
              date-Kept conn,
              (
                numeric-Kept conn d,
                (
                  float8-Kept conn d,
                  (
                    float8-Kept conn d,
                    (
                      int4-Kept conn d,
                      (
                        binary-StaysSame conn d,
                        (
                          long-StaysSame conn d,
                          (
                            numeric-Kept conn d,
                            (
                              float4-Kept conn d,
                              (
                                int2-Kept conn d,
                                (
                                  time-Kept conn,
                                  (
                                    datetime-Kept conn,
                                    (
                                      time-Kept conn,
                                      (
                                        datetime-Kept conn,
                                        (
                                          int1-Kept conn d,
                                          (
                                            bytea-Kept conn,
                                            (
                                              varchar-Kept conn small,
                                              (
                                                bpchar-Kept conn small,
                                                (
                                                  varchar-Kept conn small,
                                                  (
                                                    long-StaysSame conn d,
                                                    (guid-StaysSame conn d, tt),
                                                  ),
                                                ),
                                              ),
                                            ),
                                          ),
                                        ),
                                      ),
                                    ),
                                  ),
                                ),
                              ),
                            ),
                          ),
                        ),
                      ),
                    ),
                  ),
                ),
              ),
            ),
          ),
        ),
      ),
    )
