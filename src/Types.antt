-- ===== src/Types.antt =====
-- Types of the backend (pgtypes.c, pgtypes.h): the object identifiers, the constants of ODBC, and what
-- the tables read of a connection. It is the build with UNICODE_SUPPORT and without
-- PG_INTERVAL_AS_SQL_INTERVAL, which pgtypes.h leaves out.
pub mod Odbc
pub mod Sizes
pub mod Tables
pub mod Kept
pub mod Columns
pub mod Info
pub mod Intervals
pub mod Numbers
pub mod Fixed
use open_gauss_connector_odb.Base.{
  ℕ, ◌-◌, ◌^◌, ◌==◌, Bool, true, false, not, ◌&&◌, ◌||◌, List, [], ◌∷◌, ltb, leb, if◌then◌else◌,
}
use open_gauss_connector_odb.Base.Int.{ℤ, pos, negsuc, eqb_ℤ}

-- `switch`: the cases with their labels, and what the default gives.
abbrev pub is_label : ℕ → List ℕ → Bool
is_label x [] = false
is_label x (label ∷ labels) = x == label || is_label x labels

abbrev pub switch {ℓ} : {A : Type ℓ} → ℕ → List (List ℕ × A) → A → A
switch x [] default = default
switch x ((labels, a) ∷ cases) default =
    let later = switch x cases default in if is_label x labels then a else later

-- The same for signed values.
abbrev pub is_label_ℤ : ℤ → List ℤ → Bool
is_label_ℤ x [] = false
is_label_ℤ x (label ∷ labels) = eqb_ℤ x label || is_label_ℤ x labels

abbrev pub switch_ℤ {ℓ} : {A : Type ℓ} → ℤ → List (List ℤ × A) → A → A
switch_ℤ x [] default = default
switch_ℤ x ((labels, a) ∷ cases) default =
    let later = switch_ℤ x cases default in if is_label_ℤ x labels then a else later

-- pgtypes.h
abbrev pub pg_type_bool : ℕ
pg_type_bool = 16

abbrev pub pg_type_bytea : ℕ
pg_type_bytea = 17

abbrev pub pg_type_char : ℕ
pg_type_char = 18

abbrev pub pg_type_name : ℕ
pg_type_name = 19

abbrev pub pg_type_int8 : ℕ
pg_type_int8 = 20

abbrev pub pg_type_int2 : ℕ
pg_type_int2 = 21

abbrev pub pg_type_int4 : ℕ
pg_type_int4 = 23

abbrev pub pg_type_text : ℕ
pg_type_text = 25

abbrev pub pg_type_oid : ℕ
pg_type_oid = 26

abbrev pub pg_type_xid : ℕ
pg_type_xid = 28

abbrev pub pg_type_xml : ℕ
pg_type_xml = 142

abbrev pub pg_type_xmlarray : ℕ
pg_type_xmlarray = 143

abbrev pub pg_type_cidr : ℕ
pg_type_cidr = 650

abbrev pub pg_type_float4 : ℕ
pg_type_float4 = 700

abbrev pub pg_type_float8 : ℕ
pg_type_float8 = 701

abbrev pub pg_type_abstime : ℕ
pg_type_abstime = 702

abbrev pub pg_type_unknown : ℕ
pg_type_unknown = 705

abbrev pub pg_type_money : ℕ
pg_type_money = 790

abbrev pub pg_type_macaddr : ℕ
pg_type_macaddr = 829

abbrev pub pg_type_inet : ℕ
pg_type_inet = 869

abbrev pub pg_type_bpchar : ℕ
pg_type_bpchar = 1042

abbrev pub pg_type_varchar : ℕ
pg_type_varchar = 1043

abbrev pub pg_type_date : ℕ
pg_type_date = 1082

abbrev pub pg_type_time : ℕ
pg_type_time = 1083

abbrev pub pg_type_timestamp_no_tmzone : ℕ
pg_type_timestamp_no_tmzone = 1114

abbrev pub pg_type_datetime : ℕ
pg_type_datetime = 1184

abbrev pub pg_type_interval : ℕ
pg_type_interval = 1186

abbrev pub pg_type_time_with_tmzone : ℕ
pg_type_time_with_tmzone = 1266

abbrev pub pg_type_timestamp : ℕ
pg_type_timestamp = 1296

abbrev pub pg_type_numeric : ℕ
pg_type_numeric = 1700

abbrev pub pg_type_refcursor : ℕ
pg_type_refcursor = 1790

abbrev pub pg_type_uuid : ℕ
pg_type_uuid = 2950

abbrev pub pg_type_nvarchar2 : ℕ
pg_type_nvarchar2 = 3969

abbrev pub pg_type_int1 : ℕ
pg_type_int1 = 5545

abbrev pub pg_type_smalldatetime : ℕ
pg_type_smalldatetime = 9003

-- -999, as an `OID`.
abbrev pub pg_type_lo_undefined : ℕ
pg_type_lo_undefined = 2 ^ 32 - 999

-- `TYPE_MAY_BE_ARRAY`
abbrev pub type_may_be_array : ℕ → Bool
type_may_be_array type = type == pg_type_xmlarray || leb 1000 type && leb type 1041

-- dlg_specific.h
abbrev pub unknowns_as_max : ℤ
unknowns_as_max = pos 0

abbrev pub unknowns_as_dontknow : ℤ
unknowns_as_dontknow = pos 1

abbrev pub unknowns_as_longest : ℤ
unknowns_as_longest = pos 2

-- What the tables read of a `ConnectionClass`, with the answer of `CC_get_max_idlen`; `int8_as` is a
-- type of ODBC, or 0.
pub record TypeSettings : Type 0 where
  pub text_as_longvarchar : Bool
  pub unknowns_as_longvarchar : Bool
  pub bools_as_char : Bool
  pub max_varchar_size : ℤ
  pub max_longvarchar_size : ℤ
  pub bytea_as_longvarbinary : Bool
  pub lf_conversion : Bool
  pub int8_as : ℤ
  pub ms_jet : Bool
  pub is_odbc3 : Bool
  pub lobj_type : ℕ
  pub in_unicode_driver : Bool
  pub disallow_wchar : Bool
  pub is_sql_server : Bool
  pub pg_version_major : ℕ
  pub pg_version_minor : ℕ
  pub mb_maxbyte_per_char : ℤ
  pub max_idlen : ℤ

-- `PG_VERSION_GE` and `PG_VERSION_GT`
abbrev pub version_ge : TypeSettings → ℕ → ℕ → Bool
version_ge conn major minor =
    ltb major conn.pg_version_major
    || conn.pg_version_major == major && leb minor conn.pg_version_minor

abbrev pub version_gt : TypeSettings → ℕ → ℕ → Bool
version_gt conn major minor =
    ltb major conn.pg_version_major
    || conn.pg_version_major == major && ltb minor conn.pg_version_minor

-- `pg_true_type`
unfoldable pub pg_true_type : TypeSettings → ℕ → ℕ → ℕ
pg_true_type conn type basetype =
    if basetype == 0
    then type
    else if type == 0
    then basetype
    else if type == conn.lobj_type
    then type
    else basetype
