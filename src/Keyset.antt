-- ===== src/Keyset.antt =====
-- The part of `QResultClass` (qresult.h) that keeps track of the rows of a result: the keyset of
-- the rows read, and the rows that this driver has added, deleted and updated (tuple.h, results.c).
pub mod Navigate
pub mod Status
pub mod Deleted
pub mod Discard
pub mod Added
pub mod Cached
pub mod Updated
use open_gauss_connector_odb.Base.{
  ℕ, ◌+◌, ◌^◌, ◌==◌, Bool, List, [], ◌∷◌, Option, none, some, length, take, ltb, if◌then◌else◌,
}
use open_gauss_connector_odb.Base.Int.{ℤ, pos}
use Prim.Native.Nat.{bit_and, bit_or}

-- `struct KeySet_`
pub record KeySet : Type 0 where
  pub status : ℕ  -- UWORD
  pub offset : ℕ  -- UInt2
  pub blocknum : ℕ  -- UInt4
  pub oid : ℕ

-- `KEYSET_INFO_PUBLIC` and the `CURS_*` bits of a status
abbrev pub keyset_info_public : ℕ
keyset_info_public = 0x07

abbrev pub curs_self_adding : ℕ
curs_self_adding = 2 ^ 3

abbrev pub curs_self_deleting : ℕ
curs_self_deleting = 2 ^ 4

abbrev pub curs_self_updating : ℕ
curs_self_updating = 2 ^ 5

abbrev pub curs_self_added : ℕ
curs_self_added = 2 ^ 6

abbrev pub curs_self_deleted : ℕ
curs_self_deleted = 2 ^ 7

abbrev pub curs_self_updated : ℕ
curs_self_updated = 2 ^ 8

abbrev pub curs_other_deleted : ℕ
curs_other_deleted = 2 ^ 11

-- One entry of the parallel arrays `deleted` and `deleted_keyset`, or `updated` and
-- `updated_keyset`.
pub record Entry : Type 0 where
  pub index : ℤ  -- SQLLEN
  pub key : KeySet

-- `struct Rollback_`
pub record Rollback : Type 0 where
  pub index : ℤ  -- SQLLEN
  pub blocknum : ℕ
  pub offset : ℕ
  pub oid : ℕ
  pub option : ℕ  -- UWORD

-- What the functions on a result read and write of its `ConnectionClass`.
pub record ConnState : Type 0 where
  pub in_trans : Bool  -- `CC_is_in_trans`
  pub result_uncommitted : Bool

-- `deleted` and `rollback` are `none` where the source has a null pointer; a list holds the entries
-- in use. The cached tuples that go with the entries are not kept.
pub record QResult : Type 0 where
  pub conn : ConnState
  pub num_total_read : ℕ
  pub reached_eof : Bool
  pub has_cursor : Bool  -- `QR_get_cursor` is not null
  pub no_memory : Bool  -- `rstatus` is `PORES_NO_MEMORY_ERROR`
  pub keyset : List KeySet
  pub rb_alloc : ℕ  -- UInt2
  pub rb_count : ℕ  -- UInt2
  pub rollback : Option (List Rollback)
  pub ad_alloc : ℕ  -- UInt4
  pub ad_count : ℕ  -- UInt4
  pub added_keyset : List KeySet
  pub has_added_tuples : Bool  -- `added_tuples` is not null
  pub dl_alloc : ℕ  -- UInt2
  pub dl_count : ℕ  -- UInt2
  pub deleted : Option (List Entry)
  pub up_alloc : ℕ  -- UInt2
  pub up_count : ℕ  -- UInt2
  pub updated : List Entry
  pub has_updated_tuples : Bool  -- `updated_tuples` is not null

-- `QR_get_num_total_tuples`
abbrev pub num_total_tuples : QResult → ℕ
num_total_tuples res =
    if res.reached_eof then res.num_total_read + res.ad_count else res.num_total_read
