-- ===== src/Keyset/Deleted.antt =====
-- `AddDeleted` and `RemoveDeleted` (results.c): the list of the rows that this driver has deleted.
pub mod Order
use Prim.Native.Nat.{bit_or}
use open_gauss_connector_odb.Base.{
  ℕ, ◌+◌, ◌-◌, ◌*◌, ◌%◌, ◌^◌, ◌==◌, Bool, true, false, ◌&&◌, ◌||◌, List, [], ◌∷◌, Option, none,
  some, length, ltb, leb, if◌then◌else◌,
}
use open_gauss_connector_odb.Base.Int.{ℤ, pos, negsuc, ◌-ℤ◌, ltb_ℤ, leb_ℤ, eqb_ℤ}
use open_gauss_connector_odb.Keyset.{
  KeySet, Entry, QResult, keyset_info_public, curs_self_deleting, curs_self_deleted,
}
use open_gauss_connector_odb.Keyset.Status.{clear, pending_bits}

-- A SQLLEN as a SQLULEN, and back.
abbrev pub to_unsigned : ℤ → ℕ
to_unsigned (pos n) = n
to_unsigned (negsuc n) = 2 ^ 64 - 1 - n

abbrev pub to_signed : ℕ → ℤ
to_signed w = if ltb w (2 ^ 63) then pos w else negsuc (2 ^ 64 - 1 - w)

-- `SQL_ROW_DELETED` of the ODBC interface
abbrev pub sql_row_deleted : ℕ
sql_row_deleted = 1

-- `QR_free_memory`, as far as the fields kept here go.
unfoldable pub free_memory : QResult → QResult
free_memory res = record res {
  num_total_read = 0;
  reached_eof = false;
  keyset = [];
  rb_alloc = elim res.rollback [ none ↦ res.rb_alloc | some _ ↦ 0 ];
  rb_count = elim res.rollback [ none ↦ res.rb_count | some _ ↦ 0 ];
  rollback = none;
  ad_alloc = 0;
  ad_count = 0;
  added_keyset = [];
  has_added_tuples = false;
  dl_alloc = 0;
  dl_count = 0;
  deleted = none;
  up_alloc = 0;
  up_count = 0;
  updated = [];
  has_updated_tuples = false;
}

-- A failed allocation: `QR_MALLOC_return_with_error` and `QR_REALLOC_return_with_error`.
unfoldable pub out_of_memory : QResult → QResult
unfolding free_memory
out_of_memory res = free_memory (record res { no_memory = true })

-- The loop that looks for the place of the new index, and the two moves. The comparison of the
-- SQLULEN `index` with an entry is unsigned.
unfoldable pub insert_deleted : ℕ → Entry → List Entry → List Entry
insert_deleted index e [] = e ∷ []
insert_deleted index e (x ∷ xs) =
    if ltb index (to_unsigned x.index) then e ∷ x ∷ xs else x ∷ insert_deleted index e xs

unfoldable pub deleted_status : Bool → ℕ → ℕ
deleted_status in_trans status =
    let s = bit_or (clear keyset_info_public status) sql_row_deleted in
    if in_trans
    then bit_or s curs_self_deleting
    else bit_or (clear pending_bits s) curs_self_deleted

-- The new entry: the index given, and the key with its status changed.
abbrev pub deleted_entry : Bool → ℕ → KeySet → Entry
deleted_entry in_trans index keyset = record {
  index = to_signed index;
  key = record keyset { status = deleted_status in_trans keyset.status };
}

-- The entry is put in its place, with room for `alloc` entries.
unfoldable pub store_deleted : QResult → ℕ → ℕ → KeySet → List Entry → QResult
store_deleted res alloc index keyset es =
    let in_trans = res.conn.in_trans in
    record res {
      conn = record (res.conn) { result_uncommitted = in_trans || res.conn.result_uncommitted };
      dl_alloc = alloc;
      dl_count = (length es + 1) % 2 ^ 16;
      deleted = some (insert_deleted index (deleted_entry in_trans index keyset) es);
    }

-- `AddDeleted`. The two flags say whether the allocations, where there are any, succeed. While the
-- array is there it holds `dl_count` entries, and `dl_count` is below 2 ^ 15, since a local of the
-- source holds it in an Int2.
unfoldable pub add_deleted : Bool → Bool → QResult → ℕ → KeySet → QResult × Bool
unfolding out_of_memory
add_deleted index_ok keys_ok res index keyset =
    let counted = record res { dl_count = (res.dl_count + 1) % 2 ^ 16 } in
    if res.has_cursor
    then elim res.deleted [
      | none ↦
          if index_ok && keys_ok
          then (store_deleted counted 10 index keyset [], true)
          else (out_of_memory counted, false)
      | some es ↦
          if leb res.dl_alloc (length es)
          then if index_ok && keys_ok
            then (store_deleted counted (res.dl_alloc * 2 % 2 ^ 16) index keyset es, true)
            else (out_of_memory counted, false)
          else (store_deleted counted res.dl_alloc index keyset es, true)
    ]
    else (counted, true)

-- `pidx` and `midx`: a row that was added goes by its place behind the rows read, and by a
-- negative number.
abbrev pub pidx_of : ℕ → ℤ → ℤ
pidx_of num_read index = if ltb_ℤ index (pos 0) then pos num_read -ℤ index -ℤ pos 1 else index

abbrev pub midx_of : ℕ → ℤ → ℤ
midx_of num_read index =
    if ltb_ℤ index (pos 0)
    then index
    else if leb_ℤ (pos num_read) index
    then pos num_read -ℤ index -ℤ pos 1
    else index

abbrev pub matches : ℤ → ℤ → Entry → Bool
matches pidx midx e = eqb_ℤ pidx e.index || eqb_ℤ midx e.index

-- The loop of `RemoveDeleted`. After a removal the loop index moves on, so the entry that has moved
-- into the place is kept untested.
unfoldable pub remove_matching : ℤ → ℤ → List Entry → List Entry
remove_matching pidx midx [] = []
remove_matching pidx midx (e ∷ []) = if matches pidx midx e then [] else e ∷ []
remove_matching pidx midx (e ∷ x ∷ xs) =
    let after = x ∷ remove_matching pidx midx xs in
    let rest = remove_matching pidx midx (x ∷ xs) in if matches pidx midx e then after else e ∷ rest

-- `RemoveDeleted`
unfoldable pub remove_deleted : QResult → ℤ → QResult
remove_deleted res index = elim res.deleted [
  | none ↦ res
  | some es ↦
      let es' =
        remove_matching (pidx_of res.num_total_read index) (midx_of res.num_total_read index) es in
      record res { dl_count = res.dl_count - (length es - length es'); deleted = some es' }
]
