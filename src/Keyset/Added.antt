-- ===== src/Keyset/Added.antt =====
-- `AddRollback`, `AddAdded` and `RemoveAdded` (results.c): the rows that this driver has added, and
-- the list of what a rollback has to undo.
pub mod Undone
use Prim.Native.Nat.{bit_or}
use open_gauss_connector_odb.Base.{
  ℕ, zero, suc, ◌+◌, ◌-◌, ◌*◌, ◌%◌, ◌^◌, ◌==◌, Bool, true, false, not, ◌&&◌, ◌||◌, List, [], ◌∷◌,
  ◌++◌, Option, none, some, ltb, leb, if◌then◌else◌,
}
use open_gauss_connector_odb.Base.Int.{ℤ, pos, negsuc, ◌-ℤ◌, ltb_ℤ, leb_ℤ}
use open_gauss_connector_odb.Keyset.{KeySet, Rollback, QResult, curs_self_adding, curs_self_added}
use open_gauss_connector_odb.Keyset.Deleted.{out_of_memory, remove_deleted}
use open_gauss_connector_odb.Keyset.Updated.{remove_updated}

-- `SQL_ADD` and `SQL_ROW_ADDED` of the ODBC interface
abbrev pub sql_add : ℕ
sql_add = 4

abbrev pub sql_row_added : ℕ
sql_row_added = 4

abbrev pub rollback_of : ℤ → KeySet → ℕ → Rollback
rollback_of index keyset dmlcode = record {
  index = index;
  blocknum = keyset.blocknum;
  offset = keyset.offset;
  oid = keyset.oid;
  option = dmlcode;
}

-- The record is put behind the others, with room for `alloc` records.
unfoldable pub log_rollback : QResult → ℕ → List Rollback → Rollback → QResult
log_rollback res alloc rbs rb = record res {
  conn = record (res.conn) { result_uncommitted = true };
  rb_alloc = alloc;
  rb_count = (res.rb_count + 1) % 2 ^ 16;
  rollback = some (rbs ++ rb ∷ []);
}

-- `AddRollback`, for a key that is not null. While the array is there it holds `rb_count` records.
unfoldable pub add_rollback : Bool → QResult → ℤ → KeySet → ℕ → QResult
add_rollback granted res index keyset dmlcode =
    let rb = rollback_of index keyset dmlcode in
    if not res.conn.in_trans then res else elim res.rollback [
      | none ↦
          if granted
          then log_rollback (record res { rb_count = 0 }) 10 [] rb
          else record res { rb_alloc = 0; rb_count = 0 }
      | some rbs ↦
          if leb res.rb_alloc res.rb_count
          then (if granted
              then log_rollback res (res.rb_alloc * 2 % 2 ^ 16) rbs rb
              else record res { rb_alloc = 0; rb_count = 0; rollback = some [] })
          else log_rollback res res.rb_alloc rbs rb
    ]

-- The loop of `enlargeAdded`, on a UInt4; `none` if it takes more than `fuel` rounds.
unfoldable pub doubled_added : ℕ → ℕ → ℕ → Option ℕ
doubled_added zero alloc number = if ltb alloc number then none else some alloc
doubled_added (suc fuel) alloc number =
    let rest = doubled_added fuel (alloc * 2 % 2 ^ 32) number in
    if ltb alloc number then rest else some alloc

-- 32 doublings make any UInt4 zero.
abbrev pub added_rounds : ℕ
added_rounds = 32

-- `enlargeAdded`; `none` stands for a loop without end.
unfoldable pub enlarge_added : Bool → Bool → QResult → ℕ → Option (QResult × Bool)
unfolding out_of_memory
enlarge_added granted keyset_driven res number =
    let wanted =
      if res.ad_alloc == 0
      then some (if ltb 10 number then number else 10)
      else doubled_added added_rounds res.ad_alloc number in
    elim wanted [
      | none ↦ none
      | some alloc ↦
          if leb alloc res.ad_alloc
          then some (res, true)
          else if granted
          then some (
            record res {
              ad_alloc = alloc;
              has_added_tuples = res.has_added_tuples || not keyset_driven;
            },
            true,
          )
          else some (out_of_memory res, false)
    ]

abbrev pub added_status : Bool → ℕ
added_status in_trans =
    bit_or sql_row_added (if in_trans then curs_self_adding else curs_self_added)

-- `AddAdded`: `added` is the key that `KeySetSet` reads from the tuple, if that is not null.
unfoldable pub add_added : Bool → Bool → Bool → QResult → ℤ → Option KeySet → Option QResult
add_added rollback_ok granted keyset_driven res index none =
    some (record res { ad_count = (res.ad_count + 1) % 2 ^ 32 })
add_added rollback_ok granted keyset_driven res index (some added) =
    let count = (res.ad_count + 1) % 2 ^ 32 in
    let place = if res.has_cursor then pos 0 -ℤ pos count else index in
    let keys = record added { status = added_status res.conn.in_trans } in
    let logged = add_rollback rollback_ok (record res { ad_count = count }) place keys sql_add in
    if not res.has_cursor
    then some logged
    else if ltb 0 res.ad_count && logged.ad_alloc == 0
    then some logged
    else elim (enlarge_added granted keyset_driven logged (res.ad_count + 1)) [
      | none ↦ none
      | some (res', ok) ↦
          if ok
          then some (record res' { added_keyset = res'.added_keyset ++ keys ∷ [] })
          else some res'
    ]

abbrev remove_at : {A : Type 0} → ℕ → List A → List A
remove_at n [] = []
remove_at zero (x ∷ xs) = xs
remove_at (suc n) (x ∷ xs) = x ∷ remove_at n xs

-- `rmidx`
abbrev pub rmidx_of : ℕ → ℤ → ℤ
rmidx_of num_read index =
    if ltb_ℤ index (pos 0) then pos 0 -ℤ index -ℤ pos 1 else index -ℤ pos num_read

-- What follows the test of `rmidx`.
unfoldable pub take_out : QResult → ℕ → ℤ → QResult
take_out res n index =
    let rest = record res { added_keyset = remove_at n res.added_keyset } in
    let res' = remove_updated (remove_deleted rest index) index in
    record res' { ad_count = res'.ad_count - 1 }

-- `RemoveAdded`. `none` stands for an access outside the arrays: for a row that was not added, or
-- where `added_tuples` is null.
unfoldable pub remove_added : QResult → ℤ → Option QResult
remove_added res index =
    let rmidx = rmidx_of res.num_total_read index in
    if leb_ℤ (pos res.ad_count) rmidx then some res else elim rmidx [
      | negsuc _ ↦ none
      | pos n ↦ if res.has_added_tuples then some (take_out res n index) else none
    ]
