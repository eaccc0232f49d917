-- ===== src/Keyset/Updated.antt =====
-- `AddUpdated` and `RemoveUpdatedAfterTheKey` (results.c): the list of the rows that this driver has
-- updated.
pub mod Stored
pub mod Listed
use Prim.Native.Nat.{bit_or}
use open_gauss_connector_odb.Base.{
  ℕ, zero, suc, ◌+◌, ◌-◌, ◌==◌, Bool, true, false, not, ◌&&◌, ◌||◌, List, [], ◌∷◌, ◌++◌, Option,
  none, some, length, ltb, leb, if◌then◌else◌,
}
use open_gauss_connector_odb.Base.Int.{ℤ, pos, pos_part, ◌*ℤ◌, ltb_ℤ, leb_ℤ, eqb_ℤ, to_i16}
use open_gauss_connector_odb.Keyset.{
  KeySet, Entry, QResult, num_total_tuples, keyset_info_public, curs_self_updating,
  curs_self_updated,
}
use open_gauss_connector_odb.Keyset.Status.{clear, pending_bits}
use open_gauss_connector_odb.Keyset.Deleted.{out_of_memory, matches, pidx_of, midx_of}

-- `SQL_ROW_UPDATED` of the ODBC interface
abbrev sql_row_updated : ℕ
sql_row_updated = 2

-- The loop `while (alloc < number)` on an Int2; `none` if it takes more than `fuel` rounds.
unfoldable pub doubled : ℕ → ℤ → ℤ → Option ℤ
doubled zero alloc number = if ltb_ℤ alloc number then none else some alloc
doubled (suc fuel) alloc number =
    let rest = doubled fuel (to_i16 (alloc *ℤ pos 2)) number in
    if ltb_ℤ alloc number then rest else some alloc

-- 16 doublings make any Int2 zero.
abbrev pub rounds : ℕ
rounds = 16

-- `enlargeUpdated`; `keyset_driven` says that the cursor of the statement is
-- `SQL_CURSOR_KEYSET_DRIVEN`, and `granted` that the reallocations succeed. `none` stands for a loop
-- without end.
unfoldable pub enlarge_updated : Bool → Bool → QResult → ℕ → Option (QResult × Bool)
unfolding out_of_memory
enlarge_updated granted keyset_driven res number =
    let wanted =
      if res.up_alloc == 0
      then some (if ltb 10 number then to_i16 (pos number) else pos 10)
      else doubled rounds (to_i16 (pos res.up_alloc)) (pos number) in
    elim wanted [
      | none ↦ none
      | some alloc ↦
          if leb_ℤ alloc (pos res.up_alloc)
          then some (res, true)
          else if granted
          then some (
            record res {
              up_alloc = pos_part alloc;
              has_updated_tuples = res.has_updated_tuples || not keyset_driven;
            },
            true,
          )
          else some (out_of_memory res, false)
    ]

unfoldable pub updated_status : Bool → ℕ → ℕ
updated_status in_trans status =
    let s = bit_or (clear keyset_info_public status) sql_row_updated in
    if in_trans
    then bit_or s curs_self_updating
    else clear pending_bits (bit_or s curs_self_updated)

abbrev with_status : KeySet → ℕ → KeySet
with_status key s = record key { status = s }

-- The search from the last entry on, with the change of the entry found; `none` if there is none.
unfoldable pub change_last : ℤ → ℕ → List Entry → Option (List Entry)
change_last index s [] = none
change_last index s (e ∷ es) = elim (change_last index s es) [
  | some es' ↦ some (e ∷ es')
  | none ↦ if eqb_ℤ e.index index then some (record e { key = with_status e.key s } ∷ es) else none
]

-- The entry put behind the others.
unfoldable pub append_updated : QResult → ℤ → KeySet → QResult
append_updated res index keyset = record res {
  updated = res.updated ++ record { index = index; key = keyset } ∷ [];
  up_count = res.up_count + 1;
}

unfoldable pub mark_uncommitted : QResult → QResult
mark_uncommitted res = record res { conn = record (res.conn) { result_uncommitted = true } }

-- The last branch, and what follows it.
unfoldable pub add_new : Bool → Bool → QResult → ℤ → KeySet → Option QResult
add_new granted keyset_driven res index keyset =
    elim (enlarge_updated granted keyset_driven res (res.up_count + 1)) [
      | none ↦ none
      | some (res', ok) ↦
          if ok
          then (if res.conn.in_trans
              then some (mark_uncommitted (append_updated res' index keyset))
              else some (append_updated res' index keyset))
          else some res'
    ]

-- `AddUpdated` for a statement with a current result, a key and a tuple that are not null. `none`
-- stands for a loop without end, or for an access outside an array: that to `added_keyset[0]` where
-- there is no added row, and that to `added_tuples` before its start, which is made for an entry that
-- is already in the list where there are updated tuples.
unfoldable pub add_updated : Bool → Bool → QResult → ℤ → KeySet → Option QResult
add_updated granted keyset_driven res index keyset =
    let s = updated_status res.conn.in_trans keyset.status in
    let new = add_new granted keyset_driven res index (with_status keyset s) in
    if not res.has_cursor
    then some res
    else if ltb 0 res.up_count && res.up_alloc == 0
    then some res
    else if res.conn.in_trans
    then new
    else elim (change_last index s res.updated) [
      | some es ↦ if res.has_updated_tuples then none else some (record res { updated = es })
      | none ↦
          if eqb_ℤ index (pos (num_total_tuples res))
          then elim res.added_keyset [
            | [] ↦ none
            | ◌∷◌ k ks ↦ some (record res { added_keyset = with_status k s ∷ ks })
          ]
          else new
    ]

-- The key given is that of the entry.
abbrev pub is_the_key : Option KeySet → Entry → Bool
is_the_key none e = false
is_the_key (some k) e = e.key.blocknum == k.blocknum && e.key.offset == k.offset

-- The loop of `RemoveUpdatedAfterTheKey`, which stops at the entry of the key; after a removal the
-- entry that has moved into the place is kept untested.
unfoldable pub remove_after : Option KeySet → ℤ → ℤ → List Entry → List Entry
remove_after key pidx midx [] = []
remove_after key pidx midx (e ∷ []) =
    if matches pidx midx e then (if is_the_key key e then e ∷ [] else []) else e ∷ []
remove_after key pidx midx (e ∷ x ∷ xs) =
    let removed = x ∷ remove_after key pidx midx xs in
    let kept = e ∷ remove_after key pidx midx (x ∷ xs) in
    if matches pidx midx e then (if is_the_key key e then e ∷ x ∷ xs else removed) else kept

-- `RemoveUpdatedAfterTheKey`
unfoldable pub remove_updated_after_the_key : QResult → ℤ → Option KeySet → QResult
remove_updated_after_the_key res index key =
    let p = pidx_of res.num_total_read index in
    let m = midx_of res.num_total_read index in
    let es = remove_after key p m res.updated in
    record res { updated = es; up_count = res.up_count - (length res.updated - length es) }

-- `RemoveUpdated`
abbrev pub remove_updated : QResult → ℤ → QResult
remove_updated res index = remove_updated_after_the_key res index none
