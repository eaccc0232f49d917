-- ===== src/Tests/Transactions.antt =====
-- The theorems on the rows changed in a transaction, at concrete inputs.
use open_gauss_connector_odb.Base.{
  inl, List, ◌++◌, ℕ, ◌≡◌, refl, Bool, true, false, [], ◌∷◌, some, map, arith,
}
use open_gauss_connector_odb.Base.Int.{◌-ℤ◌, pos, ◌*ℤ◌, to_i16}
use open_gauss_connector_odb.Keyset.{KeySet, Entry, Rollback, QResult}
use open_gauss_connector_odb.Keyset.Discard.{
  Window, AreFinal, key_of, deleted_of, discard_rollback, discard_rollback-AreFinal,
}
use open_gauss_connector_odb.Keyset.Updated.{
  add_updated, add_new, enlarge_updated, append_updated, mark_uncommitted, updated_status,
  remove_updated, doubled,
}
use open_gauss_connector_odb.Keyset.Updated.Stored.{
  IsStored, CanAdd, add_updated-IsStored, remove_updated-add_updated,
}
use open_gauss_connector_odb.Keyset.Added.{sql_add, rollback_of, add_added, remove_added}
use open_gauss_connector_odb.Keyset.Added.Undone
use open_gauss_connector_odb.Keyset.Added.Undone.{CanAddRow, place_of, remove_added-add_added}

abbrev key : ℕ → ℕ → KeySet
key status n = record { status = status; offset = n; blocknum = 7; oid = 0 }

abbrev entry : ℕ → ℕ → Entry
entry status n = record { index = pos n; key = key status n }

abbrev record_of : ℕ → Rollback
record_of n = record { index = pos n; blocknum = 7; offset = n; oid = 0; option = 2 }

-- A result with changes of a transaction, and one with no cursor.
abbrev changed : Bool → Bool → QResult
changed in_trans has_cursor = record {
  conn = record { in_trans = in_trans; result_uncommitted = false };
  num_total_read = 6;
  reached_eof = true;
  has_cursor = has_cursor;
  no_memory = false;
  keyset = key 0x10 0 ∷ key 0x20 1 ∷ key 0x10 2 ∷ [];
  rb_alloc = 10;
  rb_count = 2;
  rollback = some (record_of 0 ∷ record_of 2 ∷ []);
  ad_alloc = 1;
  ad_count = 1;
  added_keyset = key 0x08 6 ∷ [];
  has_added_tuples = true;
  dl_alloc = 10;
  dl_count = 1;
  deleted = some (entry 0x11 1 ∷ []);
  up_alloc = 1;
  up_count = 1;
  updated = entry 0x22 3 ∷ [];
  has_updated_tuples = true;
}

abbrev window : Window
window = record { valid_base = true; rowset_start = pos 0; key_base = pos 0 }

discard_rollback-AreFinal_example :
    AreFinal (discard_rollback window (changed true true)).added_keyset
    × AreFinal (map key_of (deleted_of (discard_rollback window (changed true true)).deleted))
    × AreFinal (map key_of (discard_rollback window (changed true true)).updated)
discard_rollback-AreFinal_example =
    discard_rollback-AreFinal window (changed true true) refl (omega arith) (omega arith)
      (omega arith)

can_add : (in_trans : Bool) → CanAdd (changed in_trans true)
can_add in_trans = record {
  cursor = refl;
  stored = record { counted = refl; room = omega arith };
  small = omega arith;
}

add_updated-IsStored_example :
    (res' : QResult) × (add_updated true false (changed true true) (pos 4) (key 0 4) ≡ some res')
    × IsStored res'
    × (res'.updated ≡ entry 0x22 3 ∷ entry 0x22 4 ∷ [])
    × (res'.conn.result_uncommitted ≡ true)
unfolding updated_status
add_updated-IsStored_example =
    add_updated-IsStored false (changed true true) (pos 4) (key 0 4) (can_add true) refl

abbrev twice_updated : QResult
twice_updated = record (changed true true) {
  conn = record { in_trans = true; result_uncommitted = true };
  up_alloc = 2;
  up_count = 2;
  updated = entry 0x22 3 ∷ entry 0x22 4 ∷ [];
}

twice : add_updated true false (changed true true) (pos 4) (key 0 4) ≡ some twice_updated
unfolding add_updated add_new enlarge_updated append_updated mark_uncommitted updated_status doubled
    to_i16 ◌*ℤ◌
twice = refl

remove_updated-add_updated_example :
    ((remove_updated twice_updated (pos 4)).updated ≡ entry 0x22 3 ∷ [])
    × ((remove_updated twice_updated (pos 4)).up_count ≡ 1)
remove_updated-add_updated_example =
    remove_updated-add_updated false (changed true true) twice_updated (pos 4) (key 0 4)
      (can_add true) refl (refl, tt) twice

abbrev records : List Rollback
records = record_of 0 ∷ record_of 2 ∷ []

can_add_row : CanAddRow (changed true true) records
can_add_row = record {
  cursor = refl;
  in_trans = refl;
  tuples = refl;
  counted = refl;
  room = omega arith;
  small = omega arith;
  logged = inl refl;
  log_counted = refl;
  log_small = omega arith;
}

remove_added-add_added_example :
    (res' : QResult) × (res'' : QResult) × (add_added true true false
        (changed true true)
        (pos 0)
        (some (key 0 9))
      ≡ some res')
    × (res'.rollback
        ≡ some (
            records
            ++ rollback_of
                (place_of (changed true true))
                (Undone.key_of (changed true true) (key 0 9))
                sql_add
              ∷ []))
    × (remove_added res' (place_of (changed true true)) ≡ some res'')
    × (res''.added_keyset ≡ key 0x08 6 ∷ [])
    × (res''.ad_count ≡ 1)
    × (res''.updated ≡ entry 0x22 3 ∷ [])
    × (res''.deleted ≡ some (entry 0x11 1 ∷ []))
unfolding ◌-ℤ◌
remove_added-add_added_example =
    remove_added-add_added false (changed true true) (pos 0) (key 0 9) records can_add_row
      (refl, tt) (refl, tt)
