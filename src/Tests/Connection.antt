-- ===== src/Tests/Connection.antt =====
-- Connections at concrete inputs.
use open_gauss_connector_odb.Base.{
  ◌≤◌, ◌≡◌, ◌⊎◌, refl, Bool, true, false, [], ◌∷◌, ◌++◌, none, some, length, replicate,
}
use open_gauss_connector_odb.Base.Int.{pos, ◌-ℤ◌}
use open_gauss_connector_odb.Connection.Slots.{
  Slots, stmt_increment, fill_slot, cc_add_statement, cc_remove_statement,
}
use open_gauss_connector_odb.Connection.Slots.Kept.{count_of, cc_remove_statement-cc_add_statement}
use open_gauss_connector_odb.Connection.Transaction.{
  Name, CursorResult, Conn, cc_clear_cursors, libpq_update_transaction_status, update_of,
  cc_on_commit, clear_slots, clear_slot, clear_cursor, drop_cursor, cc_discard_marked_objects,
  send_command, discard_text, discard_command, deallocate_text, process_rollback, pqtrans_idle,
  pqtrans_inerror,
}
use open_gauss_connector_odb.Connection.Transaction.Ends.{
  IsWorkedUp, libpq_update_transaction_status-IsWorkedUp,
}
use open_gauss_connector_odb.Connection.Transaction.Phases.{
  phase, IsSettled, update_all, phase_after_all, update_all-phase,
}

abbrev two_slots : Slots
two_slots = some 7 ∷ none ∷ []

cc_remove_statement-cc_add_statement_example :
    let (added, ret) = cc_add_statement two_slots 9 true in
    ((ret ≡ true)
      × (count_of 9 added ≡ 1)
      × ((cc_remove_statement added 9 false ≡ (two_slots, true))
          ⊎ (cc_remove_statement added 9 false
              ≡ (two_slots ++ replicate stmt_increment none, true))))
    ⊎ ((ret ≡ false)
        × (added ≡ two_slots)
        × (fill_slot 9 two_slots ≡ none)
        × ((true ≡ false) ⊎ (32752 ≤ length two_slots)))
cc_remove_statement-cc_add_statement_example =
    cc_remove_statement-cc_add_statement two_slots 9 true refl

abbrev holdable : CursorResult
holdable = record {
  cursor_name = some (b'h' ∷ []);
  withhold = true;
  permanent = false;
  survival_check = false;
  curs_tuple = pos 0;
  next = [];
}

abbrev plain_cursor : CursorResult
plain_cursor = record holdable { cursor_name = some (b'p' ∷ []); withhold = false }

-- A connection in a transaction, with two cursors, a prepared statement to discard, and changes
-- that are not committed.
abbrev busy : Conn
busy = record {
  in_autocommit = false;
  in_transaction = true;
  in_manual_transaction = false;
  in_error_before_idle = false;
  down = false;
  pqconn = true;
  on_commit_in_progress = false;
  rbonerr = 2;
  internal_svp = 1;
  internal_op = 0;
  opt_in_progress = 0;
  opt_previous = 0;
  result_uncommitted = true;
  ncursors = pos 2;
  results = some holdable ∷ none ∷ some plain_cursor ∷ [];
  discardp = (b's', b'q' ∷ []) ∷ [];
  effects = [];
}

abbrev found : Name → Bool
found name = true

-- After the commit the holdable cursor is left.
committed :
    let conn = libpq_update_transaction_status found pqtrans_idle busy in
    (conn.in_transaction ≡ false)
    × (conn.ncursors ≡ pos 1)
    × (conn.result_uncommitted ≡ false)
    × (conn.effects
        ≡ send_command (discard_text b's' (b'q' ∷ [])) ∷ process_rollback false false ∷ [])
unfolding libpq_update_transaction_status update_of cc_on_commit cc_clear_cursors clear_slots
    clear_slot clear_cursor drop_cursor cc_discard_marked_objects discard_command ◌-ℤ◌
committed = (refl, refl, refl, refl)

update_all-phase_example :
    (phase (update_all found (pqtrans_inerror ∷ pqtrans_idle ∷ []) busy)
      ≡ phase_after_all (pqtrans_inerror ∷ pqtrans_idle ∷ []) (phase busy))
    × IsSettled (update_all found (pqtrans_inerror ∷ pqtrans_idle ∷ []) busy)
update_all-phase_example =
    update_all-phase found (pqtrans_inerror ∷ pqtrans_idle ∷ []) busy (refl, refl, refl)

libpq_update_transaction_status-IsWorkedUp_example :
    IsWorkedUp false 0 busy (libpq_update_transaction_status found pqtrans_idle busy)
libpq_update_transaction_status-IsWorkedUp_example =
    libpq_update_transaction_status-IsWorkedUp found 0 busy (refl, refl, refl) refl refl

-- The end of a longer command is lost.
cut_command :
    discard_command (b's', replicate 51 b'q') ≡ send_command (deallocate_text ++ replicate 51 b'q')
unfolding discard_command
cut_command = refl
