-- ===== src/Connection/Transaction.antt =====
-- The transaction of a connection as the driver sees it (connection.c, connection.h, qresult.c):
-- what the server reports, and what the driver does to its cursors and marked objects then.
pub mod Phases
pub mod Cursors
pub mod Ends
pub mod Marks
use open_gauss_connector_odb.Base.{
  ℕ, zero, suc, ◌+◌, ◌-◌, ◌==◌, Bool, true, false, not, ◌&&◌, ◌||◌, List, [], ◌∷◌, ◌++◌, Option,
  none, some, length, take, map, reverse, ltb, if◌then◌else◌,
}
use open_gauss_connector_odb.Base.Int.{ℤ, pos, negsuc, ◌-ℤ◌, eqb_ℤ}

abbrev pub Name : Type 0
Name = List ℕ

-- The fields of a `QResultClass` that stand for its cursor; `next` has the names in the results
-- chained behind.
pub record CursorResult : Type 0 where
  pub cursor_name : Option Name
  pub withhold : Bool
  pub permanent : Bool
  pub survival_check : Bool
  pub curs_tuple : ℤ
  pub next : List (Option Name)

-- `QR_set_cursor` with no name, of a result that has one.
unfoldable pub drop_cursor : CursorResult → CursorResult
drop_cursor res = record res {
  cursor_name = none;
  withhold = false;
  permanent = false;
  survival_check = false;
  curs_tuple = negsuc 0;
  next = map (λ name. none) res.next;
}

-- What a connection does besides, in the order of the calls.
pub data Effect : Type 0 where
  move_zero : Name → Effect
  send_command : List ℕ → Effect
  process_rollback : Bool → Bool → Effect
  pq_finish : Effect

-- The fields of a `ConnectionClass`; the first four are the bits of `transact_status`, and `results`
-- has the result of each statement slot, if there are a statement and a result.
pub record Conn : Type 0 where
  pub in_autocommit : Bool
  pub in_transaction : Bool
  pub in_manual_transaction : Bool
  pub in_error_before_idle : Bool
  pub down : Bool
  pub pqconn : Bool
  pub on_commit_in_progress : Bool
  pub rbonerr : ℕ
  pub internal_svp : ℕ
  pub internal_op : ℕ
  pub opt_in_progress : ℕ
  pub opt_previous : ℕ
  pub result_uncommitted : Bool
  pub ncursors : ℤ
  pub results : List (Option CursorResult)
  pub discardp : List (ℕ × Name)
  pub effects : List Effect

-- `CC_set_no_trans` and `CC_set_no_manual_trans`
abbrev pub cc_set_no_trans : Conn → Conn
cc_set_no_trans conn = record conn {
  in_transaction = false;
  in_error_before_idle = false;
  in_manual_transaction = false;
}

-- `INIT_SVPOPT`
abbrev pub init_svpopt : ℕ
init_svpopt = 1

-- `CC_svp_init` and `CC_start_stmt`
abbrev pub cc_svp_init : Conn → Conn
cc_svp_init conn = record conn {
  internal_svp = 0;
  internal_op = 0;
  opt_in_progress = init_svpopt;
  opt_previous = init_svpopt;
  rbonerr = 0;
}

-- The body of the loop of `CC_clear_cursors`, for a result with a cursor: the result, what is sent,
-- and whether the cursor was dropped. `alive` says of a cursor whether MOVE found it.
unfoldable pub clear_cursor :
    Bool → (Name → Bool) → CursorResult → Name → CursorResult × List Effect × Bool
clear_cursor on_abort alive res name =
    if on_abort && not res.permanent || not res.withhold
    then (drop_cursor res, [], true)
    else if not res.permanent
    then (if res.survival_check
        then (if alive name
            then (
              record res { survival_check = false; permanent = true },
              move_zero name ∷ [],
              false,
            )
            else (drop_cursor (record res { survival_check = false }), move_zero name ∷ [], true))
        else (record res { permanent = true }, [], false))
    else (res, [], false)

unfoldable pub clear_slot :
    Bool → (Name → Bool) → Option CursorResult → Option CursorResult × List Effect × Bool
unfolding clear_cursor
clear_slot on_abort alive none = (none, [], false)
clear_slot on_abort alive (some res) = elim res.cursor_name [
  | none ↦ (some res, [], false)
  | some name ↦
      let (res', sent, dropped) = clear_cursor on_abort alive res name in (some res', sent, dropped)
]

-- The loop, with `ncursors` before it.
unfoldable pub clear_slots :
    Bool
    → (Name → Bool)
    → ℤ
    → List (Option CursorResult)
    → ℤ × List (Option CursorResult) × List Effect
unfolding clear_slot
clear_slots on_abort alive ncursors [] = (ncursors, [], [])
clear_slots on_abort alive ncursors (slot ∷ slots) =
    let (slot', sent, dropped) = clear_slot on_abort alive slot in
    let left = if dropped then ncursors -ℤ pos 1 else ncursors in
    let (left', slots', sent') = clear_slots on_abort alive left slots in
    (left', slot' ∷ slots', sent ++ sent')

-- `CC_clear_cursors`
unfoldable pub cc_clear_cursors : Bool → (Name → Bool) → Conn → Conn
unfolding clear_slots
cc_clear_cursors on_abort alive conn =
    let (left, slots, sent) = clear_slots on_abort alive conn.ncursors conn.results in
    if eqb_ℤ conn.ncursors (pos 0)
    then conn
    else record conn { ncursors = left; results = slots; effects = conn.effects ++ sent }

-- The text of a command that discards an object: a prepared statement, or a cursor.
abbrev pub deallocate_text : List ℕ
deallocate_text =
    b'D' ∷ b'E' ∷ b'A' ∷ b'L' ∷ b'L' ∷ b'O' ∷ b'C' ∷ b'A' ∷ b'T' ∷ b'E' ∷ b' ' ∷ b'"' ∷ []

abbrev pub close_text : List ℕ
close_text = b'C' ∷ b'L' ∷ b'O' ∷ b'S' ∷ b'E' ∷ b' ' ∷ b'"' ∷ []

abbrev pub quote_end : List ℕ
quote_end = b'"' ∷ []

abbrev pub discard_text : ℕ → Name → List ℕ
discard_text type name = (if type == b's' then deallocate_text else close_text) ++ name ++ quote_end

-- The text as `SPRINTF_FIXED` leaves it in `cmd`, of 64 bytes with the terminating null.
unfoldable pub discard_command : ℕ × Name → Effect
discard_command (type, name) = send_command (take 63 (discard_text type name))

-- `CC_discard_marked_objects`: the last one first.
unfoldable pub cc_discard_marked_objects : Conn → Conn
cc_discard_marked_objects conn = record conn {
  discardp = [];
  effects = conn.effects ++ map discard_command (reverse conn.discardp);
}

-- The call of `ProcessRollback` where a result is uncommitted.
abbrev pub finish_rollback : Bool → Conn → Conn
finish_rollback undo conn =
    if conn.result_uncommitted
    then record conn {
      result_uncommitted = false;
      effects = conn.effects ++ process_rollback undo false ∷ [];
    }
    else conn

-- `CC_on_commit`
unfoldable pub cc_on_commit : (Name → Bool) → Conn → Conn
unfolding cc_clear_cursors cc_discard_marked_objects
cc_on_commit alive conn =
    let started = record conn { on_commit_in_progress = true } in
    let out = if conn.in_transaction then cc_set_no_trans started else started in
    let cleared = cc_clear_cursors false alive (cc_svp_init out) in
    let finished = finish_rollback false (cc_discard_marked_objects cleared) in
    if conn.on_commit_in_progress then conn else record finished { on_commit_in_progress = false }

-- `CC_on_abort`, with the options CONN_DEAD and NO_TRANS.
unfoldable pub cc_on_abort : (Name → Bool) → Bool → Bool → Conn → Conn
unfolding cc_clear_cursors cc_discard_marked_objects
cc_on_abort alive conn_dead no_trans conn =
    let set_no_trans = conn.in_transaction && (conn_dead || no_trans) in
    let out = if set_no_trans then cc_set_no_trans conn else conn in
    let cleared = cc_clear_cursors true alive (cc_svp_init out) in
    let closed =
      if conn_dead
      then (if cleared.pqconn
          then record cleared {
            down = true;
            pqconn = false;
            effects = cleared.effects ++ pq_finish ∷ [];
          }
          else record cleared { down = true })
      else if set_no_trans
      then cc_discard_marked_objects cleared
      else cleared in
    finish_rollback true closed

-- `CC_on_abort_partial`
unfoldable pub cc_on_abort_partial : Conn → Conn
unfolding cc_discard_marked_objects
cc_on_abort_partial conn =
    cc_discard_marked_objects
      (record conn { effects = conn.effects ++ process_rollback true true ∷ [] })

-- What `PQtransactionStatus` says.
pub data PqStatus : Type 0 where
  pqtrans_idle pqtrans_active pqtrans_intrans pqtrans_inerror pqtrans_unknown : PqStatus

unfoldable pub update_of : (Name → Bool) → PqStatus → Conn → Conn
update_of alive pqtrans_idle conn =
    if conn.in_transaction
    then (if conn.in_error_before_idle
        then cc_on_abort alive false true conn
        else cc_on_commit alive conn)
    else conn
update_of alive pqtrans_intrans conn =
    let inside = record conn { in_transaction = true } in
    if conn.in_error_before_idle
    then cc_on_abort_partial (record inside { in_error_before_idle = false })
    else inside
update_of alive pqtrans_inerror conn = record conn {
  in_transaction = true;
  in_error_before_idle = true;
}
update_of alive pqtrans_active conn = record conn { in_transaction = true }
update_of alive pqtrans_unknown conn = conn

-- `LIBPQ_update_transaction_status`
unfoldable pub libpq_update_transaction_status : (Name → Bool) → PqStatus → Conn → Conn
libpq_update_transaction_status alive status conn =
    if conn.pqconn then update_of alive status conn else conn
