-- ===== src/Connection/Transaction/Ends.antt =====
-- What is left to do at the end of a transaction.
use mathlib.Core.List.{append-nil}
use open_gauss_connector_odb.Base.{
  ℕ, ◌+◌, ◌≡◌, refl, sym, ap, ◌∙◌, inl, inr, Bool, true, false, Option, none, some, List, [], ◌∷◌,
  ◌++◌, map, reverse, if◌then◌else◌, arith, Bool-cases,
}
use open_gauss_connector_odb.Base.Int.{ℤ, pos, ◌-ℤ◌, eqb_ℤ}
use open_gauss_connector_odb.Connection.Transaction.{
  Name, Effect, CursorResult, move_zero, send_command, pq_finish, discard_command, process_rollback,
  clear_cursor, clear_slot, Conn, cc_set_no_trans, cc_svp_init, cc_clear_cursors, clear_slots,
  cc_discard_marked_objects, finish_rollback, cc_on_commit, cc_on_abort, pqtrans_idle, update_of,
  libpq_update_transaction_status,
}
use open_gauss_connector_odb.Connection.Transaction.Phases.{IsSettled}
use open_gauss_connector_odb.Connection.Transaction.Cursors.{
  cursors_of, AreLasting, cc_clear_cursors-AreLasting,
}

-- No more than MOVE commands, by which a cursor is asked whether it survives.
abbrev pub AreMoves : List Effect → Type 0
AreMoves [] = Unit
AreMoves (move_zero name ∷ es) = AreMoves es
AreMoves (send_command text ∷ es) = ⊥
AreMoves (process_rollback undo partial ∷ es) = ⊥
AreMoves (pq_finish ∷ es) = ⊥

AreMoves-append : (xs ys : List Effect) → AreMoves xs → AreMoves ys → AreMoves (xs ++ ys)
AreMoves-append [] ys a b = b
AreMoves-append (move_zero name ∷ xs) ys a b = AreMoves-append xs ys a b
AreMoves-append (send_command text ∷ xs) ys a b = absurd a
AreMoves-append (process_rollback undo partial ∷ xs) ys a b = absurd a
AreMoves-append (pq_finish ∷ xs) ys a b = absurd a

slot-AreMoves :
    (on_abort : Bool) (alive : Name → Bool) (res : CursorResult) (o : Option Name)
    → res.cursor_name ≡ o
    → AreMoves (clear_slot on_abort alive (some res)).1
unfolding clear_slot clear_cursor
slot-AreMoves on_abort alive res none e = simp (clear_slot, e) tt
slot-AreMoves on_abort alive res (some name) e = simp (clear_slot, clear_cursor, e) (ground arith)

clear_slot-AreMoves :
    (on_abort : Bool) (alive : Name → Bool) (slot : Option CursorResult)
    → AreMoves (clear_slot on_abort alive slot).1
unfolding clear_slot
clear_slot-AreMoves on_abort alive none = tt
clear_slot-AreMoves on_abort alive (some res) =
    slot-AreMoves on_abort alive res res.cursor_name refl

clear_slots-AreMoves :
    (on_abort : Bool) (alive : Name → Bool) (ncursors : ℤ) (slots : List (Option CursorResult))
    → AreMoves (clear_slots on_abort alive ncursors slots).2
unfolding clear_slots
clear_slots-AreMoves on_abort alive ncursors [] = tt
clear_slots-AreMoves on_abort alive ncursors (slot ∷ slots) =
    let dropped = (clear_slot on_abort alive slot).2 in
    let left = if dropped then ncursors -ℤ pos 1 else ncursors in
    AreMoves-append (clear_slot on_abort alive slot).1 (clear_slots on_abort alive left slots).2
      (clear_slot-AreMoves on_abort alive slot) (clear_slots-AreMoves on_abort alive left slots)

-- From `c` to `d` the transaction is worked up: with `undo` for a failed one.
abbrev pub IsWorkedUp : Bool → ℕ → Conn → Conn → Type 0
IsWorkedUp undo extra c d =
    AreLasting d.results
    × (d.ncursors ≡ pos (cursors_of d.results + extra))
    × (d.discardp ≡ [])
    × (d.result_uncommitted ≡ false)
    × ((sent : List Effect) × AreMoves sent
        × (d.effects ≡ (
            (c.effects ++ sent ++ map discard_command (reverse c.discardp))
            ++ (if c.result_uncommitted then process_rollback undo false ∷ [] else []))))

-- The fields that the clearing of cursors leaves.
clear-kept :
    (on_abort : Bool) (alive : Name → Bool) (c : Conn)
    → ((cc_clear_cursors on_abort alive c).discardp ≡ c.discardp)
      × ((cc_clear_cursors on_abort alive c).result_uncommitted ≡ c.result_uncommitted)
unfolding cc_clear_cursors
clear-kept on_abort alive c = (ground arith, ground arith)

clear-effects :
    (on_abort : Bool) (alive : Name → Bool) (c : Conn)
    → (sent : List Effect) × AreMoves sent
      × ((cc_clear_cursors on_abort alive c).effects ≡ c.effects ++ sent)
unfolding cc_clear_cursors
clear-effects on_abort alive c = elim (Bool-cases (eqb_ℤ c.ncursors (pos 0))) [
  | inl e ↦ ([], tt, simp (cc_clear_cursors, e) (sym (append-nil c.effects)))
  | inr e ↦ (
    (clear_slots on_abort alive c.ncursors c.results).2,
    clear_slots-AreMoves on_abort alive c.ncursors c.results,
    simp (cc_clear_cursors, e) refl,
  )
]

finish_rollback-effects :
    (undo : Bool) (c : Conn) (uncommitted : Bool)
    → c.result_uncommitted ≡ uncommitted
    → ((finish_rollback undo c).result_uncommitted ≡ false)
      × ((finish_rollback undo c).effects
          ≡ c.effects ++ (if uncommitted then process_rollback undo false ∷ [] else []))
      × ((finish_rollback undo c).results ≡ c.results)
      × ((finish_rollback undo c).ncursors ≡ c.ncursors)
      × ((finish_rollback undo c).discardp ≡ c.discardp)
finish_rollback-effects undo c true e = simp e (refl, refl, refl, refl, refl)
finish_rollback-effects undo c false e = simp e (refl, sym (append-nil c.effects), refl, refl, refl)

-- The part of `CC_on_commit` and of `CC_on_abort` behind the change of the bits.
finished-IsWorkedUp :
    (on_abort : Bool) (alive : Name → Bool) (undo : Bool) (extra : ℕ) (c : Conn)
    → c.ncursors ≡ pos (cursors_of c.results + extra)
    → IsWorkedUp undo extra c (
        finish_rollback undo
          (cc_discard_marked_objects (cc_clear_cursors on_abort alive (cc_svp_init c))))
unfolding cc_discard_marked_objects
finished-IsWorkedUp on_abort alive undo extra c counted =
    let started = cc_svp_init c in
    let cleared = cc_clear_cursors on_abort alive started in
    let gone = cc_discard_marked_objects cleared in
    let (lasting, left) = cc_clear_cursors-AreLasting on_abort alive started extra counted in
    let (marked, uncommitted) = clear-kept on_abort alive started in
    let (sent, moves, effects) = clear-effects on_abort alive started in
    let (none_left, last, results, cursors, objects) =
      finish_rollback-effects undo gone c.result_uncommitted uncommitted in
    let discards : List Effect = map discard_command (reverse c.discardp) in
    let before : gone.effects ≡ c.effects ++ sent ++ discards = rw (effects, marked) refl in
    (
      rw results lasting,
      cursors ∙ left ∙ ap (λ r. pos (cursors_of r + extra)) (sym results),
      objects,
      none_left,
      (sent, moves, last ∙ rw before refl),
    )

cc_on_commit-IsWorkedUp :
    (alive : Name → Bool) (extra : ℕ) (c : Conn)
    → IsSettled c
    → c.in_transaction ≡ true
    → c.ncursors ≡ pos (cursors_of c.results + extra)
    → IsWorkedUp false extra c (cc_on_commit alive c)
unfolding cc_on_commit
cc_on_commit-IsWorkedUp alive extra c (error, idle, connected) active counted =
    let out = cc_set_no_trans (record c { on_commit_in_progress = true }) in
    let done = finished-IsWorkedUp false alive false extra out counted in
    simp (cc_on_commit, idle, active) done

cc_on_abort-IsWorkedUp :
    (alive : Name → Bool) (extra : ℕ) (c : Conn)
    → c.in_transaction ≡ true
    → c.ncursors ≡ pos (cursors_of c.results + extra)
    → IsWorkedUp true extra c (cc_on_abort alive false true c)
unfolding cc_on_abort
cc_on_abort-IsWorkedUp alive extra c active counted =
    let done = finished-IsWorkedUp true alive true extra (cc_set_no_trans c) counted in
    simp (cc_on_abort, active) done

idle-IsWorkedUp :
    (alive : Name → Bool) (extra : ℕ) (c : Conn)
    → IsSettled c
    → c.in_transaction ≡ true
    → c.ncursors ≡ pos (cursors_of c.results + extra)
    → IsWorkedUp c.in_error_before_idle extra c (update_of alive pqtrans_idle c)
unfolding update_of
idle-IsWorkedUp alive extra c settled active counted = elim (Bool-cases c.in_error_before_idle) [
  | inl e ↦ simp (update_of, active, e) (cc_on_abort-IsWorkedUp alive extra c active counted)
  | inr e ↦
      simp (update_of, active, e) (cc_on_commit-IsWorkedUp alive extra c settled active counted)
]

-- Where the server reports that it is idle, and a connected driver with no commit under way was in
-- a transaction, with a counter that has the cursors of the results and `extra` more: no cursor of
-- a result is left but those held over the end, with the counter right for these. What is done
-- besides is, in this order: MOVE commands and no other, the command that discards each marked
-- object, once and the last one first, and one call that works up the result with uncommitted
-- rows, if there is one: undone where the transaction had failed, and committed where it had not.
pub libpq_update_transaction_status-IsWorkedUp :
    (alive : Name → Bool) (extra : ℕ) (conn : Conn)
    → IsSettled conn
    → conn.in_transaction ≡ true
    → conn.ncursors ≡ pos (cursors_of conn.results + extra)
    → IsWorkedUp conn.in_error_before_idle extra conn
        (libpq_update_transaction_status alive pqtrans_idle conn)
unfolding libpq_update_transaction_status
libpq_update_transaction_status-IsWorkedUp alive extra conn settled active counted =
    let (error, idle, connected) = settled in
    simp (libpq_update_transaction_status, connected)
      (idle-IsWorkedUp alive extra conn settled active counted)
