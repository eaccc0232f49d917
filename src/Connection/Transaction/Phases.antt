-- ===== src/Connection/Transaction/Phases.antt =====
-- The transaction of a connection, seen as one of three phases.
use open_gauss_connector_odb.Base.{
  ◌≡◌, refl, ap, ◌∙◌, inl, inr, Bool, true, false, not, ◌&&◌, List, [], ◌∷◌, if◌then◌else◌, arith,
  Bool-cases,
}
use open_gauss_connector_odb.Connection.Transaction.{
  Name, Conn, cc_set_no_trans, cc_svp_init, cc_clear_cursors, cc_discard_marked_objects,
  finish_rollback, cc_on_commit, cc_on_abort, cc_on_abort_partial, PqStatus, pqtrans_idle,
  pqtrans_active, pqtrans_intrans, pqtrans_inerror, pqtrans_unknown, update_of,
  libpq_update_transaction_status,
}

-- Outside a transaction, in one, or in one that failed and waits for its end.
pub data Phase : Type 0 where
  outside inside failed : Phase

-- What a report of the server makes of the phase.
abbrev pub phase_after : PqStatus → Phase → Phase
phase_after pqtrans_idle p = outside
phase_after pqtrans_intrans p = inside
phase_after pqtrans_inerror p = failed
phase_after pqtrans_active outside = inside
phase_after pqtrans_active p = p
phase_after pqtrans_unknown p = p

abbrev pub phase_of_bits : Bool → Bool → Phase
phase_of_bits in_transaction in_error =
    if in_transaction then (if in_error then failed else inside) else outside

abbrev pub phase : Conn → Phase
phase conn = phase_of_bits conn.in_transaction conn.in_error_before_idle

-- Between two reports: an error bit stands only in a transaction, and no commit is being worked up.
abbrev pub IsSettled : Conn → Type 0
IsSettled conn =
    ((not conn.in_transaction && conn.in_error_before_idle) ≡ false)
    × (conn.on_commit_in_progress ≡ false)
    × (conn.pqconn ≡ true)

-- The fields that the clearing of cursors and the discarding of objects leave.
abbrev SameBits : Conn → Conn → Type 0
SameBits c d =
    (d.in_transaction ≡ c.in_transaction)
    × (d.in_error_before_idle ≡ c.in_error_before_idle)
    × (d.on_commit_in_progress ≡ c.on_commit_in_progress)
    × (d.pqconn ≡ c.pqconn)

cc_clear_cursors-SameBits :
    (on_abort : Bool) (alive : Name → Bool) (c : Conn)
    → SameBits c (cc_clear_cursors on_abort alive c)
unfolding cc_clear_cursors
cc_clear_cursors-SameBits on_abort alive c = ground arith

finish_rollback-SameBits : (undo : Bool) (c : Conn) → SameBits c (finish_rollback undo c)
finish_rollback-SameBits undo c = ground arith

cc_discard-SameBits : (c : Conn) → SameBits c (cc_discard_marked_objects c)
unfolding cc_discard_marked_objects
cc_discard-SameBits c = (refl, refl, refl, refl)

SameBits-trans : (a b c : Conn) → SameBits a b → SameBits b c → SameBits a c
SameBits-trans a b c (p, q, r, s) (p', q', r', s') = (p' ∙ p, q' ∙ q, r' ∙ r, s' ∙ s)

-- The part of `CC_on_commit` and of `CC_on_abort` behind the change of the bits.
finished-SameBits :
    (on_abort : Bool) (alive : Name → Bool) (undo : Bool) (c : Conn)
    → SameBits c (
        finish_rollback undo
          (cc_discard_marked_objects (cc_clear_cursors on_abort alive (cc_svp_init c))))
finished-SameBits on_abort alive undo c =
    let started = cc_svp_init c in
    let cleared = cc_clear_cursors on_abort alive started in
    let gone = cc_discard_marked_objects cleared in
    SameBits-trans c gone (finish_rollback undo gone)
      (SameBits-trans c cleared gone (cc_clear_cursors-SameBits on_abort alive started)
        (cc_discard-SameBits cleared))
      (finish_rollback-SameBits undo gone)

-- The bits of a connection that is outside of a transaction and works up no commit.
abbrev IsOutside : Conn → Type 0
IsOutside c =
    (c.in_transaction ≡ false)
    × (c.in_error_before_idle ≡ false)
    × (c.on_commit_in_progress ≡ false)
    × (c.pqconn ≡ true)

cc_on_commit-IsOutside :
    (alive : Name → Bool) (c : Conn)
    → IsSettled c
    → c.in_transaction ≡ true
    → IsOutside (cc_on_commit alive c)
unfolding cc_on_commit
cc_on_commit-IsOutside alive c (error, idle, connected) active =
    let out = cc_set_no_trans (record c { on_commit_in_progress = true }) in
    let (p, q, r, s) = finished-SameBits false alive false out in
    simp (cc_on_commit, idle, active) (p, q, refl, s ∙ connected)

cc_on_abort-IsOutside :
    (alive : Name → Bool) (c : Conn)
    → IsSettled c
    → c.in_transaction ≡ true
    → IsOutside (cc_on_abort alive false true c)
unfolding cc_on_abort
cc_on_abort-IsOutside alive c (error, idle, connected) active =
    let out = cc_set_no_trans c in
    let (p, q, r, s) = finished-SameBits true alive true out in
    simp (cc_on_abort, active) (p, q, r ∙ idle, s ∙ connected)

cc_on_abort_partial-SameBits : (c : Conn) → SameBits c (cc_on_abort_partial c)
unfolding cc_on_abort_partial cc_discard_marked_objects
cc_on_abort_partial-SameBits c = (refl, refl, refl, refl)

-- The phase, and that the connection is settled.
Reports : Conn → Phase → Type 0
Reports c p = (phase c ≡ p) × IsSettled c

IsOutside-Reports : (c : Conn) → IsOutside c → Reports c outside
unfolding Reports
IsOutside-Reports c (p, q, r, s) = (ground arith, (ground arith, r, s))

idle-Reports :
    (alive : Name → Bool) (c : Conn)
    → IsSettled c
    → Reports (update_of alive pqtrans_idle c) outside
unfolding update_of
idle-Reports alive c settled = elim (Bool-cases c.in_transaction) [
  | inr out ↦
      let (error, idle, connected) = settled in
      simp (update_of, out) (IsOutside-Reports c (out, ground arith, idle, connected))
  | inl active ↦ elim (Bool-cases c.in_error_before_idle) [
    | inl e ↦
        simp (update_of, active, e)
          (IsOutside-Reports (cc_on_abort alive false true c)
            (cc_on_abort-IsOutside alive c settled active))
    | inr e ↦
        simp (update_of, active, e)
          (IsOutside-Reports (cc_on_commit alive c) (cc_on_commit-IsOutside alive c settled active))
  ]
]

intrans-Reports :
    (alive : Name → Bool) (c : Conn)
    → IsSettled c
    → Reports (update_of alive pqtrans_intrans c) inside
unfolding update_of Reports
intrans-Reports alive c (error, idle, connected) = elim (Bool-cases c.in_error_before_idle) [
  | inl e ↦
      let back = record c { in_transaction = true; in_error_before_idle = false } in
      let (p, q, r, s) = cc_on_abort_partial-SameBits back in
      simp (update_of, e) (ground arith, (ground arith, r ∙ idle, s ∙ connected))
  | inr e ↦ simp (update_of, e) (ground arith, (ground arith, idle, connected))
]

update_of-Reports :
    (alive : Name → Bool) (status : PqStatus) (c : Conn)
    → IsSettled c
    → Reports (update_of alive status c) (phase_after status (phase c))
unfolding Reports update_of
update_of-Reports alive pqtrans_idle c settled = idle-Reports alive c settled
update_of-Reports alive pqtrans_intrans c settled = intrans-Reports alive c settled
update_of-Reports alive pqtrans_inerror c (error, idle, connected) = (refl, (refl, idle, connected))
update_of-Reports alive pqtrans_active c (error, idle, connected) =
    (ground arith, (refl, idle, connected))
update_of-Reports alive pqtrans_unknown c settled = (refl, settled)

-- A report of the server moves a settled connection to the phase that the report says, outside of a
-- transaction, in one, or in a failed one, whatever the cursors and the marked objects are; an active
-- or unknown status only makes sure that a transaction is on, or changes nothing. The connection is
-- settled again.
pub libpq_update_transaction_status-phase :
    (alive : Name → Bool) (status : PqStatus) (conn : Conn)
    → IsSettled conn
    → (phase (libpq_update_transaction_status alive status conn) ≡ phase_after status (phase conn))
      × IsSettled (libpq_update_transaction_status alive status conn)
unfolding Reports libpq_update_transaction_status
libpq_update_transaction_status-phase alive status conn settled =
    let (error, idle, connected) = settled in
    simp (libpq_update_transaction_status, connected) (update_of-Reports alive status conn settled)

-- After any reports in a row.
abbrev pub update_all : (Name → Bool) → List PqStatus → Conn → Conn
update_all alive [] conn = conn
update_all alive (s ∷ ss) conn = update_all alive ss (libpq_update_transaction_status alive s conn)

abbrev pub phase_after_all : List PqStatus → Phase → Phase
phase_after_all [] p = p
phase_after_all (s ∷ ss) p = phase_after_all ss (phase_after s p)

-- After any sequence of reports the connection is in the phase that the same reports make of the
-- phase before, and an error bit stands in a transaction only.
pub update_all-phase :
    (alive : Name → Bool) (statuses : List PqStatus) (conn : Conn)
    → IsSettled conn
    → (phase (update_all alive statuses conn) ≡ phase_after_all statuses (phase conn))
      × IsSettled (update_all alive statuses conn)
update_all-phase alive [] conn settled = (refl, settled)
update_all-phase alive (s ∷ ss) conn settled =
    let (same, settled') = libpq_update_transaction_status-phase alive s conn settled in
    let (later, done) =
      update_all-phase alive ss (libpq_update_transaction_status alive s conn) settled' in
    (later ∙ ap (phase_after_all ss) same, done)
