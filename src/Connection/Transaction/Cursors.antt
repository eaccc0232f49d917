-- ===== src/Connection/Transaction/Cursors.antt =====
-- The cursors of a connection at the end of a transaction.
use open_gauss_connector_odb.Base.{
  ℕ, ◌+◌, ◌≡◌, refl, ap, ◌∙◌, inl, inr, Bool, true, false, List, [], ◌∷◌, Option, none, some,
  if◌then◌else◌, arith, Bool-cases,
}
use open_gauss_connector_odb.Base.Int.{ℤ, pos, ◌-ℤ◌, sub_pos, eqb_ℤ}
use open_gauss_connector_odb.Connection.Transaction.{
  Name, CursorResult, Conn, drop_cursor, clear_cursor, clear_slot, clear_slots, cc_clear_cursors,
}

-- One for a name, and for a slot with a cursor.
abbrev pub count_name : Option Name → ℕ
count_name none = 0
count_name (some name) = 1

abbrev pub cursors_in : Option CursorResult → ℕ
cursors_in none = 0
cursors_in (some res) = count_name res.cursor_name

abbrev pub cursors_of : List (Option CursorResult) → ℕ
cursors_of [] = 0
cursors_of (slot ∷ slots) = cursors_in slot + cursors_of slots

-- A slot whose cursor, if it has one, is held over the end of transactions, and known to be.
abbrev pub IsLasting : Option CursorResult → Type 0
IsLasting none = Unit
IsLasting (some res) = elim res.cursor_name [
  | none ↦ Unit
  | some name ↦ (res.withhold ≡ true) × (res.permanent ≡ true)
]

abbrev pub AreLasting : List (Option CursorResult) → Type 0
AreLasting [] = Unit
AreLasting (slot ∷ slots) = IsLasting slot × AreLasting slots

-- What the body of the loop makes of a slot.
Cleared : Option CursorResult → Option CursorResult → Bool → Type 0
Cleared slot slot' dropped =
    IsLasting slot' × (cursors_in slot ≡ cursors_in slot' + (if dropped then 1 else 0))

abbrev cursor_result : Option Name → Bool → Bool → Bool → ℤ → List (Option Name) → CursorResult
cursor_result name withhold permanent survival_check tuple next = record {
  cursor_name = name;
  withhold = withhold;
  permanent = permanent;
  survival_check = survival_check;
  curs_tuple = tuple;
  next = next;
}

cursor_result-Cleared :
    (on_abort : Bool) (alive : Name → Bool) (o : Option Name) (w p s : Bool) (t : ℤ)
    (next : List (Option Name))
    → let slot = some (cursor_result o w p s t next) in
      Cleared slot ((clear_slot on_abort alive slot).0) ((clear_slot on_abort alive slot).2)
unfolding Cleared clear_slot clear_cursor drop_cursor
cursor_result-Cleared on_abort alive none w p s t next = (tt, refl)
cursor_result-Cleared true alive (some name) w false s t next = (tt, refl)
cursor_result-Cleared false alive (some name) false false s t next = (tt, refl)
cursor_result-Cleared false alive (some name) true false false t next = ((refl, refl), refl)
cursor_result-Cleared false alive (some name) true false true t next =
    elim (Bool-cases (alive name)) [
      | inl e ↦ rw (clear_cursor, e) ((refl, refl), refl)
      | inr e ↦ rw (clear_cursor, e) (tt, refl)
    ]
cursor_result-Cleared true alive (some name) false true s t next = (tt, refl)
cursor_result-Cleared false alive (some name) false true s t next = (tt, refl)
cursor_result-Cleared true alive (some name) true true s t next = ((refl, refl), refl)
cursor_result-Cleared false alive (some name) true true s t next = ((refl, refl), refl)

clear_slot-Cleared :
    (on_abort : Bool) (alive : Name → Bool) (slot : Option CursorResult)
    → Cleared slot ((clear_slot on_abort alive slot).0) ((clear_slot on_abort alive slot).2)
unfolding Cleared clear_slot
clear_slot-Cleared on_abort alive none = (tt, refl)
clear_slot-Cleared on_abort alive (some res) =
    cursor_result-Cleared on_abort alive res.cursor_name res.withhold res.permanent
      res.survival_check res.curs_tuple res.next

count_left :
    (dropped : Bool) (n : ℤ) (before here extra rest : ℕ)
    → n ≡ pos (before + rest + extra)
    → before ≡ here + (if dropped then 1 else 0)
    → (if dropped then n -ℤ pos 1 else n) ≡ pos (rest + (here + extra))
count_left true n before here extra rest h e =
    rw h (sub_pos (before + rest + extra) 1 (omega arith) ∙ ap pos (omega arith))
count_left false n before here extra rest h e = h ∙ ap pos (omega arith)

clear_slots-Cleared :
    (on_abort : Bool) (alive : Name → Bool) (extra : ℕ) (n : ℤ) (slots : List (Option CursorResult))
    → n ≡ pos (cursors_of slots + extra)
    → let (left, slots', sent) = clear_slots on_abort alive n slots in
      AreLasting slots' × (left ≡ pos (cursors_of slots' + extra))
unfolding clear_slots Cleared
clear_slots-Cleared on_abort alive extra n [] h = (tt, h)
clear_slots-Cleared on_abort alive extra n (slot ∷ slots) h =
    let (lasting, fewer) = clear_slot-Cleared on_abort alive slot in
    let dropped = (clear_slot on_abort alive slot).2 in
    let here = cursors_in ((clear_slot on_abort alive slot).0) in
    let left = if dropped then n -ℤ pos 1 else n in
    let counted : left ≡ pos (cursors_of slots + (here + extra)) =
      count_left dropped n (cursors_in slot) here extra (cursors_of slots) h fewer in
    let (later, same) = clear_slots-Cleared on_abort alive (here + extra) left slots counted in
    ((lasting, later), same ∙ ap pos (omega arith))

parts_zero : (n : ℤ) (m : ℕ) → n ≡ pos m → eqb_ℤ n (pos 0) ≡ true → m ≡ 0
parts_zero n m h e = ground arith

none_here :
    (o : Option Name) (withhold permanent : Bool)
    → count_name o ≡ 0
    → elim o as (λ o. Type 0) [ none ↦ Unit | some name ↦ (withhold ≡ true) × (permanent ≡ true) ]
none_here none withhold permanent h = tt
none_here (some name) withhold permanent h = absurd (omega arith)

AreLasting-none : (slots : List (Option CursorResult)) → cursors_of slots ≡ 0 → AreLasting slots
AreLasting-none [] h = tt
AreLasting-none (none ∷ slots) h = (tt, AreLasting-none slots (omega arith))
AreLasting-none (some res ∷ slots) h = (
  none_here res.cursor_name res.withhold res.permanent (ground arith),
  AreLasting-none slots (omega arith),
)

-- Where the counter of the connection counts its cursors, and `extra` others, the end of a
-- transaction leaves no cursor but those that are held over it and known to be, whatever the server
-- answers for them, and the counter still counts what is left.
pub cc_clear_cursors-AreLasting :
    (on_abort : Bool) (alive : Name → Bool) (conn : Conn) (extra : ℕ)
    → conn.ncursors ≡ pos (cursors_of conn.results + extra)
    → AreLasting ((cc_clear_cursors on_abort alive conn).results)
      × ((cc_clear_cursors on_abort alive conn).ncursors
          ≡ pos (cursors_of ((cc_clear_cursors on_abort alive conn).results) + extra))
unfolding cc_clear_cursors
cc_clear_cursors-AreLasting on_abort alive conn extra h =
    elim (Bool-cases (eqb_ℤ conn.ncursors (pos 0))) [
      | inl e ↦
          let nothing : cursors_of conn.results ≡ 0 =
            omega (arith, parts_zero conn.ncursors (cursors_of conn.results + extra) h e) in
          simp (cc_clear_cursors, e) (AreLasting-none conn.results nothing, h)
      | inr e ↦
          simp (cc_clear_cursors, e)
            (clear_slots-Cleared on_abort alive extra conn.ncursors conn.results h)
    ]
