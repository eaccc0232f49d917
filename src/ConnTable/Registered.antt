-- ===== src/ConnTable/Registered.antt =====
-- Which connections are in the table after `EN_add_connection` and `EN_remove_connection`.
use open_gauss_connector_odb.Base.{
  ℕ, zero, suc, ◌-◌, ◌*◌, ◌≡◌, ◌≢◌, refl, ap, ◌∙◌, inl, inr, Bool, true, false, List, [], ◌∷◌, ◌++◌,
  Option, none, some, length, ltb, if◌then◌else◌, arith, Option-cases, replicate,
}
use mathlib.Core.Path.{subst}
use open_gauss_connector_odb.ConnTable.{
  Table, init_conn_count, put_first, enlarged, en_add_connection, clear_first, en_remove_connection,
  set_henv,
}

-- The connections in the table, in the order of their slots.
abbrev pub registered : List (Option ℕ) → List ℕ
registered [] = []
registered (none ∷ slots) = registered slots
registered (some c ∷ slots) = c ∷ registered slots

abbrev pub Absent : ℕ → List ℕ → Type 0
Absent conn [] = Unit
Absent conn (c ∷ cs) = (c ≢ conn) × Absent conn cs

-- One more connection, at some place.
pub data Inserted (conn : ℕ) : List ℕ → List ℕ → Type 0 where
  here : {cs : List ℕ} → Inserted conn cs (conn ∷ cs)
  behind : {c : ℕ} {cs ds : List ℕ} → Inserted conn cs ds → Inserted conn (c ∷ cs) (c ∷ ds)

registered-replicate : (n : ℕ) → registered (replicate n none) ≡ []
registered-replicate zero = refl
registered-replicate (suc n) = registered-replicate n

registered-append :
    (xs ys : List (Option ℕ)) → registered (xs ++ ys) ≡ registered xs ++ registered ys
registered-append [] ys = refl
registered-append (none ∷ xs) ys = registered-append xs ys
registered-append (some c ∷ xs) ys = ap (◌∷◌ c) (registered-append xs ys)

some_eq : {x y : List (Option ℕ)} → some x ≡ some y → x ≡ y
some_eq e = ground (arith, e)

put_first-Inserted :
    (conn : ℕ) (slots : List (Option ℕ)) {slots' : List (Option ℕ)}
    → put_first conn slots ≡ some slots'
    → Inserted conn (registered slots) (registered slots')
unfolding put_first
put_first-Inserted conn [] e = absurd (ground (arith, e))
put_first-Inserted conn (none ∷ slots) e =
    subst (λ s. Inserted conn (registered slots) (registered s)) (some_eq e) here
put_first-Inserted conn (some c ∷ slots) e = elim (Option-cases (put_first conn slots)) [
  | inl full ↦ absurd (ground (arith, full, e))
  | inr (s, found) ↦
      subst (λ s. Inserted conn (c ∷ registered slots) (registered s)) (some_eq (rw found at e))
        (behind (put_first-Inserted conn slots found))
]

registered-enlarged :
    (conn : ℕ) (slots : List (Option ℕ))
    → registered (enlarged conn slots) ≡ registered slots ++ conn ∷ []
unfolding enlarged
registered-enlarged conn slots =
    let free =
      (if ltb 0 (length slots) then 2 * length slots else init_conn_count) - length slots - 1 in
    registered-append slots (some conn ∷ replicate free none)
    ∙ ap (λ r. registered slots ++ conn ∷ r) (registered-replicate free)

Inserted-last : (conn : ℕ) (cs : List ℕ) → Inserted conn cs (cs ++ conn ∷ [])
Inserted-last conn [] = here
Inserted-last conn (c ∷ cs) = behind (Inserted-last conn cs)

-- What `EN_add_connection` gives with the new slots.
abbrev placed : Table → ℕ → ℕ → List (Option ℕ) → Table × Bool
placed t self conn slots = (record t { conns = slots; henv = set_henv t.henv conn self }, true)

en_add_connection-placed :
    (t : Table) (self conn : ℕ)
    → (slots : List (Option ℕ)) × (en_add_connection true t self conn ≡ placed t self conn slots)
      × Inserted conn (registered t.conns) (registered slots)
unfolding en_add_connection
en_add_connection-placed t self conn = elim (Option-cases (put_first conn t.conns)) [
  | inl full ↦ (
    enlarged conn t.conns,
    rw (full, en_add_connection) refl,
    rw registered-enlarged (Inserted-last conn (registered t.conns)),
  )
  | inr (s, found) ↦ (s, rw (found, en_add_connection) refl, put_first-Inserted conn t.conns found)
]

set_henv_same : (henv : ℕ → ℕ) (conn self : ℕ) → set_henv henv conn self conn ≡ self
set_henv_same henv conn self = ground arith

set_henv_other : (henv : ℕ → ℕ) (conn self c : ℕ) → c ≢ conn → set_henv henv conn self c ≡ henv c
set_henv_other henv conn self c ne = ground arith

-- With memory granted `EN_add_connection` succeeds: one more connection is in the table, at some
-- place among the others, and none of these is lost or moved before another; it belongs to the
-- environment, and the other connections belong where they did.
en_add_connection-Inserted :
    (t : Table) (self conn : ℕ)
    → ((en_add_connection true t self conn).1 ≡ true)
      × Inserted conn (registered t.conns) (registered (en_add_connection true t self conn).0.conns)
      × ((en_add_connection true t self conn).0.henv conn ≡ self)
      × ((c : ℕ) → c ≢ conn → (en_add_connection true t self conn).0.henv c ≡ t.henv c)
en_add_connection-Inserted t self conn =
    let (slots, e, added) = en_add_connection-placed t self conn in
    rw e (refl, added, set_henv_same t.henv conn self, λ c ne. set_henv_other t.henv conn self c ne)

clear_first-replicate :
    (executing : ℕ → Bool) (conn n : ℕ) → clear_first executing conn (replicate n none) ≡ none
unfolding clear_first
clear_first-replicate executing conn zero = refl
clear_first-replicate executing conn (suc n) =
    ground (arith, clear_first-replicate executing conn n)

-- A connection that is in the table once is taken out, and the others stay as they are.
clear_first-Inserted :
    (executing : ℕ → Bool) (conn : ℕ) (slots : List (Option ℕ)) (cs : List ℕ)
    → executing conn ≡ false
    → Absent conn cs
    → Inserted conn cs (registered slots)
    → (slots' : List (Option ℕ)) × (clear_first executing conn slots ≡ some slots')
      × (registered slots' ≡ cs)
unfolding clear_first
clear_first-Inserted executing conn [] cs idle absent i = elim i [ ]
clear_first-Inserted executing conn (none ∷ slots) cs idle absent i =
    let (s, e, r) = clear_first-Inserted executing conn slots cs idle absent i in
    (none ∷ s, rw e refl, r)
clear_first-Inserted executing conn (some c ∷ slots) cs idle absent here =
    (none ∷ slots, ground (arith, idle), refl)
clear_first-Inserted executing conn (some c ∷ slots) cs idle absent (behind {cs = ds} i) =
    let (ne, absent') = absent in
    let (s, e, r) = clear_first-Inserted executing conn slots ds idle absent' i in
    (some c ∷ s, ground (arith, e, ne), ap (◌∷◌ c) r)

-- `EN_remove_connection` takes back `EN_add_connection`: for a connection that was not in the table
-- and is not executing, it succeeds and leaves the connections that were there before.
pub en_remove_connection-en_add_connection :
    (t : Table) (self conn : ℕ)
    → Absent conn (registered t.conns)
    → t.executing conn ≡ false
    → ((en_remove_connection (en_add_connection true t self conn).0 conn).1 ≡ true)
      × (registered (en_remove_connection (en_add_connection true t self conn).0 conn).0.conns
          ≡ registered t.conns)
unfolding en_remove_connection
en_remove_connection-en_add_connection t self conn absent idle =
    let (slots, e, added) = en_add_connection-placed t self conn in
    let (s, found, r) =
      clear_first-Inserted t.executing conn slots (registered t.conns) idle absent added in
    rw (e, en_remove_connection, found) (refl, r)
