-- ===== src/Connection/Slots/Kept.antt =====
-- Adding a statement and removing it.
use open_gauss_connector_odb.Base.{
  ℕ, suc, ◌+◌, ◌-◌, ◌<◌, ◌≤◌, ◌^◌, ◌≡◌, refl, ap, ◌∙◌, ◌⊎◌, inl, inr, Bool, true, false, ◌&&◌, [],
  ◌∷◌, ◌++◌, none, some, length, replicate, ltb, if◌then◌else◌, arith, Bool-cases,
}
use open_gauss_connector_odb.Base.Int.{pos, to_i16, to_i16-pos, ltb_ℤ}
use open_gauss_connector_odb.Connection.Slots.{
  Slots, stmt_increment, fill_slot, cc_add_statement, holds_stmt, cc_remove_statement,
}

-- How often a statement stands in the slots.
abbrev pub count_of : ℕ → Slots → ℕ
count_of stmt [] = 0
count_of stmt (s ∷ stmts) =
    if holds_stmt stmt s then suc (count_of stmt stmts) else count_of stmt stmts

-- A fresh statement is put to an empty slot, or there is none.
Fills : ℕ → Slots → Type 0
Fills stmt stmts =
    (fill_slot stmt stmts ≡ none)
    ⊎ ((filled : Slots) × (fill_slot stmt stmts ≡ some filled)
        × (cc_remove_statement filled stmt false ≡ (stmts, true))
        × (count_of stmt filled ≡ 1))

not_first :
    (stmt s : ℕ) (stmts : Slots)
    → count_of stmt (some s ∷ stmts) ≡ 0
    → (holds_stmt stmt (some s) ≡ false) × (count_of stmt stmts ≡ 0)
not_first stmt s stmts fresh = ground arith

holds-same : (stmt : ℕ) → holds_stmt stmt (some stmt) ≡ true
holds-same stmt = ground arith

fill_slot-Fills : (stmt : ℕ) (stmts : Slots) → count_of stmt stmts ≡ 0 → Fills stmt stmts
unfolding Fills fill_slot cc_remove_statement
fill_slot-Fills stmt [] fresh = inl refl
fill_slot-Fills stmt (none ∷ stmts) fresh = inr (
  some stmt ∷ stmts,
  refl,
  rw (cc_remove_statement, holds-same stmt) refl,
  rw (holds-same stmt) (ap suc fresh),
)
fill_slot-Fills stmt (some s ∷ stmts) fresh =
    let (other, later) = not_first stmt s stmts fresh in
    elim (fill_slot-Fills stmt stmts later) [
      | inl e ↦ inl (rw (fill_slot, e) refl)
      | inr (filled, e, removed, once) ↦ inr (
        some s ∷ filled,
        rw (fill_slot, e) refl,
        rw (cc_remove_statement, other, removed) refl,
        rw other once,
      )
    ]

remove-appended :
    (stmt : ℕ) (stmts more : Slots)
    → count_of stmt stmts ≡ 0
    → cc_remove_statement (stmts ++ some stmt ∷ more) stmt false ≡ (stmts ++ none ∷ more, true)
unfolding cc_remove_statement
remove-appended stmt [] more fresh = rw (cc_remove_statement, holds-same stmt) refl
remove-appended stmt (none ∷ stmts) more fresh =
    rw (cc_remove_statement, remove-appended stmt stmts more fresh) refl
remove-appended stmt (some s ∷ stmts) more fresh =
    let (other, later) = not_first stmt s stmts fresh in
    rw (cc_remove_statement, other, remove-appended stmt stmts more later) refl

count_of-append :
    (stmt : ℕ) (xs ys : Slots) → count_of stmt (xs ++ ys) ≡ count_of stmt xs + count_of stmt ys
count_of-append stmt [] ys = omega arith
count_of-append stmt (s ∷ xs) ys = ground (arith, count_of-append stmt xs ys)

-- The next size of the table is positive where it fits into an Int2.
grows : (n : ℕ) → n < 2 ^ 15 - 16 → ltb_ℤ (pos 0) (to_i16 (pos (stmt_increment + n))) ≡ true
grows n h = rw (to_i16-pos (stmt_increment + n) (omega arith)) (ground arith)

refused :
    (stmts : Slots) (realloc : Bool)
    → (ltb_ℤ (pos 0) (to_i16 (pos (stmt_increment + length stmts))) && realloc) ≡ false
    → (realloc ≡ false) ⊎ (32752 ≤ length stmts)
refused stmts realloc f = elim (Bool-cases (ltb (length stmts) 32752)) [
  | inl e ↦ inl (rw (grows (length stmts) (ground arith)) at f)
  | inr e ↦ inr (ground arith)
]

-- A statement that is not in the table is put there once, and removing it gives the table again, but
-- for empty slots behind it; or it is refused and the table stays, which happens only where no slot
-- is empty, and there is no memory or the table has 32752 slots.
pub cc_remove_statement-cc_add_statement :
    (stmts : Slots) (stmt : ℕ) (realloc : Bool)
    → count_of stmt stmts ≡ 0
    → let (added, ret) = cc_add_statement stmts stmt realloc in
      ((ret ≡ true)
        × (count_of stmt added ≡ 1)
        × ((cc_remove_statement added stmt false ≡ (stmts, true))
            ⊎ (cc_remove_statement added stmt false
                ≡ (stmts ++ replicate stmt_increment none, true))))
      ⊎ ((ret ≡ false)
          × (added ≡ stmts)
          × (fill_slot stmt stmts ≡ none)
          × ((realloc ≡ false) ⊎ (32752 ≤ length stmts)))
unfolding cc_add_statement Fills
cc_remove_statement-cc_add_statement stmts stmt realloc fresh =
    elim (fill_slot-Fills stmt stmts fresh) [
      | inr (filled, e, removed, once) ↦ rw (cc_add_statement, e) (inl (refl, once, inl removed))
      | inl e ↦
          let room = ltb_ℤ (pos 0) (to_i16 (pos (stmt_increment + length stmts))) && realloc in
          elim (Bool-cases room) [
            | inl f ↦
                rw (cc_add_statement, e, f)
                  (inl (
                    refl,
                    count_of-append stmt stmts (some stmt ∷ replicate (stmt_increment - 1) none)
                        ∙ rw (fresh, holds-same stmt) refl,
                    inr (remove-appended stmt stmts (replicate (stmt_increment - 1) none) fresh),
                  ))
            | inr f ↦ rw (cc_add_statement, e, f) (inr (refl, refl, refl, refused stmts realloc f))
          ]
    ]
