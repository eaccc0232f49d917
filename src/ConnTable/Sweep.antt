-- ===== src/ConnTable/Sweep.antt =====
-- What `EN_Destructor` leaves in the table.
use open_gauss_connector_odb.Base.{
  ℕ, ◌+◌, ◌≡◌, refl, ap, inl, inr, ◌==◌, Bool, true, List, [], ◌∷◌, Option, none, some, length, leb,
  if◌then◌else◌, arith, Bool-cases,
}
use open_gauss_connector_odb.ConnTable.{Table, sweep, en_destructor}
use open_gauss_connector_odb.ConnTable.Registered.{registered}

-- The connections of other environments.
unfoldable pub others : (ℕ → ℕ) → ℕ → List ℕ → List ℕ
others henv self [] = []
others henv self (c ∷ cs) =
    let rest = others henv self cs in if henv c == self then rest else c ∷ rest

module _ (destroy : ℕ → Bool) (all : (c : ℕ) → destroy c ≡ true) (henv : ℕ → ℕ) (self : ℕ) where
  sweep-others :
      (slots : List (Option ℕ))
      → (registered (sweep destroy henv self slots).0 ≡ others henv self (registered slots))
        × ((sweep destroy henv self slots).2 ≡ true)
        × ((sweep destroy henv self slots).1 + length (others henv self (registered slots))
            ≡ length slots)
  unfolding sweep others
  sweep-others [] = (refl, refl, refl)
  sweep-others (none ∷ slots) = let (r, t, n) = sweep-others slots in (r, t, omega (arith, n))
  sweep-others (some c ∷ slots) =
      let (r, t, n) = sweep-others slots in
      elim (Bool-cases (henv c == self)) [
        | inl own ↦ rw (own, all c) (r, t, omega (arith, n))
        | inr other ↦ rw other (ap (◌∷◌ c) r, t, omega (arith, n))
      ]

no-others : (cs : List ℕ) → length cs ≡ 0 → cs ≡ []
no-others [] e = refl
no-others (c ∷ cs) e = absurd (omega (arith, e))

-- If `CC_Destructor` succeeds for every connection, `EN_Destructor` succeeds, and in the table stay
-- just the connections of the other environments, in their order; the table is given back only when
-- there are none.
pub en_destructor-others :
    (destroy : ℕ → Bool)
    → ((c : ℕ) → destroy c ≡ true)
    → (t : Table) (self : ℕ)
    → ((en_destructor destroy t self).1 ≡ true)
      × (registered (en_destructor destroy t self).0.conns
          ≡ others t.henv self (registered t.conns))
unfolding en_destructor
en_destructor-others destroy all t self =
    let (r, ok, n) = sweep-others destroy all t.henv self t.conns in
    elim (Bool-cases (leb (length t.conns) (sweep destroy t.henv self t.conns).1)) [
      | inl empty ↦
          let gone = no-others (others t.henv self (registered t.conns)) (ground (arith, n)) in
          rw (empty, gone) (ok, refl)
      | inr kept ↦ rw kept (ok, r)
    ]
