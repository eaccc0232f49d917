-- ===== src/Keyset/Updated/Listed.antt =====
-- `AddUpdated` outside a transaction, for a row that is in the list already.
use open_gauss_connector_odb.Base.{
  ℕ, ◌≡◌, refl, ap, ◌⊎◌, inl, inr, Bool, true, false, List, [], ◌∷◌, none, some, map, arith,
  Bool-cases, Option-cases,
}
use open_gauss_connector_odb.Base.Int.{ℤ, eqb_ℤ}
use open_gauss_connector_odb.Keyset.{KeySet, Entry, QResult}
use open_gauss_connector_odb.Keyset.Navigate.{index_of}
use open_gauss_connector_odb.Keyset.Updated.{updated_status, change_last, add_updated}
use open_gauss_connector_odb.Keyset.Updated.Stored.{CanAdd}

-- An entry of the list is about the row.
abbrev pub Listed : ℤ → List Entry → Type 0
Listed index [] = ⊥
Listed index (e ∷ es) = (eqb_ℤ e.index index ≡ true) ⊎ Listed index es

same_indexes :
    (index : ℤ) (s : ℕ) (es es' : List Entry)
    → change_last index s es ≡ some es'
    → map index_of es' ≡ map index_of es
unfolding change_last
same_indexes index s [] es' e = absurd (ground (arith, e))
same_indexes index s (x ∷ es) es' e = elim (Option-cases (change_last index s es)) [
  | inr (es2, found) ↦
      let eq : x ∷ es2 ≡ es' = ground (arith, found, e) in
      rw (← eq) (ap (◌∷◌ x.index) (same_indexes index s es es2 found))
  | inl miss ↦ ground (arith, miss, e)
]

change_last-Listed :
    (index : ℤ) (s : ℕ) (es : List Entry)
    → Listed index es
    → (es' : List Entry) × (change_last index s es ≡ some es')
      × (map index_of es' ≡ map index_of es)
unfolding change_last
change_last-Listed index s [] l = elim l [ ]
change_last-Listed index s (e ∷ es) l = elim (Option-cases (change_last index s es)) [
  | inr (es', found) ↦
      (e ∷ es', rw found refl, ap (◌∷◌ e.index) (same_indexes index s es es' found))
  | inl miss ↦ elim l [
    | inl own ↦ (record e { key = record (e.key) { status = s } } ∷ es, rw (miss, own) refl, refl)
    | inr later ↦
        let (es', found, i) = change_last-Listed index s es later in
        absurd (ground (arith, miss, found))
  ]
]

-- Outside a transaction, `AddUpdated` of a row that is in the list already goes wrong where there are
-- updated tuples: it reaches for a tuple before the start of `added_tuples`. Without updated tuples
-- it gives a result whose list is about the same rows as before, and the counts are kept.
add_updated-Listed :
    (granted keyset_driven : Bool) (res : QResult) (index : ℤ) (keyset : KeySet)
    → CanAdd res
    → res.conn.in_trans ≡ false
    → Listed index res.updated
    → ((res.has_updated_tuples ≡ true)
        × (add_updated granted keyset_driven res index keyset ≡ none))
      ⊎ ((res' : QResult) × (add_updated granted keyset_driven res index keyset ≡ some res')
          × (map index_of res'.updated ≡ map index_of res.updated)
          × (res'.up_count ≡ res.up_count))
unfolding add_updated
add_updated-Listed granted keyset_driven res index keyset can t l =
    let s = updated_status res.conn.in_trans keyset.status in
    let (es, found, same) = change_last-Listed index s res.updated l in
    elim (Bool-cases res.has_updated_tuples) [
      | inl tuples ↦ inl (tuples, ground (arith, can.cursor, can.stored.room, t, found, tuples))
      | inr plain ↦ inr (
        record res { updated = es },
        ground (arith, can.cursor, can.stored.room, t, found, plain),
        same,
        refl,
      )
    ]
