-- ===== src/Tests/Cached.antt =====
-- The theorems on cached fields, at concrete inputs.
use open_gauss_connector_odb.Base.{ℕ, ◌≡◌, List, [], ◌∷◌, Option, none, some, map}
use open_gauss_connector_odb.Base.Int.{pos, negsuc}
use open_gauss_connector_odb.Keyset.Cached.{
  TupleField, Both, otuple_of, ituple_of, clear_cached_rows, move_cached_rows,
  move_cached_rows-owned,
}

abbrev field_at : ℕ → TupleField
field_at p = record { len = pos 3; value = some p }

abbrev null_field : TupleField
null_field = record { len = negsuc 0; value = none }

abbrev rows : List Both
rows =
    record { otuple = field_at 1; ituple = field_at 2 }
    ∷ record { otuple = field_at 3; ituple = null_field }
    ∷ []

move_cached_rows-owned_example :
    ((move_cached_rows rows).freed ≡ 1 ∷ 3 ∷ [])
    × (map otuple_of (move_cached_rows rows).fields ≡ field_at 2 ∷ null_field ∷ [])
    × ((clear_cached_rows (map ituple_of (move_cached_rows rows).fields)).freed ≡ [])
    × ((move_cached_rows rows).count ≡ 2)
move_cached_rows-owned_example = move_cached_rows-owned rows

abbrev dup : ℕ → Option ℕ
dup p = some p

abbrev text_at : ℕ → List ℕ
text_at p = 0x41 ∷ []
