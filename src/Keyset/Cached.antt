-- ===== src/Keyset/Cached.antt =====
-- `ClearCachedRows`, `ReplaceCachedRows` and `MoveCachedRows` (results.c): the cached fields of rows and
-- the memory blocks that they own. A block goes by its address; the calls of `free` are listed. The
-- two arrays of a call are taken to share no field and no block.
use open_gauss_connector_odb.Base.{
  ℕ, suc, ◌≡◌, refl, ap, inl, inr, List, [], ◌∷◌, Option, none, some, map, length, Option-cases,
}
use open_gauss_connector_odb.Base.Int.{ℤ, negsuc}

-- `struct TupleField_`
pub record TupleField : Type 0 where
  pub len : ℤ  -- Int4
  pub value : Option ℕ  -- `none` for a null pointer

-- The block of a field, if it has one.
abbrev pub block : Option ℕ → List ℕ → List ℕ
block none rest = rest
block (some p) rest = p ∷ rest

-- The blocks that are freed, the fields afterwards, and the number of fields.
pub record Cleared : Type 0 where
  pub freed : List ℕ
  pub fields : List TupleField
  pub count : ℕ

-- `ClearCachedRows` on the `num_fields * num_rows` fields at `tuple`
unfoldable pub clear_cached_rows : List TupleField → Cleared
clear_cached_rows [] = record { freed = []; fields = []; count = 0 }
clear_cached_rows (f ∷ fs) =
    let rest = clear_cached_rows fs in
    record {
      freed = block f.value rest.freed;
      fields = record { len = negsuc 0; value = none } ∷ rest.fields;
      count = suc rest.count;
    }

-- The field at `otuple` and that at `ituple`.
pub record Both : Type 0 where
  pub otuple : TupleField
  pub ituple : TupleField

pub record Copied : Type 0 where
  pub freed : List ℕ
  pub fields : List Both
  pub count : ℕ

-- `strdup` gives the address of a copy, or none without memory.
module _ (strdup : ℕ → Option ℕ) where
  unfoldable pub replaced : TupleField → TupleField
  replaced i = elim i.value [
    | none ↦ record { len = negsuc 0; value = none }
    | some p ↦ elim (strdup p) [
      | none ↦ record { len = negsuc 0; value = none }
      | some q ↦ record { len = i.len; value = some q }
    ]
  ]

  -- `ReplaceCachedRows`
  unfoldable pub replace_cached_rows : List Both → Copied
  replace_cached_rows [] = record { freed = []; fields = []; count = 0 }
  replace_cached_rows (b ∷ bs) =
      let rest = replace_cached_rows bs in
      record {
        freed = block b.otuple.value rest.freed;
        fields = record { otuple = replaced b.ituple; ituple = b.ituple } ∷ rest.fields;
        count = suc rest.count;
      }

-- `MoveCachedRows`
unfoldable pub move_cached_rows : List Both → Copied
move_cached_rows [] = record { freed = []; fields = []; count = 0 }
move_cached_rows (b ∷ bs) =
    let rest = move_cached_rows bs in
    record {
      freed = block b.otuple.value rest.freed;
      fields =
          record { otuple = b.ituple; ituple = record { len = negsuc 0; value = none } }
          ∷ rest.fields;
      count = suc rest.count;
    }

-- The blocks that fields own, in their order.
abbrev pub owned : List TupleField → List ℕ
owned [] = []
owned (f ∷ fs) = block f.value (owned fs)

abbrev pub otuple_of : Both → TupleField
otuple_of b = b.otuple

abbrev pub ituple_of : Both → TupleField
ituple_of b = b.ituple

-- `MoveCachedRows` frees just the blocks of the fields it overwrites, each once; the blocks of the
-- other fields pass to these, which become equal to the others; and clearing what is left there
-- frees nothing, so that no block is freed twice.
pub move_cached_rows-owned :
    (bs : List Both)
    → ((move_cached_rows bs).freed ≡ owned (map otuple_of bs))
      × (map otuple_of (move_cached_rows bs).fields ≡ map ituple_of bs)
      × ((clear_cached_rows (map ituple_of (move_cached_rows bs).fields)).freed ≡ [])
      × ((move_cached_rows bs).count ≡ length bs)
unfolding move_cached_rows clear_cached_rows
move_cached_rows-owned [] = (refl, refl, refl, refl)
move_cached_rows-owned (b ∷ bs) =
    let (f, o, i, n) = move_cached_rows-owned bs in
    (ap (block b.otuple.value) f, ap (◌∷◌ b.ituple) o, i, ap (λ k. suc k) n)

-- What the fields hold, with `read` for the memory.
abbrev pub contents : (ℕ → List ℕ) → List TupleField → List (Option (List ℕ))
contents read [] = []
contents read (f ∷ fs) = elim f.value [ none ↦ none | some p ↦ some (read p) ] ∷ contents read fs

-- If every `strdup` succeeds and makes a copy with the same contents, `ReplaceCachedRows` frees just
-- the blocks of the fields it overwrites, which then hold what the others hold, field by field; the
-- others are left as they are.
replace_cached_rows-contents :
    (strdup : ℕ → Option ℕ) (read : ℕ → List ℕ)
    → ((p : ℕ) → (q : ℕ) × (strdup p ≡ some q) × (read q ≡ read p))
    → (bs : List Both)
    → ((replace_cached_rows strdup bs).freed ≡ owned (map otuple_of bs))
      × (contents read (map otuple_of (replace_cached_rows strdup bs).fields)
          ≡ contents read (map ituple_of bs))
      × (map ituple_of (replace_cached_rows strdup bs).fields ≡ map ituple_of bs)
unfolding replace_cached_rows replaced
replace_cached_rows-contents strdup read dup [] = (refl, refl, refl)
replace_cached_rows-contents strdup read dup (b ∷ bs) =
    let (f, c, i) = replace_cached_rows-contents strdup read dup bs in
    elim (Option-cases b.ituple.value) [
      | inl null ↦
          (ap (block b.otuple.value) f, rw null (ap (λ cs. none ∷ cs) c), ap (◌∷◌ b.ituple) i)
      | inr (p, held) ↦
          let (q, copied, same) = dup p in
          (
            ap (block b.otuple.value) f,
            rw (held, copied, same) (ap (λ cs. some (read p) ∷ cs) c),
            ap (◌∷◌ b.ituple) i,
          )
    ]
