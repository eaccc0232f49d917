-- ===== src/Strings/Bounds.antt =====
-- The bounds of `quote_table`.
use open_gauss_connector_odb.Base.{
  ℕ, suc, ◌+◌, ◌≤◌, ◌≡◌, refl, ap, inl, inr, List, [], ◌∷◌, ◌++◌, Option, none, some, length,
  length-append, ltb, arith, Bool-cases,
}
use open_gauss_connector_odb.Strings.{quote_name, quote_schema, quote_table}

-- Starting at least `margin` before the end, the loop ends at most one character behind that.
length-quote_name :
    (buf_size margin i : ℕ) (name : List ℕ)
    → i + margin ≤ suc buf_size
    → i + length (quote_name buf_size margin i name) + margin ≤ suc buf_size
unfolding quote_name
length-quote_name buf_size margin i [] h = omega arith
length-quote_name buf_size margin i (c ∷ name) h = elim (Bool-cases (ltb (i + margin) buf_size)) [
  | inl e ↦ ground (
    arith,
    length-quote_name buf_size margin (suc i) name (ground arith),
    length-quote_name buf_size margin (suc (suc i)) name (ground arith),
  )
  | inr e ↦ ground arith
]

length-quote_schema :
    (schema : Option (List ℕ)) (buf_size : ℕ)
    → 6 ≤ buf_size
    → length (quote_schema schema buf_size) + 3 ≤ buf_size
unfolding quote_schema
length-quote_schema none buf_size h = omega arith
length-quote_schema (some schema) buf_size h =
    let name = quote_name buf_size 6 1 schema in
    omega (
      arith,
      length-quote_name buf_size 6 1 schema (omega arith),
      length-append name (b'"' ∷ b'.' ∷ []),
    )

pub quote_table-names :
    (schema : Option (List ℕ)) (table : List ℕ) (buf_size : ℕ)
    → quote_table schema table buf_size
      ≡ quote_schema schema buf_size
        ++ b'"'
          ∷ (quote_name buf_size 3 (suc (length (quote_schema schema buf_size))) table ++ b'"' ∷ [])
unfolding quote_table
quote_table-names schema table buf_size = refl

-- With a buffer of at least six characters, what `quote_table` puts ends, with its null, within the
-- buffer, however long the names are.
pub length-quote_table :
    (schema : Option (List ℕ)) (table : List ℕ) (buf_size : ℕ)
    → 6 ≤ buf_size
    → suc (length (quote_table schema table buf_size)) ≤ buf_size
length-quote_table schema table buf_size h =
    let before = quote_schema schema buf_size in
    let start = suc (length before) in
    let room = length-quote_schema schema buf_size h in
    let name = quote_name buf_size 3 start table in
    omega (
      arith,
      length-quote_name buf_size 3 start table (omega arith),
      ap length (quote_table-names schema table buf_size),
      length-append before (b'"' ∷ (name ++ b'"' ∷ [])),
      length-append name (b'"' ∷ []),
    )
