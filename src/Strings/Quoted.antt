-- ===== src/Strings/Quoted.antt =====
-- The names that `quote_table` writes, read again.
use mathlib.Core.List.{append_assoc, append-nil}
use open_gauss_connector_odb.Base.{
  ℕ, suc, ◌+◌, ◌*◌, ◌≤◌, ◌≡◌, refl, sym, ap, ◌∙◌, inl, inr, ◌==◌, true, false, ◌&&◌, List, [], ◌∷◌,
  ◌++◌, Option, none, some, length, length-append, ltb, if◌then◌else◌, arith, Bool-cases,
}
use open_gauss_connector_odb.Convert.Literal.{starts}
use open_gauss_connector_odb.Convert.Literal.Read.{keep}
use open_gauss_connector_odb.Strings.{quote_name, quote_schema, quote_table}
use open_gauss_connector_odb.Strings.Bounds.{quote_table-names}

-- The rule for quoted names: a quote ends the name unless another follows, which makes one quote of
-- the name. What follows the name is given too; `none` stands for a name that does not end.
unfoldable pub read_name : List ℕ → Option (List ℕ × List ℕ)
read_name [] = none
read_name (c ∷ []) = if c == b'"' then some ([], []) else none
read_name (c ∷ d ∷ text) =
    let one = read_name (d ∷ text) in
    let two = read_name text in
    if c == b'"' then if d == b'"' then keep c two else some ([], d ∷ text) else keep c one

after_schema : List ℕ → List ℕ → Option (Option (List ℕ) × List ℕ)
after_schema name [] = some (none, name)
after_schema name (c ∷ []) = none
after_schema name (c ∷ d ∷ text) =
    if c == b'.' && d == b'"'
    then elim (read_name text) [
      | none ↦ none
      | some (table, []) ↦ some (some name, table)
      | some (table, d ∷ ds) ↦ none
    ]
    else none

-- A quoted name, or two with a dot between them.
unfoldable pub read_qualified : List ℕ → Option (Option (List ℕ) × List ℕ)
unfolding after_schema
read_qualified [] = none
read_qualified (c ∷ text) =
    if c == b'"'
    then elim (read_name text) [ none ↦ none | some (name, rest) ↦ after_schema name rest ]
    else none

read_name-once :
    (c : ℕ) (text : List ℕ) → (c == b'"') ≡ false → read_name (c ∷ text) ≡ keep c (read_name text)
unfolding read_name
read_name-once c [] h = ground arith
read_name-once c (d ∷ text) h = ground arith

read_name-twice :
    (c : ℕ) (text : List ℕ)
    → (c == b'"') ≡ true
    → read_name (c ∷ b'"' ∷ text) ≡ keep c (read_name text)
unfolding read_name
read_name-twice c text h = ground arith

read_name-end :
    (after : List ℕ) → starts b'"' after ≡ false → read_name (b'"' ∷ after) ≡ some ([], after)
unfolding read_name
read_name-end [] h = refl
read_name-end (d ∷ after) h = ground arith

-- The name is read as far as it has been put, and wholly where it fits with all quotes doubled.
unfoldable pub ReadBack : ℕ → ℕ → ℕ → List ℕ → Type 0
ReadBack buf_size margin i name =
    (front : List ℕ) × (left : List ℕ) × (front ++ left ≡ name)
    × ((after : List ℕ)
        → starts b'"' after ≡ false
        → read_name (quote_name buf_size margin i name ++ b'"' ∷ after) ≡ some (front, after))
    × (i + 2 * length name + margin ≤ suc buf_size → left ≡ [])

pub quote_name-ReadBack : (buf_size margin i : ℕ) (name : List ℕ) → ReadBack buf_size margin i name
unfolding ReadBack quote_name
quote_name-ReadBack buf_size margin i [] = ([], [], refl, read_name-end, λ h. refl)
quote_name-ReadBack buf_size margin i (c ∷ name) = elim (Bool-cases (ltb (i + margin) buf_size)) [
  | inr e ↦ ([], c ∷ name, refl, rw e read_name-end, λ h. absurd (ground arith))
  | inl e ↦ elim (Bool-cases (c == b'"')) [
    | inl q ↦
        let (front, left, parts, reads, fits) =
          quote_name-ReadBack buf_size margin (suc (suc i)) name in
        (
          c ∷ front,
          left,
          ap (◌∷◌ c) parts,
          λ after h. rw (e, q) (read_name-twice c _ q ∙ rw (reads after h) refl),
          λ h. fits (omega arith),
        )
    | inr q ↦
        let (front, left, parts, reads, fits) = quote_name-ReadBack buf_size margin (suc i) name in
        (
          c ∷ front,
          left,
          ap (◌∷◌ c) parts,
          λ after h. rw (e, q) (read_name-once c _ q ∙ rw (reads after h) refl),
          λ h. fits (omega arith),
        )
  ]
]

length-quote_name-doubled :
    (buf_size margin i : ℕ) (name : List ℕ)
    → length (quote_name buf_size margin i name) ≤ 2 * length name
unfolding quote_name
length-quote_name-doubled buf_size margin i [] = omega arith
length-quote_name-doubled buf_size margin i (c ∷ name) = ground (
  arith,
  length-quote_name-doubled buf_size margin (suc i) name,
  length-quote_name-doubled buf_size margin (suc (suc i)) name,
)

quote_schema-name :
    (schema : List ℕ) (buf_size : ℕ)
    → quote_schema (some schema) buf_size
      ≡ b'"' ∷ (quote_name buf_size 6 1 schema ++ b'"' ∷ b'.' ∷ [])
unfolding quote_schema
quote_schema-name schema buf_size = refl

quote_table-both :
    (schema table : List ℕ) (buf_size : ℕ)
    → quote_table (some schema) table buf_size
      ≡ b'"'
        ∷ (quote_name buf_size 6 1 schema
            ++ b'"'
              ∷ b'.'
              ∷ b'"'
              ∷ (quote_name buf_size 3 (suc (length (quote_schema (some schema) buf_size))) table
                  ++ b'"' ∷ []))
unfolding quote_schema
quote_table-both schema table buf_size =
    quote_table-names (some schema) table buf_size
    ∙ ap (◌∷◌ b'"') (append_assoc (quote_name buf_size 6 1 schema) (b'"' ∷ b'.' ∷ []) _)

read_qualified-both :
    (first second s t : List ℕ)
    → read_name (first ++ b'"' ∷ b'.' ∷ b'"' ∷ second) ≡ some (s, b'.' ∷ b'"' ∷ second)
    → read_name second ≡ some (t, [])
    → read_qualified (b'"' ∷ (first ++ b'"' ∷ b'.' ∷ b'"' ∷ second)) ≡ some (some s, t)
unfolding read_qualified
read_qualified-both first second s t e f = rw (e, f) refl

read_both :
    (schema table : List ℕ) (buf_size : ℕ)
    → (s : List ℕ) × (s_left : List ℕ) × (t : List ℕ) × (t_left : List ℕ) × (read_qualified
          (quote_table (some schema) table buf_size)
        ≡ some (some s, t))
      × (s ++ s_left ≡ schema)
      × (t ++ t_left ≡ table)
      × (2 * length schema + 6 ≤ buf_size → s_left ≡ [])
      × (2 * length schema + 2 * length table + 6 ≤ buf_size → t_left ≡ [])
unfolding ReadBack
read_both schema table buf_size =
    let first = quote_name buf_size 6 1 schema in
    let start = suc (length (quote_schema (some schema) buf_size)) in
    let second = quote_name buf_size 3 start table ++ b'"' ∷ [] in
    let (s, s_left, s_parts, s_reads, s_fits) = quote_name-ReadBack buf_size 6 1 schema in
    let (t, t_left, t_parts, t_reads, t_fits) = quote_name-ReadBack buf_size 3 start table in
    (
      s,
      s_left,
      t,
      t_left,
      rw (quote_table-both schema table buf_size) (
          read_qualified-both first second s t (s_reads (b'.' ∷ b'"' ∷ second) refl)
            (t_reads [] refl)),
      s_parts,
      t_parts,
      λ h. s_fits (omega arith),
      λ h. t_fits (
          omega (
            arith,
            length-quote_name-doubled buf_size 6 1 schema,
            length-append first (b'"' ∷ b'.' ∷ []),
            ap length (quote_schema-name schema buf_size),
          )),
    )

read_table :
    (table : List ℕ) (buf_size : ℕ)
    → (t : List ℕ) × (t_left : List ℕ) × (read_qualified (quote_table none table buf_size)
        ≡ some (none, t))
      × (t ++ t_left ≡ table)
      × (2 * length table + 3 ≤ buf_size → t_left ≡ [])
unfolding quote_table quote_schema ReadBack read_qualified
read_table table buf_size =
    let (t, t_left, parts, reads, fits) = quote_name-ReadBack buf_size 3 1 table in
    (t, t_left, rw (reads [] refl) refl, parts, λ h. fits (omega arith))

-- A schema is read where one was given, and as a front part of it.
abbrev pub IsFront : Option (List ℕ) → Option (List ℕ) → Type 0
IsFront none none = Unit
IsFront none (some s) = ⊥
IsFront (some schema) none = ⊥
IsFront (some schema) (some s) = (left : List ℕ) × (s ++ left ≡ schema)

-- The characters that a schema takes at most, with its quotes and the dot.
abbrev pub schema_room : Option (List ℕ) → ℕ
schema_room none = 0
schema_room (some schema) = 2 * length schema + 3

-- What `quote_table` writes, with a schema or without one, is read as the names that it was given:
-- the schema, if any, and the table, each as far as it fits, so that no name ends its quotes; a name
-- is whole where it fits with two characters for each of its own.
pub read_qualified-quote_table :
    (schema : Option (List ℕ)) (table : List ℕ) (buf_size : ℕ)
    → (s : Option (List ℕ)) × (t : List ℕ) × (t_left : List ℕ) × (read_qualified
          (quote_table schema table buf_size)
        ≡ some (s, t))
      × IsFront schema s
      × (t ++ t_left ≡ table)
      × (schema_room schema + 3 ≤ buf_size → s ≡ schema)
      × (schema_room schema + 2 * length table + 3 ≤ buf_size → t_left ≡ [])
read_qualified-quote_table none table buf_size =
    let (t, t_left, reads, parts, fits) = read_table table buf_size in
    (none, t, t_left, reads, tt, parts, λ h. refl, λ h. fits (omega arith))
read_qualified-quote_table (some schema) table buf_size =
    let (s, s_left, t, t_left, reads, s_parts, t_parts, s_fits, t_fits) =
      read_both schema table buf_size in
    (
      some s,
      t,
      t_left,
      reads,
      (s_left, s_parts),
      t_parts,
      λ h. ap some (whole s s_left schema s_parts (s_fits (omega arith))),
      λ h. t_fits (omega arith),
    )
  where
    whole : (s left name : List ℕ) → s ++ left ≡ name → left ≡ [] → s ≡ name
    whole s left name parts none_left = sym (append-nil s) ∙ rw none_left at parts
