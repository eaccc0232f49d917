-- ===== src/Parse/Quoted.antt =====
-- Quoted tokens: what `getNextToken` makes of a literal or of a quoted name.
use open_gauss_connector_odb.Base.{
  ℕ, zero, suc, ◌≤◌, ◌≡◌, refl, ap, ◌==◌, false, List, [], ◌∷◌, length, Option, none, some,
  if◌then◌else◌, arith, Bool-cases, inl, inr,
}
use open_gauss_connector_odb.Encoding.{CharacterSet, pg_cs_stat}
use open_gauss_connector_odb.Encoding.Walk.{NonNull}
use open_gauss_connector_odb.Convert.Literal.{is_non_ascii, literal_quote}
use open_gauss_connector_odb.Convert.Literal.Read.{keep, read_literal}
use open_gauss_connector_odb.Parse.{Quoting, quoted_loop}

-- The rule for quotes, character by character: a quote ends the token unless another follows, which
-- makes one quote of it. `none` stands for a token that does not end.
unfoldable pub read_quoted : CharacterSet → ℕ → ℕ → List ℕ → Option (List ℕ × List ℕ)
read_quoted set qc stat [] = none
read_quoted set qc stat (c ∷ []) =
    if is_non_ascii (pg_cs_stat stat c set) c then none else if c == qc then some ([], []) else none
read_quoted set qc stat (c ∷ d ∷ r) =
    let stat' = pg_cs_stat stat c set in
    let one = read_quoted set qc stat' (d ∷ r) in
    let two = read_quoted set qc (pg_cs_stat stat' d set) r in
    if is_non_ascii stat' c
    then keep c one
    else if c == qc
    then if d == qc then keep d two else some ([], d ∷ r)
    else keep c one

pub read_literal-read_quoted :
    (set : CharacterSet) (stat : ℕ) (text : List ℕ)
    → read_literal set 0 stat text ≡ read_quoted set literal_quote stat text
unfolding read_literal read_quoted
read_literal-read_quoted set stat [] = refl
read_literal-read_quoted set stat (c ∷ []) = refl
read_literal-read_quoted set stat (c ∷ d ∷ r) =
    let stat' = pg_cs_stat stat c set in
    let one = read_literal-read_quoted set stat' (d ∷ r) in
    let two = read_literal-read_quoted set (pg_cs_stat stat' d set) r in ground (arith, one, two)

-- What a read text with a first character kept has been read from.
pub keep-some :
    (c : ℕ) (o : Option (List ℕ × List ℕ)) (value rest : List ℕ)
    → keep c o ≡ some (value, rest)
    → (later : List ℕ) × (value ≡ c ∷ later) × (o ≡ some (later, rest))
keep-some c none value rest e = absurd (ground arith)
keep-some c (some (v, r)) value rest e = (v, ground arith, ground arith)

read_quoted-empty :
    (set : CharacterSet) (qc stat : ℕ) (text rest : List ℕ)
    → read_quoted set qc stat text ≡ some ([], rest)
    → text ≡ qc ∷ rest
unfolding read_quoted
read_quoted-empty set qc stat [] rest e = absurd (ground arith)
read_quoted-empty set qc stat (c ∷ []) rest e = ground arith
read_quoted-empty set qc stat (c ∷ d ∷ r) rest e =
    let stat' = pg_cs_stat stat c set in
    let one = keep-some c (read_quoted set qc stat' (d ∷ r)) [] rest in
    let two = keep-some d (read_quoted set qc (pg_cs_stat stat' d set) r) [] rest in
    elim (Bool-cases (is_non_ascii stat' c)) [
      | inl n ↦ let (v, x, y) = one (rw n at e) in absurd (ground arith)
      | inr n ↦ elim (Bool-cases (c == qc)) [
        | inr m ↦ let (v, x, y) = one (rw (n, m) at e) in absurd (ground arith)
        | inl m ↦ elim (Bool-cases (d == qc)) [
          | inl k ↦ let (v, x, y) = two (rw (n, m, k) at e) in absurd (ground arith)
          | inr k ↦
              let last : ◌≡◌ {A = Option (List ℕ × List ℕ)} (some ([], d ∷ r)) (some ([], rest)) =
                rw (n, m, k) at e in
              ground arith
        ]
      ]
    ]

abbrev pub quoting : CharacterSet → ℕ → Quoting
quoting set qc = record { qc = qc; in_dollar_quote = false; tag = []; escape = 0; ccsc = set }

-- What the loop makes of a token that the rule reads.
unfoldable pub Reads : CharacterSet → ℕ → ℕ → ℕ → ℕ → List ℕ → Type 0
Reads set qc room stat pos text =
    (value rest : List ℕ)
    → read_quoted set qc stat text ≡ some (value, rest)
    → length value ≤ room
    → NonNull value
    → quoted_loop (quoting set qc) room false stat pos text ≡ (value, (qc ∷ rest, qc))

module _ (set : CharacterSet) (qc : ℕ) where
  Reads-full : (stat pos : ℕ) (text : List ℕ) → Reads set qc 0 stat pos text
  unfolding Reads quoted_loop
  Reads-full stat pos text [] rest e h nn = rw (read_quoted-empty set qc stat text rest e) refl
  Reads-full stat pos text (v ∷ value) rest e h nn = absurd (omega (arith, h))

  -- No byte of a text is taken for an escape character.
  pub quoted_loop-Reads : (room stat pos : ℕ) (text : List ℕ) → Reads set qc room stat pos text
  unfolding Reads read_quoted quoted_loop
  quoted_loop-Reads zero stat pos text value rest e h nn =
      Reads-full stat pos text value rest e h nn
  quoted_loop-Reads (suc room) stat pos [] value rest e h nn = absurd (ground arith)
  quoted_loop-Reads (suc room) stat pos (c ∷ []) value rest e h nn = ground arith
  quoted_loop-Reads (suc room) stat pos (c ∷ d ∷ text) value rest e h nn =
      let stat' = pg_cs_stat stat c set in
      let one = keep-some c (read_quoted set qc stat' (d ∷ text)) value rest in
      let two = keep-some d (read_quoted set qc (pg_cs_stat stat' d set) text) value rest in
      let later = quoted_loop-Reads room stat' (suc pos) (d ∷ text) in
      let behind = quoted_loop-Reads room (pg_cs_stat stat' d set) (suc (suc pos)) text in
      elim (Bool-cases (is_non_ascii stat' c)) [
        | inl n ↦
            let (v, x, y) = one (rw n at e) in
            let (p, nn') = (rw x at nn) in
            let found = later v rest y (omega (arith, h, ap length x)) nn' in
            ground (arith, found, x)
        | inr n ↦ elim (Bool-cases (c == qc)) [
          | inr m ↦
              let (v, x, y) = one (rw (n, m) at e) in
              let (p, nn') = (rw x at nn) in
              let found = later v rest y (omega (arith, h, ap length x)) nn' in
              ground (arith, found, x)
          | inl m ↦ elim (Bool-cases (d == qc)) [
            | inl k ↦
                let (v, x, y) = two (rw (n, m, k) at e) in
                let (p, nn') = (rw x at nn) in
                let found = behind v rest y (omega (arith, h, ap length x)) nn' in
                ground (arith, found, x)
            | inr k ↦
                let last : ◌≡◌ {A = Option (List ℕ × List ℕ)} (some ([], d ∷ text))
                    (some (value, rest)) =
                  rw (n, m, k) at e in
                ground arith
          ]
        ]
      ]
