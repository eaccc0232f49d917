-- ===== src/Convert/Literal/Server.antt =====
-- A text parameter in a literal, as a server reads it that goes by the definitions of the character
-- sets with codes of two bytes.
use open_gauss_connector_odb.Base.{
  ℕ, suc, ◌<◌, ◌≡◌, refl, ◌∙◌, inl, inr, ◌==◌, Bool, true, false, not, ◌&&◌, ◌||◌, leb, List, [],
  ◌∷◌, ◌++◌, Option, none, some, length, arith, Bool-cases, if◌then◌else◌,
}
use open_gauss_connector_odb.Encoding.{CharacterSet, pg_cs_stat, pg_mb_maxlen}
use open_gauss_connector_odb.Encoding.TwoBytes.{
  leads, stands_alone, Text, finished, plain, wide, lead_nonnull, alone_nonnull, lead_stat,
  alone_stat, trail_stat, start_stat,
}
use open_gauss_connector_odb.Convert.Literal.{
  literal_quote, cc_get_escape, LiteralMode, is_special, starts, special_loop,
  convert_special_chars,
}
use open_gauss_connector_odb.Convert.Literal.Read.{keep}
use open_gauss_connector_odb.Convert.Literal.Steps.{loop-non_ascii, loop-kept, is_last-terminated}

-- The rule of the server for literals: a byte that begins a code of two bytes takes the next with it;
-- else a quote ends the literal unless another follows, and a backslash, where
-- standard_conforming_strings is off, has to be followed by another. `none` stands for a literal that
-- does not end, or for another use of the backslash.
unfoldable pub server_reads : CharacterSet → Bool → List ℕ → Option (List ℕ × List ℕ)
server_reads set conforming [] = none
server_reads set conforming (c ∷ []) =
    if not (leads set c) && c == literal_quote then some ([], []) else none
server_reads set conforming (c ∷ d ∷ r) =
    let one = server_reads set conforming (d ∷ r) in
    let two = server_reads set conforming r in
    if leads set c
    then keep c (keep d two)
    else if c == literal_quote
    then if d == literal_quote then keep c two else some ([], d ∷ r)
    else if not conforming && c == 0x5c
    then if d == 0x5c then keep c two else none
    else keep c one

alone_no_lead : (set : CharacterSet) (c : ℕ) → stands_alone set c ≡ true → leads set c ≡ false
alone_no_lead set c h = ground arith

quote_no_lead : (set : CharacterSet) → leads set literal_quote ≡ false
quote_no_lead set = ground arith

module _ (set : CharacterSet) (conforming : Bool) where
  -- The bytes that the server takes for more than themselves.
  abbrev is_marked : ℕ → Bool
  is_marked c = c == literal_quote || (not conforming && c == 0x5c)

  server-wide :
      (a b : ℕ) (r : List ℕ)
      → leads set a ≡ true
      → server_reads set conforming (a ∷ b ∷ r) ≡ keep a (keep b (server_reads set conforming r))
  unfolding server_reads
  server-wide a b r l = rw l refl

  server-keep :
      (c : ℕ) (r : List ℕ)
      → leads set c ≡ false
      → is_marked c ≡ false
      → server_reads set conforming (c ∷ r) ≡ keep c (server_reads set conforming r)
  unfolding server_reads
  server-keep c [] l s = rw l (ground arith)
  server-keep c (d ∷ r) l s = rw l (ground arith)

  server-twice :
      (c : ℕ) (r : List ℕ)
      → leads set c ≡ false
      → is_marked c ≡ true
      → server_reads set conforming (c ∷ c ∷ r) ≡ keep c (server_reads set conforming r)
  unfolding server_reads
  server-twice c r l s = rw l (ground arith)

  server-end :
      (rest : List ℕ)
      → starts literal_quote rest ≡ false
      → server_reads set conforming (literal_quote ∷ rest) ≡ some ([], rest)
  unfolding server_reads
  server-end [] h = rw (quote_no_lead set) refl
  server-end (d ∷ rest) h = rw (quote_no_lead set) (ground arith)

special_marked :
    (m : LiteralMode) (conforming : Bool) (c : ℕ)
    → m.escape ≡ cc_get_escape (some conforming)
    → m.double_special ≡ true
    → 0 < c
    → is_special m c ≡ (c == literal_quote || (not conforming && c == 0x5c))
special_marked m true c e d p = ground arith
special_marked m false c e d p = ground arith

module _ (m : LiteralMode) (conforming : Bool) (rest tail : List ℕ)
    (known : m.escape ≡ cc_get_escape (some conforming)) (doubles : m.double_special ≡ true)
    (unix : m.convlf ≡ false) (two : pg_mb_maxlen m.ccsc ≡ 2)
    (closed : starts literal_quote rest ≡ false) where
  Served : List ℕ → ℕ → Type 0
  Served bs stat =
      (out : List ℕ) × (special_loop m (length bs) stat (bs ++ 0 ∷ tail) ≡ some out)
      × (server_reads m.ccsc conforming (out ++ literal_quote ∷ rest) ≡ some (bs, rest))

  Served-high :
      (c : ℕ) (bs : List ℕ) (stat : ℕ)
      → stat < 2
      → stands_alone m.ccsc c ≡ true
      → leb 0x80 c ≡ true
      → Served bs 0
      → Served (c ∷ bs) stat
  unfolding Served
  Served-high c bs stat s a high (out, made, value) =
      let zero_stat = alone_stat m.ccsc stat c two s a in
      (
        c ∷ out,
        loop-non_ascii m (length bs) stat c (bs ++ 0 ∷ tail) (alone_nonnull m.ccsc c a)
              (is_last-terminated bs tail) (ground arith)
            ∙ rw (zero_stat, made) refl,
        server-keep m.ccsc conforming c (out ++ literal_quote ∷ rest) (alone_no_lead m.ccsc c a)
              (ground arith)
            ∙ rw value refl,
      )

  Served-low :
      (c : ℕ) (bs : List ℕ) (stat : ℕ)
      → stat < 2
      → stands_alone m.ccsc c ≡ true
      → leb 0x80 c ≡ false
      → Served bs 0
      → Served (c ∷ bs) stat
  unfolding Served
  Served-low c bs stat s a low (out, made, value) =
      let zero_stat = alone_stat m.ccsc stat c two s a in
      let no_lead = alone_no_lead m.ccsc c a in
      let agrees = special_marked m conforming c known doubles (alone_nonnull m.ccsc c a) in
      let step =
        loop-kept m (length bs) stat c (bs ++ 0 ∷ tail) (alone_nonnull m.ccsc c a)
          (is_last-terminated bs tail) (ground arith) (rw unix refl) in
      elim (Bool-cases (is_special m c)) [
        | inl e ↦ (
          c ∷ c ∷ out,
          step ∙ rw (e, zero_stat, made) refl,
          server-twice m.ccsc conforming c (out ++ literal_quote ∷ rest) no_lead (ground arith)
              ∙ rw value refl,
        )
        | inr e ↦ (
          c ∷ out,
          step ∙ rw (e, zero_stat, made) refl,
          server-keep m.ccsc conforming c (out ++ literal_quote ∷ rest) no_lead (ground arith)
              ∙ rw value refl,
        )
      ]

  Served-wide :
      (a b : ℕ) (bs : List ℕ) (stat : ℕ)
      → stat < 2
      → leads m.ccsc a ≡ true
      → 0 < b
      → Served bs 1
      → Served (a ∷ b ∷ bs) stat
  unfolding Served
  Served-wide a b bs stat s l q (out, made, value) =
      let lead : pg_cs_stat stat a m.ccsc ≡ 2 =
        start_stat m.ccsc two stat a s (lead_nonnull m.ccsc a l) ∙ lead_stat m.ccsc a l in
      let trail = trail_stat m.ccsc two b q in
      (
        a ∷ b ∷ out,
        loop-non_ascii m (suc (length bs)) stat a (b ∷ (bs ++ 0 ∷ tail)) (lead_nonnull m.ccsc a l)
              refl (rw lead refl)
            ∙ rw
                (
                  lead,
                  loop-non_ascii m (length bs) 2 b (bs ++ 0 ∷ tail) q (is_last-terminated bs tail)
                      (rw trail refl),
                  trail,
                  made,
                )
                refl,
        server-wide m.ccsc conforming a b (out ++ literal_quote ∷ rest) l ∙ rw value refl,
      )

  Served-Text : {bs ss : List ℕ} → Text m.ccsc bs ss → (stat : ℕ) → stat < 2 → Served bs stat
  unfolding Served special_loop
  Served-Text finished stat s = ([], refl, server-end m.ccsc conforming rest closed)
  Served-Text (plain {c} {bs} a t) stat s = elim (Bool-cases (leb 0x80 c)) [
    | inl high ↦ Served-high c bs stat s a high (Served-Text t 0 (omega arith))
    | inr low ↦ Served-low c bs stat s a low (Served-Text t 0 (omega arith))
  ]
  Served-Text (wide {a} {b} {bs} l q t) stat s =
      Served-wide a b bs stat s l q (Served-Text t 1 (omega arith))

-- A text in a character set with codes of two bytes at most is put into the query, outside a bind
-- request and without the conversion of line feeds, such that a server reads it after the opening
-- quote as the value: one that takes the two bytes of each code together, by the definition of the
-- set and not by the tables of the driver, and that takes a backslash for an escape where the
-- driver was told that standard_conforming_strings is off. It takes the next quote for the end of
-- the literal, whatever follows it other than a quote. The text is made of ASCII characters, the
-- half-width katakana of Shift JIS, and codes whose first byte is from 0x81 to 0x9f or 0xe0 to
-- 0xfc (Shift JIS), 0xa1 to 0xf9 (Big5), 0x81 to 0xfe (GBK, UHC) or 0xa1 to 0xfe (EUC_CN, EUC_KR),
-- with any second byte other than null; in Johab of ASCII characters only.
pub convert_special_chars-server_reads :
    (m : LiteralMode) (conforming : Bool) (query bs ss tail rest : List ℕ)
    → m.escape ≡ cc_get_escape (some conforming)
    → m.double_special ≡ true
    → m.convlf ≡ false
    → pg_mb_maxlen m.ccsc ≡ 2
    → starts literal_quote rest ≡ false
    → Text m.ccsc bs ss
    → (out : List ℕ) × (convert_special_chars m query (bs ++ 0 ∷ tail) (some (length bs))
        ≡ some (query ++ out))
      × (server_reads m.ccsc conforming (out ++ literal_quote ∷ rest) ≡ some (bs, rest))
unfolding convert_special_chars Served
convert_special_chars-server_reads m conforming query bs ss tail rest known doubles unix two closed
      t =
    let (out, made, value) =
      Served-Text m conforming rest tail known doubles unix two closed t 0 (omega arith) in
    (out, rw made refl, value)
