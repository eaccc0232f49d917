-- ===== src/Convert/Literal/Safe.antt =====
-- A text parameter in a literal, as the server reads it.
use open_gauss_connector_odb.Base.{
  ℕ, suc, ◌<◌, ◌≡◌, ◌≢◌, refl, sym, ap, ◌∙◌, inl, inr, ◌==◌, Bool, true, false, ◌&&◌, List, [], ◌∷◌,
  ◌++◌, Option, none, some, length, arith, Bool-cases,
}
use open_gauss_connector_odb.Encoding.{pg_cs_stat}
use open_gauss_connector_odb.Encoding.Walk.{NonNull}
use open_gauss_connector_odb.Unicode.Decode.{line_feed, carriage_return}
use open_gauss_connector_odb.Convert.Literal.{
  literal_quote, cc_get_escape, LiteralMode, is_non_ascii, is_special, starts, special_loop,
  convert_special_chars,
}
use open_gauss_connector_odb.Convert.Literal.Marks.{pg_cs_stat_ascii, pg_cs_stat_newline}
use open_gauss_connector_odb.Convert.Literal.Read.{
  read_literal, unix_text, last_stat, read_literal-keep, read_literal-twice, read_literal-end,
}
use open_gauss_connector_odb.Convert.Literal.Steps.{
  loop-non_ascii, loop-dropped, loop-kept, is_last-terminated, starts-terminated, is_special-agrees,
  is_non_ascii-false, unix_text-dropped,
}

module _ (m : LiteralMode) (doubles : m.double_special ≡ true) (rest tail : List ℕ)
    (closed : starts literal_quote rest ≡ false) where
  -- What the loop puts for a text, the server reads as the text and the rest.
  Reads : List ℕ → ℕ → Type 0
  Reads bs stat =
      (out : List ℕ) × (special_loop m (length bs) stat (bs ++ 0 ∷ tail) ≡ some out)
      × (read_literal m.ccsc m.escape stat (out ++ literal_quote ∷ rest)
          ≡ some (unix_text m.convlf m.ccsc stat bs, rest))

  Reads-non_ascii :
      (c : ℕ) (bs : List ℕ) (stat : ℕ)
      → 0 < c
      → is_non_ascii (pg_cs_stat stat c m.ccsc) c ≡ true
      → Reads bs (pg_cs_stat stat c m.ccsc)
      → Reads (c ∷ bs) stat
  unfolding Reads
  Reads-non_ascii c bs stat p n (out, made, value) = (
    c ∷ out,
    loop-non_ascii m (length bs) stat c (bs ++ 0 ∷ tail) p (is_last-terminated bs tail) n ∙ rw made,
    read_literal-keep m.ccsc m.escape stat c (out ++ literal_quote ∷ rest) (inl n)
        ∙ rw value (ground arith),
  )

  Reads-special :
      (c : ℕ) (bs : List ℕ) (stat : ℕ)
      → 0 < c
      → is_non_ascii (pg_cs_stat stat c m.ccsc) c ≡ false
      → (m.convlf && (c == carriage_return && starts line_feed bs)) ≡ false
      → is_special m c ≡ true
      → Reads bs (pg_cs_stat stat c m.ccsc)
      → Reads (c ∷ bs) stat
  unfolding Reads
  Reads-special c bs stat p n e s (out, made, value) =
      let (zero_stat, low) = is_non_ascii-false _ _ n in
      (
        c ∷ c ∷ out,
        loop-kept m (length bs) stat c (bs ++ 0 ∷ tail) p (is_last-terminated bs tail) n
              (rw (starts-terminated bs tail) e)
            ∙ rw (s, made),
        read_literal-twice m.ccsc m.escape stat c (out ++ literal_quote ∷ rest) zero_stat low
              (sym (is_special-agrees m c doubles p) ∙ s)
            ∙ ground (arith, value),
      )

  Reads-plain :
      (c : ℕ) (bs : List ℕ) (stat : ℕ)
      → 0 < c
      → is_non_ascii (pg_cs_stat stat c m.ccsc) c ≡ false
      → (m.convlf && (c == carriage_return && starts line_feed bs)) ≡ false
      → is_special m c ≡ false
      → Reads bs (pg_cs_stat stat c m.ccsc)
      → Reads (c ∷ bs) stat
  unfolding Reads
  Reads-plain c bs stat p n e s (out, made, value) = (
    c ∷ out,
    loop-kept m (length bs) stat c (bs ++ 0 ∷ tail) p (is_last-terminated bs tail) n
          (rw (starts-terminated bs tail) e)
        ∙ rw (s, made),
    read_literal-keep m.ccsc m.escape stat c (out ++ literal_quote ∷ rest)
          (inr (sym (is_special-agrees m c doubles p) ∙ s))
        ∙ ground (arith, value),
  )

  -- The loop drops the carriage return, and the server gets the line feed in the status before.
  Reads-dropped :
      (c : ℕ) (bs : List ℕ) (stat : ℕ)
      → c ≡ carriage_return
      → m.convlf ≡ true
      → m.escape ≢ line_feed
      → pg_cs_stat stat c m.ccsc ≡ 0
      → Reads bs 0
      → Reads (c ∷ line_feed ∷ bs) stat
  unfolding Reads
  Reads-dropped c bs stat here lf other z (out, made, value) =
      let at_feed = pg_cs_stat_ascii line_feed m.ccsc (omega arith) in
      let at_stat : pg_cs_stat stat line_feed m.ccsc ≡ 0 =
        rw (pg_cs_stat_newline stat m.ccsc, sym here) z in
      let text = unix_text-dropped m.convlf m.ccsc stat c bs lf here z in
      (
        line_feed ∷ out,
        loop-dropped m (suc (length bs)) stat c (line_feed ∷ (bs ++ 0 ∷ tail)) (omega arith) refl
              (ground arith) (ground arith)
            ∙ rw
                (
                  z,
                  loop-kept m (length bs) 0 line_feed (bs ++ 0 ∷ tail) (omega arith)
                      (is_last-terminated bs tail) (ground arith) (ground arith),
                  at_feed,
                  made,
                )
                (ground arith),
        read_literal-keep m.ccsc m.escape stat line_feed (out ++ literal_quote ∷ rest)
              (inr (ground arith))
            ∙ rw (at_stat, value) (ap (λ v. some (v, rest)) (sym text)),
      )

escape-other : (o : Option Bool) → cc_get_escape o ≢ line_feed
escape-other none = omega arith
escape-other (some true) = omega arith
escape-other (some false) = omega arith

dropped-facts :
    (m : LiteralMode) (c d : ℕ) (bs : List ℕ)
    → (m.convlf && (c == carriage_return && starts line_feed (d ∷ bs))) ≡ true
    → (m.convlf ≡ true) × (c ≡ carriage_return) × (d ≡ line_feed)
dropped-facts m c d bs e = ground arith

module _ (m : LiteralMode) (o : Option Bool) (known : m.escape ≡ cc_get_escape o)
    (doubles : m.double_special ≡ true) (rest tail : List ℕ)
    (closed : starts literal_quote rest ≡ false) where
  -- At a byte that stands for itself and is not dropped.
  Reads-kept :
      (c : ℕ) (bs : List ℕ) (stat : ℕ)
      → 0 < c
      → is_non_ascii (pg_cs_stat stat c m.ccsc) c ≡ false
      → (m.convlf && (c == carriage_return && starts line_feed bs)) ≡ false
      → Reads m doubles rest tail closed bs (pg_cs_stat stat c m.ccsc)
      → Reads m doubles rest tail closed (c ∷ bs) stat
  Reads-kept c bs stat p n e later = elim (Bool-cases (is_special m c)) [
    | inl s ↦ Reads-special m doubles rest tail closed c bs stat p n e s later
    | inr s ↦ Reads-plain m doubles rest tail closed c bs stat p n e s later
  ]

  Reads-all :
      (bs : List ℕ) (stat : ℕ)
      → NonNull bs
      → pg_cs_stat (last_stat m.ccsc stat bs) literal_quote m.ccsc ≡ 0
      → Reads m doubles rest tail closed bs stat
  unfolding Reads special_loop
  Reads-all [] stat nn last = ([], refl, read_literal-end m.ccsc m.escape stat rest last closed)
  Reads-all (c ∷ []) stat (p, nn) last =
      elim (Bool-cases (is_non_ascii (pg_cs_stat stat c m.ccsc) c)) [
        | inl n ↦ Reads-non_ascii m doubles rest tail closed c [] stat p n (Reads-all [] _ nn last)
        | inr n ↦ Reads-kept c [] stat p n (ground arith) (Reads-all [] _ nn last)
      ]
  Reads-all (c ∷ d ∷ bs) stat (p, (q, nn)) last =
      elim (Bool-cases (is_non_ascii (pg_cs_stat stat c m.ccsc) c)) [
        | inl n ↦
            Reads-non_ascii m doubles rest tail closed c (d ∷ bs) stat p n
              (Reads-all (d ∷ bs) _ (q, nn) last)
        | inr n ↦
            elim (Bool-cases (m.convlf && (c == carriage_return && starts line_feed (d ∷ bs)))) [
              | inr e ↦ Reads-kept c (d ∷ bs) stat p n e (Reads-all (d ∷ bs) _ (q, nn) last)
              | inl e ↦
                  let (z, low) = is_non_ascii-false _ _ n in
                  let (lf, here, feed) = dropped-facts m c d bs e in
                  rw feed (
                    Reads-dropped m doubles rest tail closed c bs stat here lf
                      (rw known (escape-other o)) z
                      (Reads-all bs 0 nn
                        (rw (z, feed, pg_cs_stat_ascii line_feed m.ccsc (omega arith)) at last)))
            ]
      ]

-- In every character set and for every escape character that the driver takes from the connection:
-- a text that does not end within a character is put into the query such that the server, after the
-- opening quote, reads the text as the value, without the carriage returns before line feeds where
-- these are converted, and takes the next quote for the end of the literal, whatever follows it
-- other than a quote.
pub convert_special_chars-read_literal :
    (m : LiteralMode) (o : Option Bool) (query bs tail rest : List ℕ)
    → m.escape ≡ cc_get_escape o
    → m.double_special ≡ true
    → NonNull bs
    → pg_cs_stat (last_stat m.ccsc 0 bs) literal_quote m.ccsc ≡ 0
    → starts literal_quote rest ≡ false
    → (out : List ℕ) × (convert_special_chars m query (bs ++ 0 ∷ tail) (some (length bs))
        ≡ some (query ++ out))
      × (read_literal m.ccsc m.escape 0 (out ++ literal_quote ∷ rest)
          ≡ some (unix_text m.convlf m.ccsc 0 bs, rest))
unfolding convert_special_chars Reads
convert_special_chars-read_literal m o query bs tail rest known doubles nn last closed =
    let (out, made, value) = Reads-all m o known doubles rest tail closed bs 0 nn last in
    (out, rw made, value)
