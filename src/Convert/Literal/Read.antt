-- ===== src/Convert/Literal/Read.antt =====
-- What the server reads of a literal that the driver has written: the value, and what follows.
use open_gauss_connector_odb.Base.{
  ℕ, ◌<◌, ◌≡◌, ◌⊎◌, ◌==◌, Bool, true, false, not, ◌&&◌, ◌||◌, List, [], ◌∷◌, Option, none, some,
  if◌then◌else◌, arith,
}
use open_gauss_connector_odb.Encoding.{CharacterSet, pg_cs_stat}
use open_gauss_connector_odb.Unicode.Decode.{line_feed, carriage_return}
use open_gauss_connector_odb.Convert.Literal.{literal_quote, is_non_ascii, starts}
use open_gauss_connector_odb.Convert.Literal.Marks.{pg_cs_stat_ascii}

abbrev pub keep : ℕ → Option (List ℕ × List ℕ) → Option (List ℕ × List ℕ)
keep c none = none
keep c (some (value, rest)) = some (c ∷ value, rest)

-- The rule for literals, character by character in the character set of the client: a quote ends
-- the literal unless another follows, which makes one quote of the value; the escape character, if
-- it is not null, has to be followed by another, which makes one of the value. `none` stands for a
-- literal that does not end, or for another use of the escape character.
unfoldable pub read_literal : CharacterSet → ℕ → ℕ → List ℕ → Option (List ℕ × List ℕ)
read_literal set escape stat [] = none
read_literal set escape stat (c ∷ []) =
    if is_non_ascii (pg_cs_stat stat c set) c
    then none
    else if c == literal_quote
    then some ([], [])
    else none
read_literal set escape stat (c ∷ d ∷ r) =
    let stat' = pg_cs_stat stat c set in
    let one = read_literal set escape stat' (d ∷ r) in
    let two = read_literal set escape (pg_cs_stat stat' d set) r in
    if is_non_ascii stat' c
    then keep c one
    else if c == literal_quote
    then if d == literal_quote then keep c two else some ([], d ∷ r)
    else if not (escape == 0) && c == escape
    then if d == escape then keep c two else none
    else keep c one

-- The value that a text stands for: the text, or where line feeds are converted, the text without
-- the carriage returns before line feeds.
abbrev pub unix_text : Bool → CharacterSet → ℕ → List ℕ → List ℕ
unix_text convlf set stat [] = []
unix_text convlf set stat (c ∷ cs) =
    let stat' = pg_cs_stat stat c set in
    let rest = unix_text convlf set stat' cs in
    if convlf && (stat' == 0 && (c == carriage_return && starts line_feed cs))
    then rest
    else c ∷ rest

-- The status at the end of a text.
abbrev pub last_stat : CharacterSet → ℕ → List ℕ → ℕ
last_stat set stat [] = stat
last_stat set stat (c ∷ cs) = last_stat set (pg_cs_stat stat c set) cs

module _ (set : CharacterSet) (escape : ℕ) where
  pub read_literal-keep :
      (stat c : ℕ) (r : List ℕ)
      → (is_non_ascii (pg_cs_stat stat c set) c ≡ true)
        ⊎ ((c == literal_quote || (not (escape == 0) && c == escape)) ≡ false)
      → read_literal set escape stat (c ∷ r)
        ≡ keep c (read_literal set escape (pg_cs_stat stat c set) r)
  unfolding read_literal
  read_literal-keep stat c [] h = ground arith
  read_literal-keep stat c (d ∷ r) h = ground arith

  pub read_literal-twice :
      (stat c : ℕ) (r : List ℕ)
      → pg_cs_stat stat c set ≡ 0
      → c < 0x80
      → (c == literal_quote || (not (escape == 0) && c == escape)) ≡ true
      → read_literal set escape stat (c ∷ c ∷ r) ≡ keep c (read_literal set escape 0 r)
  unfolding read_literal
  read_literal-twice stat c r z h s = ground (arith, pg_cs_stat_ascii c set)

  pub read_literal-end :
      (stat : ℕ) (rest : List ℕ)
      → pg_cs_stat stat literal_quote set ≡ 0
      → starts literal_quote rest ≡ false
      → read_literal set escape stat (literal_quote ∷ rest) ≡ some ([], rest)
  unfolding read_literal
  read_literal-end stat [] z s = ground arith
  read_literal-end stat (d ∷ r) z s = ground arith
