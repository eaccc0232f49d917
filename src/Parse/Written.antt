-- ===== src/Parse/Written.antt =====
-- What other parts of the driver put into a statement, read by `getNextToken`: a text parameter
-- (`convert_special_chars` of convert.c) and a quoted name (`quote_table` of misc.c).
use mathlib.Core.List.{append-nil, append_assoc}
use open_gauss_connector_odb.Base.{
  ℕ, ◌+◌, ◌*◌, ◌-◌, ◌≤◌, ◌<◌, ◌≡◌, refl, ap, sym, ◌∙◌, ◌==◌, ◌||◌, not, Bool, true, false, List, [],
  ◌∷◌, ◌++◌, length, none, some, leb, arith, Bool-cases, inl, inr,
}
use open_gauss_connector_odb.Encoding.{CharacterSet, pg_cs_stat}
use open_gauss_connector_odb.Encoding.Walk.{NonNull}
use open_gauss_connector_odb.Convert.Literal.{
  is_non_ascii, literal_quote, starts, LiteralMode, convert_special_chars,
}
use open_gauss_connector_odb.Convert.Literal.Read.{unix_text, last_stat}
use open_gauss_connector_odb.Convert.Literal.Marks.{pg_cs_stat_ascii}
use open_gauss_connector_odb.Convert.Literal.Safe.{convert_special_chars-read_literal}
use open_gauss_connector_odb.Convert.Numeric.{isspace, skip_space}
use open_gauss_connector_odb.Strings.{quote_name, quote_schema, quote_table}
use open_gauss_connector_odb.Strings.Quoted.{read_name, ReadBack, quote_name-ReadBack}
use open_gauss_connector_odb.Parse.{
  behind_quote, identifier_quote, take_literal, take_identifier, Taken, take_token, token_at,
  NextToken, next_token, get_next_token, delim_of, skip_delimiters, literal_escape, literal_ext,
}
use open_gauss_connector_odb.Parse.Bounds.{skip_space-skip_space}
use open_gauss_connector_odb.Parse.Quoted.{
  read_quoted, read_literal-read_quoted, keep-some, Reads, quoted_loop-Reads,
}

-- A token in quotes, and what is left.
abbrev pub quoted_token : Bool → List ℕ → List ℕ → NextToken
quoted_token dquote token rest =
    next_token
      (record {
        token = token;
        rest = skip_space rest;
        quote = not dquote;
        dquote = dquote;
        numeric = false;
      })
      (delim_of (skip_space rest))

pub unix_text-NonNull :
    (convlf : Bool) (set : CharacterSet) (stat : ℕ) (bs : List ℕ)
    → NonNull bs
    → NonNull (unix_text convlf set stat bs)
unix_text-NonNull convlf set stat [] nn = tt
unix_text-NonNull convlf set stat (c ∷ bs) (p, nn) =
    let later = unix_text-NonNull convlf set (pg_cs_stat stat c set) bs nn in
    ground (arith, p, later)

-- The bytes at which quoted tokens start.
take_token-literal_quote :
    (set : CharacterSet) (smax before : ℕ) (text : List ℕ)
    → (before == literal_ext) ≡ false
    → take_token set 0 smax before literal_quote text ≡ take_literal set 0 smax text
unfolding take_token literal_escape
take_token-literal_quote set smax before text b =
    rw (pg_cs_stat_ascii literal_quote set (omega arith), b) refl

take_token-identifier_quote :
    (set : CharacterSet) (escape smax before : ℕ) (text : List ℕ)
    → take_token set escape smax before identifier_quote text ≡ take_identifier set smax text
unfolding take_token
take_token-identifier_quote set escape smax before text =
    rw (pg_cs_stat_ascii identifier_quote set (omega arith)) refl

-- The end of `getNextToken`, behind a token.
ended_twice : Taken → NextToken
ended_twice t =
    next_token (record t { rest = skip_space (skip_space t.rest) }) (delim_of (skip_space t.rest))

ended : Taken → NextToken
ended t = next_token (record t { rest = skip_space t.rest }) (delim_of (skip_space t.rest))

get_next_token-taken :
    (set : CharacterSet) (escape smax before c : ℕ) (text : List ℕ) (t : Taken)
    → take_token set escape (smax - 1) before c text ≡ t
    → 1 < smax
    → (isspace c || c == b',') ≡ false
    → get_next_token set escape smax before (c ∷ text) ≡ ended t
unfolding get_next_token token_at skip_delimiters ended ended_twice
get_next_token-taken set escape smax before c text t e h start =
    let room : leb smax 1 ≡ false = ground arith in
    rw (room, start) (ap ended_twice e ∙ rw (skip_space-skip_space t.rest) refl)

module _ (set : CharacterSet) where
  take_literal-read_quoted :
      (smax : ℕ) (text value rest : List ℕ)
      → read_quoted set literal_quote 0 text ≡ some (value, rest)
      → length value ≤ smax
      → NonNull value
      → take_literal set 0 smax text
        ≡ record { token = value; rest = rest; quote = true; dquote = false; numeric = false }
  unfolding take_literal Reads behind_quote
  take_literal-read_quoted smax text value rest e h nn =
      rw (quoted_loop-Reads set literal_quote smax 0 1 text value rest e h nn) refl

  take_identifier-read_quoted :
      (smax : ℕ) (text value rest : List ℕ)
      → read_quoted set identifier_quote 0 text ≡ some (value, rest)
      → length value ≤ smax
      → NonNull value
      → take_identifier set smax text
        ≡ record { token = value; rest = rest; quote = false; dquote = true; numeric = false }
  unfolding take_identifier Reads behind_quote
  take_identifier-read_quoted smax text value rest e h nn =
      rw (quoted_loop-Reads set identifier_quote smax 0 1 text value rest e h nn) refl

  get_next_token-literal :
      (smax before : ℕ) (text value rest : List ℕ)
      → read_quoted set literal_quote 0 text ≡ some (value, rest)
      → 1 < smax
      → length value < smax
      → NonNull value
      → (before == literal_ext) ≡ false
      → get_next_token set 0 smax before (literal_quote ∷ text) ≡ quoted_token false value rest
  unfolding ended
  get_next_token-literal smax before text value rest e h l nn b =
      get_next_token-taken set 0 smax before literal_quote text _
        (take_token-literal_quote set (smax - 1) before text b
          ∙ take_literal-read_quoted (smax - 1) text value rest e (omega (arith, h, l)) nn)
        h refl

  get_next_token-identifier :
      (smax before escape : ℕ) (text value rest : List ℕ)
      → read_quoted set identifier_quote 0 text ≡ some (value, rest)
      → 1 < smax
      → length value < smax
      → NonNull value
      → get_next_token set escape smax before (identifier_quote ∷ text)
        ≡ quoted_token true value rest
  unfolding ended
  get_next_token-identifier smax before escape text value rest e h l nn =
      get_next_token-taken set escape smax before identifier_quote text _
        (take_token-identifier_quote set escape (smax - 1) before text
          ∙ take_identifier-read_quoted (smax - 1) text value rest e (omega (arith, h, l)) nn)
        h refl

-- Where the server takes no character for an escape, and the quote does not follow an `E`: a text
-- parameter that does not end within a character is put into a literal such that `getNextToken`, which
-- reads the literal in a statement, gives the text as the token, without the carriage returns before
-- line feeds where these are converted, if `smax` bytes hold it and its null, and goes on behind the
-- quote that ends the literal.
pub get_next_token-convert_special_chars :
    (m : LiteralMode) (query bs tail rest : List ℕ) (smax before : ℕ)
    → m.escape ≡ 0
    → m.double_special ≡ true
    → NonNull bs
    → pg_cs_stat (last_stat m.ccsc 0 bs) literal_quote m.ccsc ≡ 0
    → starts literal_quote rest ≡ false
    → (before == literal_ext) ≡ false
    → 1 < smax
    → length (unix_text m.convlf m.ccsc 0 bs) < smax
    → (out : List ℕ) × (convert_special_chars m query (bs ++ 0 ∷ tail) (some (length bs))
        ≡ some (query ++ out))
      × (get_next_token m.ccsc 0 smax before (literal_quote ∷ (out ++ literal_quote ∷ rest))
          ≡ quoted_token false (unix_text m.convlf m.ccsc 0 bs) rest)
get_next_token-convert_special_chars m query bs tail rest smax before z doubles nn last closed b h
      l =
    let (out, made, value) =
      convert_special_chars-read_literal m (some true) query bs tail rest z doubles nn last
        closed in
    let read =
      sym (read_literal-read_quoted m.ccsc 0 (out ++ literal_quote ∷ rest)) ∙ (rw z at value) in
    (
      out,
      made,
      get_next_token-literal m.ccsc smax before _ _ rest read h l
          (unix_text-NonNull m.convlf m.ccsc 0 bs nn) b,
    )

-- Bytes that stand for themselves in every character set.
abbrev pub AreAscii : List ℕ → Type 0
AreAscii [] = Unit
AreAscii (c ∷ cs) = (0 < c) × (c < 0x80) × AreAscii cs

AreAscii-NonNull : (cs : List ℕ) → AreAscii cs → NonNull cs
AreAscii-NonNull [] a = tt
AreAscii-NonNull (c ∷ cs) (p, l, a) = (p, AreAscii-NonNull cs a)

alone : (set : CharacterSet) (c : ℕ) → c < 0x80 → is_non_ascii (pg_cs_stat 0 c set) c ≡ false
alone set c h = rw (pg_cs_stat_ascii c set h) (ground arith)

-- On names of such bytes the rule that follows the character set reads what the other reads.
read_quoted-read_name :
    (set : CharacterSet) (text value rest : List ℕ)
    → read_name text ≡ some (value, rest)
    → AreAscii value
    → read_quoted set identifier_quote 0 text ≡ some (value, rest)
unfolding read_name read_quoted
read_quoted-read_name set [] value rest e a = absurd (ground arith)
read_quoted-read_name set (c ∷ []) value rest e a = elim (Bool-cases (c == identifier_quote)) [
  | inl m ↦ let here = alone set c (ground arith) in ground (arith, here)
  | inr m ↦ absurd (ground arith)
]
read_quoted-read_name set (c ∷ d ∷ text) value rest e a =
    elim (Bool-cases (c == identifier_quote)) [
      | inr m ↦
          let (v, x, y) = keep-some c (read_name (d ∷ text)) value rest (rw m at e) in
          let (p, l, a') = (rw x at a) in
          let later = read_quoted-read_name set (d ∷ text) v rest y a' in
          rw (alone set c l, m, pg_cs_stat_ascii c set l, later, x) refl
      | inl m ↦
          let quote : c ≡ identifier_quote = ground arith in
          let low : c < 0x80 = omega (arith, quote) in
          elim (Bool-cases (d == identifier_quote)) [
            | inr k ↦ let here = alone set c low in ground (arith, here)
            | inl k ↦
                let (v, x, y) = keep-some c (read_name text) value rest (rw (m, k) at e) in
                let (p, l, a') = (rw x at a) in
                let later = read_quoted-read_name set text v rest y a' in
                let same : d ≡ c = ground (arith, quote) in
                rw
                  (
                    same,
                    alone set c low,
                    m,
                    pg_cs_stat_ascii c set low,
                    pg_cs_stat_ascii c set low,
                    later,
                    x,
                  )
                  refl
          ]
    ]

-- A name of bytes from 1 to 0x7f that `quote_table` puts, without a schema and with room for all of its
-- quotes, is the token that `getNextToken` gives, in every character set, whatever follows it other
-- than a quote, where the token is allowed `smax` bytes, at least 2 and more than the name has.
pub get_next_token-quote_table :
    (set : CharacterSet) (escape smax before buf_size : ℕ) (table after : List ℕ)
    → AreAscii table
    → 2 * length table + 3 ≤ buf_size
    → starts identifier_quote after ≡ false
    → 1 < smax
    → length table < smax
    → get_next_token set escape smax before (quote_table none table buf_size ++ after)
      ≡ quoted_token true table after
unfolding ReadBack quote_table quote_schema
get_next_token-quote_table set escape smax before buf_size table after a room closed h l =
    let (front, left, parts, reads, fits) = quote_name-ReadBack buf_size 3 1 table in
    let all : front ≡ table = sym (append-nil front) ∙ (rw (fits (omega (arith, room))) at parts) in
    let name = quote_name buf_size 3 1 table in
    rw (append_assoc name (b'"' ∷ []) after) (
      get_next_token-identifier set smax before escape _ table after
        (read_quoted-read_name set _ table after (rw all at (reads after closed)) a) h l
        (AreAscii-NonNull table a))
