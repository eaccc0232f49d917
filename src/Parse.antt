-- ===== src/Parse.antt =====
-- `getNextToken` of parse.c, which cuts a statement into tokens. A string is the list of its bytes
-- before the null; the place that `tstr` and `encstr` have reached is what is left of the string, the
-- status that `encstr` has there, and its position.
pub mod Bounds
pub mod Quoted
pub mod Written
use open_gauss_connector_odb.Base.{
  ℕ, zero, suc, ◌+◌, ◌-◌, ◌%◌, ◌^◌, ◌==◌, Bool, true, false, not, ◌&&◌, ◌||◌, List, [], ◌∷◌, Option,
  none, some, length, take, drop, leb, if◌then◌else◌,
}
use open_gauss_connector_odb.Encoding.{CharacterSet, pg_cs_stat}
use open_gauss_connector_odb.Convert.Literal.{
  is_non_ascii, starts, literal_quote, escape_in_literal,
}
use open_gauss_connector_odb.Convert.Numeric.{isspace, isdigit, skip_space}

-- `isalnum` and `ispunct` of the C library, in the locale "C".
abbrev pub isalnum : ℕ → Bool
isalnum c = isdigit c || leb b'A' c && leb c b'Z' || leb b'a' c && leb c b'z'

abbrev pub ispunct : ℕ → Bool
ispunct c = leb b'!' c && leb c b'~' && not (isalnum c)

abbrev pub identifier_quote : ℕ
identifier_quote = b'"'

abbrev pub dollar_quote : ℕ
dollar_quote = b'$'

abbrev pub literal_ext : ℕ
literal_ext = b'E'

-- `token[out++] = c` before what is put later, and the place reached.
abbrev pub also {ℓ} : {A : Type ℓ} → ℕ → List ℕ × A → List ℕ × A
also c (token, place) = (c ∷ token, place)

-- The leading delimiters: the byte before the place, and what is left.
unfoldable pub skip_delimiters : ℕ → List ℕ → ℕ × List ℕ
skip_delimiters before [] = (before, [])
skip_delimiters before (c ∷ text) =
    let later = skip_delimiters c text in
    if isspace c || c == b',' then later else (before, c ∷ text)

-- `strncmp(text, tag, taglen) == 0`
unfoldable pub starts_with : List ℕ → List ℕ → Bool
starts_with [] text = true
starts_with (t ∷ tag) [] = false
starts_with (t ∷ tag) (c ∷ text) = t == c && starts_with tag text

-- What the loop over a quoted token reads: `qc`, the tag of a dollar quote, `escape_in_literal` and the
-- character set.
pub record Quoting : Type 0 where
  pub qc : ℕ
  pub in_dollar_quote : Bool
  pub tag : List ℕ
  pub escape : ℕ
  pub ccsc : CharacterSet

-- The end of a dollar quote: what is left, and `tchar`, to which the new position is assigned.
unfoldable pub tag_end : Quoting → ℕ → List ℕ → List ℕ × (List ℕ × ℕ)
tag_end q pos text = let n = length q.tag - 1 in ([], (drop n text, (pos + n) % 2 ^ 8))

-- The loop over a quoted token, with `room` characters before `smax`: what is put, what is left, and
-- `tchar`.
unfoldable pub quoted_loop : Quoting → ℕ → Bool → ℕ → ℕ → List ℕ → List ℕ × (List ℕ × ℕ)
quoted_loop q room in_escape stat pos [] = ([], ([], 0))
quoted_loop q zero in_escape stat pos (c ∷ text) = ([], (c ∷ text, c))
quoted_loop q (suc room) in_escape stat pos (c ∷ []) =
    let stat' = pg_cs_stat stat c q.ccsc in
    let put = also c (quoted_loop q room in_escape stat' (suc pos) []) in
    let put_ascii = also c (quoted_loop q room false stat' (suc pos) []) in
    let unput = quoted_loop q (suc room) false stat' (suc pos) [] in
    if is_non_ascii stat' c
    then put
    else if in_escape
    then unput
    else if c == q.qc
    then (if not q.in_dollar_quote
        then ([], (c ∷ [], c))
        else if starts_with q.tag (c ∷ [])
        then tag_end q pos (c ∷ [])
        else put_ascii)
    else if literal_quote == q.qc && c == q.escape
    then quoted_loop q (suc room) true stat' (suc pos) []
    else put_ascii
quoted_loop q (suc room) in_escape stat pos (c ∷ d ∷ text) =
    let stat' = pg_cs_stat stat c q.ccsc in
    let put = also c (quoted_loop q room in_escape stat' (suc pos) (d ∷ text)) in
    let put_ascii = also c (quoted_loop q room false stat' (suc pos) (d ∷ text)) in
    let put_doubled =
      also d (quoted_loop q room false (pg_cs_stat stat' d q.ccsc) (suc (suc pos)) text) in
    let unput = quoted_loop q (suc room) false stat' (suc pos) (d ∷ text) in
    let escaped = quoted_loop q (suc room) true stat' (suc pos) (d ∷ text) in
    if is_non_ascii stat' c
    then put
    else if in_escape
    then unput
    else if c == q.qc
    then (if not q.in_dollar_quote
        then (if d == q.qc then put_doubled else ([], (c ∷ d ∷ text, c)))
        else if starts_with q.tag (c ∷ d ∷ text)
        then tag_end q pos (c ∷ d ∷ text)
        else put_ascii)
    else if literal_quote == q.qc && c == q.escape
    then escaped
    else put_ascii

-- `if (tchar == qc) tstr++`, behind the loop.
unfoldable pub behind_quote : ℕ → List ℕ × (List ℕ × ℕ) → List ℕ × List ℕ
behind_quote qc (token, (text, tchar)) = (token, if tchar == qc then drop 1 text else text)

-- The letters of a number behind its first digit.
unfoldable pub number_loop : ℕ → List ℕ → List ℕ × List ℕ
number_loop room [] = ([], [])
number_loop zero (c ∷ text) = ([], c ∷ text)
number_loop (suc room) (c ∷ text) =
    let put = also c (number_loop room text) in
    if isalnum c || c == b'.' then put else ([], c ∷ text)

-- The outer loop where something has been put: there only the tests remain that do not ask for
-- `out == 0`.
unfoldable pub word_loop : CharacterSet → ℕ → ℕ → List ℕ → List ℕ × List ℕ
word_loop set room stat [] = ([], [])
word_loop set zero stat (c ∷ text) = ([], c ∷ text)
word_loop set (suc room) stat (c ∷ text) =
    let stat' = pg_cs_stat stat c set in
    let put = also c (word_loop set room stat' text) in
    if is_non_ascii stat' c
    then put
    else if isspace c || c == b','
    then ([], c ∷ text)
    else if ispunct c && not (c == b'_')
    then ([], c ∷ text)
    else put

-- `taglen`, of what follows the dollar: up to the next dollar, or 1 without one.
unfoldable pub dollar_at : ℕ → List ℕ → Option ℕ
dollar_at n [] = none
dollar_at n (c ∷ text) =
    let later = dollar_at (suc n) text in if c == dollar_quote then some n else later

unfoldable pub tag_length : List ℕ → ℕ
unfolding dollar_at
tag_length text = elim (dollar_at 0 text) [ none ↦ 1 | some n ↦ n + 2 ]

-- What a pass of the outer loop gives: what is put, what is left, and the three flags.
pub record Taken : Type 0 where
  pub token : List ℕ
  pub rest : List ℕ
  pub quote : Bool
  pub dquote : Bool
  pub numeric : Bool

abbrev pub plain : List ℕ × List ℕ → Taken
plain (token, rest) = record {
  token = token;
  rest = rest;
  quote = false;
  dquote = false;
  numeric = false;
}

abbrev pub dollar_quoting : CharacterSet → List ℕ → Quoting
dollar_quoting set text = record {
  qc = dollar_quote;
  in_dollar_quote = true;
  tag = take (tag_length text) (dollar_quote ∷ text);
  escape = 0;
  ccsc = set;
}

abbrev pub literal_quoting : CharacterSet → ℕ → Quoting
literal_quoting set escape = record {
  qc = literal_quote;
  in_dollar_quote = false;
  tag = [];
  escape = escape;
  ccsc = set;
}

abbrev pub identifier_quoting : CharacterSet → Quoting
identifier_quoting set = record {
  qc = identifier_quote;
  in_dollar_quote = false;
  tag = [];
  escape = 0;
  ccsc = set;
}

unfoldable pub take_dollar_quote : CharacterSet → ℕ → List ℕ → Taken
unfolding tag_length quoted_loop behind_quote
take_dollar_quote set smax text =
    let taglen = tag_length text in
    let left = drop (taglen - 1) text in
    let found = quoted_loop (dollar_quoting set text) smax false 0 taglen left in
    record (plain (behind_quote dollar_quote found)) { quote = true }

-- `escape_in_literal`, with the byte before the quote.
unfoldable pub literal_escape : ℕ → ℕ → ℕ
literal_escape escape_ch before =
    if escape_ch == 0 then (if before == literal_ext then escape_in_literal else 0) else escape_ch

unfoldable pub take_literal : CharacterSet → ℕ → ℕ → List ℕ → Taken
unfolding quoted_loop behind_quote
take_literal set escape smax text =
    let found = quoted_loop (literal_quoting set escape) smax false 0 1 text in
    record (plain (behind_quote literal_quote found)) { quote = true }

unfoldable pub take_identifier : CharacterSet → ℕ → List ℕ → Taken
unfolding quoted_loop behind_quote
take_identifier set smax text =
    let found = quoted_loop (identifier_quoting set) smax false 0 1 text in
    record (plain (behind_quote identifier_quote found)) { dquote = true }

unfoldable pub take_number : ℕ → ℕ → List ℕ → Taken
unfolding number_loop
take_number smax c text = record (plain (also c (number_loop (smax - 1) text))) { numeric = true }

-- The outer loop, from its first byte on, with `smax` positive: the first pass, where `out == 0`, and
-- the others.
unfoldable pub take_token : CharacterSet → ℕ → ℕ → ℕ → ℕ → List ℕ → Taken
unfolding take_dollar_quote literal_escape take_literal take_identifier take_number word_loop
take_token set escape_ch smax before c text =
    let stat = pg_cs_stat 0 c set in
    let word = plain (also c (word_loop set (smax - 1) stat text)) in
    if is_non_ascii stat c
    then word
    else if isspace c || c == b','
    then plain ([], c ∷ text)
    else if c == dollar_quote
    then take_dollar_quote set smax text
    else if c == literal_quote
    then take_literal set (literal_escape escape_ch before) smax text
    else if c == identifier_quote
    then take_identifier set smax text
    else if isdigit c
    then take_number smax c text
    else if ispunct c && not (c == b'_')
    then plain (c ∷ [], text)
    else word

-- What `getNextToken` gives: the null pointer with nothing written, the null pointer with an empty
-- token, or a token, its delimiter, and the pointer that it returns.
pub data NextToken : Type 0 where
  no_room no_token : NextToken
  next_token : Taken → ℕ → NextToken

-- `*delim`
unfoldable pub delim_of : List ℕ → ℕ
delim_of [] = 0
delim_of (c ∷ text) = if c == b',' then c else b' '

unfoldable pub token_at : CharacterSet → ℕ → ℕ → ℕ × List ℕ → NextToken
unfolding take_token delim_of skip_space
token_at set escape_ch smax (before, []) = no_token
token_at set escape_ch smax (before, c ∷ text) =
    let taken = take_token set escape_ch smax before c text in
    let rest = skip_space taken.rest in
    next_token (record taken { rest = skip_space rest }) (delim_of rest)

-- `getNextToken`: the character set, the escape character of the connection, `smax`, the byte before
-- the string, and the string.
unfoldable pub get_next_token : CharacterSet → ℕ → ℕ → ℕ → List ℕ → NextToken
unfolding skip_delimiters token_at
get_next_token set escape_ch smax before s =
    if leb smax 1 then no_room else token_at set escape_ch (smax - 1) (skip_delimiters before s)
