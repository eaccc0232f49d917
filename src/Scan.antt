-- ===== src/Scan.antt =====
-- `SC_scanQueryAndCountParams` of statement.c, with `findTag` of convert.c: the parameter markers and
-- the ends of the statements of a query. A query is the list of its bytes before the null; the place of
-- `encstr` is what is left of it, with the byte before.
pub mod Literals
use open_gauss_connector_odb.Base.{
  ℕ, zero, suc, ◌+◌, ◌-◌, ◌==◌, Bool, true, false, not, ◌&&◌, ◌||◌, List, [], ◌∷◌, Option, none,
  some, take, length, ltb, leb, if◌then◌else◌,
}
use open_gauss_connector_odb.Encoding.{CharacterSet, pg_cs_stat}
use open_gauss_connector_odb.Unicode.Decode.{line_feed}
use open_gauss_connector_odb.Convert.Literal.{
  is_non_ascii, starts, literal_quote, escape_in_literal, cc_get_escape,
}
use open_gauss_connector_odb.Convert.Numeric.{isspace}
use open_gauss_connector_odb.Parse.{
  isalnum, identifier_quote, dollar_quote, literal_ext, starts_with,
}

-- What the scan reads of its arguments: the character set and the escape character of the connection,
-- and whether `next_cmd` is given.
pub record ScanMode : Type 0 where
  pub ccsc : CharacterSet
  pub conforming : Option Bool  -- `standard_conforming_strings`
  pub has_next_cmd : Bool

-- The variables of the loop; `tag` is that of a dollar quote, within one.
pub record Scan : Type 0 where
  pub bchar : ℕ
  pub escape : ℕ
  pub in_literal : Bool
  pub in_ident_keyword : Bool
  pub in_dquote_identifier : Bool
  pub tag : Option (List ℕ)
  pub in_escape : Bool
  pub in_line_comment : Bool
  pub del_found : Bool
  pub comment_level : ℕ
  pub multi : Bool
  pub num_p : ℕ
  pub proc_return : Bool
  pub next_cmd : Option ℕ
  pub ccst : ℕ

abbrev pub scan_start : Scan
scan_start = record {
  bchar = 0;
  escape = 0;
  in_literal = false;
  in_ident_keyword = false;
  in_dquote_identifier = false;
  tag = none;
  in_escape = false;
  in_line_comment = false;
  del_found = false;
  comment_level = 0;
  multi = false;
  num_p = 0;
  proc_return = false;
  next_cmd = none;
  ccst = 0;
}

-- `findTag`, of what follows the dollar, from index `n` on: the length of the tag, or 0.
unfoldable pub find_tag : CharacterSet → ℕ → ℕ → List ℕ → ℕ
find_tag set stat n [] = 0
find_tag set stat n (c ∷ text) =
    let stat' = pg_cs_stat stat c set in
    let later = find_tag set stat' (suc n) text in
    if is_non_ascii stat' c
    then later
    else if c == dollar_quote
    then n + 2
    else if not (isalnum c)
    then 0
    else later

-- `IS_NOT_SPACE`, of a byte that is not null.
abbrev pub is_not_space : ℕ → Bool
is_not_space c = not (isspace c)

abbrev pub is_tagged : Option (List ℕ) → Bool
is_tagged none = false
is_tagged (some tag) = true

-- A byte of a character of several bytes.
unfoldable pub non_ascii_step : ℕ → Scan → Scan
non_ascii_step c s =
    let inside =
      s.in_dquote_identifier
      || s.in_literal
      || is_tagged s.tag
      || s.in_escape
      || s.in_line_comment
      || ltb 0 s.comment_level in
    record s {
      bchar = if leb 0x80 c then c else s.bchar;
      in_ident_keyword = if inside then s.in_ident_keyword else true;
    }

-- Bytes that a step takes besides its own; a step over one byte reads it with `encoded_nextchar`.
abbrev pub stepped : Scan → Scan × ℕ
stepped s = (s, 0)

-- A byte of a literal.
unfoldable pub literal_step : ℕ → Scan → Scan
literal_step c s =
    if s.in_escape
    then record s { in_escape = false }
    else if c == s.escape
    then record s { in_escape = true }
    else if c == literal_quote
    then record s { in_literal = false }
    else s

-- A byte of a comment.
unfoldable pub comment_step : ScanMode → ℕ → List ℕ → Scan → Scan × ℕ
comment_step m c text s =
    if c == b'/' && starts b'*' text
    then (record s { comment_level = s.comment_level + 1; ccst = pg_cs_stat s.ccst b'*' m.ccsc }, 1)
    else if c == b'*' && starts b'/' text
    then (record s { comment_level = s.comment_level - 1; ccst = pg_cs_stat s.ccst b'/' m.ccsc }, 1)
    else stepped s

-- A byte outside of all of these, other than a letter or a digit.
unfoldable pub plain_step : ScanMode → ℕ → ℕ → ℕ → List ℕ → Scan → Scan × ℕ
unfolding find_tag
plain_step m before pos c text s =
    let seen = record s { bchar = if is_not_space c then c else s.bchar } in
    let taglen = find_tag m.ccsc 0 0 text in
    let escape_ch = cc_get_escape m.conforming in
    if c == b'?'
    then stepped (record seen {
      num_p = s.num_p + 1;
      proc_return = s.num_p == 0 && s.bchar == b'{' || s.proc_return;
    })
    else if c == b';'
    then stepped (record seen {
      del_found = true;
      next_cmd = if m.has_next_cmd then some pos else s.next_cmd;
    })
    else if c == dollar_quote
    then (if ltb 0 taglen
        then (record seen { tag = some (take taglen (c ∷ text)) }, taglen - 1)
        else stepped seen)
    else if c == literal_quote
    then stepped (record seen {
      in_literal = true;
      escape =
          if escape_ch == 0
          then (if before == literal_ext then escape_in_literal else 0)
          else escape_ch;
    })
    else if c == identifier_quote
    then stepped (record seen { in_dquote_identifier = true })
    else if c == b'-' && starts b'-' text
    then (record seen { in_line_comment = true; ccst = pg_cs_stat s.ccst b'-' m.ccsc }, 1)
    else if c == b'/' && starts b'*' text
    then (
      record s {
        comment_level = s.comment_level + 1;
        bchar = b'*';
        ccst = pg_cs_stat s.ccst b'*' m.ccsc;
      },
      1,
    )
    else stepped seen

-- A byte that stands for itself: what holds behind it, and how many bytes more are taken.
unfoldable pub ascii_step : ScanMode → ℕ → ℕ → ℕ → List ℕ → Scan → Scan × ℕ
unfolding literal_step comment_step plain_step starts_with
ascii_step m before pos c text s =
    if s.in_ident_keyword && (isalnum c || c == dollar_quote || c == b'_')
    then stepped (record s { bchar = c })
    else let s = record s { in_ident_keyword = false } in
      elim s.tag [
        | some tag ↦
            if c == dollar_quote && starts_with tag (c ∷ text)
            then (record s { tag = none }, length tag - 1)
            else stepped s
        | none ↦
            if s.in_literal
            then stepped (literal_step c s)
            else if s.in_dquote_identifier
            then stepped (record s { in_dquote_identifier = not (c == identifier_quote) })
            else if s.in_line_comment
            then stepped (record s { in_line_comment = not (c == line_feed) })
            else if ltb 0 s.comment_level
            then comment_step m c text s
            else if isalnum c
            then stepped (record s { in_ident_keyword = true })
            else plain_step m before pos c text s
      ]

-- The loop, with `skip` bytes that the last step has taken already: the variables at its end.
unfoldable pub scan_loop : ScanMode → ℕ → ℕ → ℕ → Scan → List ℕ → Scan
unfolding non_ascii_step ascii_step
scan_loop m skip before pos s [] = s
scan_loop m (suc skip) before pos s (c ∷ text) = scan_loop m skip c (suc pos) s text
scan_loop m zero before pos s (c ∷ text) =
    let s = record s { ccst = pg_cs_stat s.ccst c m.ccsc } in
    let ends = not s.multi && s.del_found && is_not_space c in
    let (s', skip) = ascii_step m before pos c text (record s { multi = s.multi || ends }) in
    if is_non_ascii s.ccst c
    then scan_loop m zero c (suc pos) (non_ascii_step c s) text
    else if ends && m.has_next_cmd
    then record s { multi = true }
    else scan_loop m skip c (suc pos) s' text

-- `SC_scanQueryAndCountParams`: the byte before the query, and the query.
unfoldable pub scan_query_and_count_params : ScanMode → ℕ → List ℕ → Scan
unfolding scan_loop
scan_query_and_count_params m before query = scan_loop m 0 before 0 scan_start query
