-- ===== src/Convert/Literal.antt =====
-- `convert_special_chars` (convert.c): a text parameter on its way into a literal of the query.
pub mod Marks
pub mod Read
pub mod Steps
pub mod Safe
pub mod Server
use open_gauss_connector_odb.Base.{
  ℕ, zero, suc, ◌==◌, Bool, true, false, not, ◌&&◌, ◌||◌, List, [], ◌∷◌, ◌++◌, Option, none, some,
  length, leb, if◌then◌else◌,
}
use open_gauss_connector_odb.Encoding.{CharacterSet, pg_cs_stat}
use open_gauss_connector_odb.Unicode.Decode.{line_feed, carriage_return}

-- `LITERAL_QUOTE` and `ESCAPE_IN_LITERAL`
abbrev pub literal_quote : ℕ
literal_quote = b'\''

abbrev pub escape_in_literal : ℕ
escape_in_literal = b'\\'

-- `CC_get_escape`: what the server says of `standard_conforming_strings`, if anything; the flag says
-- whether that is "on". A null byte stands for no escape character.
abbrev pub cc_get_escape : Option Bool → ℕ
cc_get_escape none = 0
cc_get_escape (some true) = 0
cc_get_escape (some false) = escape_in_literal

-- What the function reads of a `QueryBuild`.
pub record LiteralMode : Type 0 where
  pub convlf : Bool  -- `FLGB_CONVERT_LF`
  pub double_special : Bool  -- the mode is not `RPM_BUILDING_BIND_REQUEST`
  pub ccsc : CharacterSet
  pub escape : ℕ

-- The tests of the loop for a byte and its status.
abbrev pub is_non_ascii : ℕ → ℕ → Bool
is_non_ascii stat c = not (stat == 0) || leb 0x80 c

abbrev pub is_special : LiteralMode → ℕ → Bool
is_special m c = m.double_special && (c == literal_quote || c == m.escape)

abbrev pub put : List ℕ → Option (List ℕ) → Option (List ℕ)
put cs none = none
put cs (some rest) = some (cs ++ rest)

-- The first unit of what follows, the look at `si[i + 1]`.
abbrev pub starts : ℕ → List ℕ → Bool
starts c [] = false
starts c (d ∷ ds) = d == c

-- Nothing follows.
abbrev pub is_last : List ℕ → Bool
is_last [] = true
is_last (d ∷ ds) = false

-- The loop from a byte on, with `left` bytes before `max` and the status before: what is put to the
-- query, with room granted for it. `none` is a read behind the memory.
unfoldable pub special_loop : LiteralMode → ℕ → ℕ → List ℕ → Option (List ℕ)
special_loop m zero stat mem = some []
special_loop m (suc left) stat [] = none
special_loop m (suc left) stat (c ∷ mem) =
    let stat' = pg_cs_stat stat c m.ccsc in
    let rest = special_loop m left stat' mem in
    if c == 0
    then some []
    else if is_non_ascii stat' c
    then put (c ∷ []) rest
    else if m.convlf && c == carriage_return && is_last mem
    then none
    else if m.convlf && c == carriage_return && starts line_feed mem
    then rest
    else if is_special m c
    then put (c ∷ c ∷ []) rest
    else put (c ∷ []) rest

-- `convert_special_chars`, of the memory at `si`; `used` is none for a terminated string, and the
-- query is what was put to it before. With room granted it gives the new query.
unfoldable pub convert_special_chars : LiteralMode → List ℕ → List ℕ → Option ℕ → Option (List ℕ)
convert_special_chars m query si none = put query (special_loop m (length si) 0 si)
convert_special_chars m query si (some used) = put query (special_loop m used 0 si)
