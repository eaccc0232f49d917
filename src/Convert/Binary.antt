-- ===== src/Convert/Binary.antt =====
-- Values of type bytea: `convert_to_pgbinary` and `convert_from_pgbinary` (convert.c).
pub mod RoundTrip
pub mod Escapes
pub mod InLiteral
use open_gauss_connector_odb.Base.{
  ℕ, zero, suc, ◌+◌, ◌-◌, ◌*◌, ◌/◌, ◌%◌, ◌==◌, Bool, true, false, not, ◌&&◌, ◌||◌, List, [], ◌∷◌,
  ◌++◌, Option, none, some, ltb, leb, if◌then◌else◌,
}
use open_gauss_connector_odb.Convert.Hex.{hex_digits, pg_hex2bin}

-- `BYTEA_ESCAPE_CHAR`
abbrev pub bytea_escape_char : ℕ
bytea_escape_char = b'\\'

-- The low 8 bits of the value of an octal digit.
abbrev pub octal_value : ℕ → ℕ
octal_value c = (c + 208) % 256

-- `conv_from_octal`, of the three characters behind the escape character, as it is put into a byte.
unfoldable pub conv_from_octal : ℕ → ℕ → ℕ → ℕ
conv_from_octal a b c = (octal_value a * 64 + octal_value b * 8 + octal_value c) % 256

abbrev pub push : ℕ → Option (List ℕ) → Option (List ℕ)
push b none = none
push b (some bs) = some (b ∷ bs)

-- The loop of `convert_from_pgbinary`, on the characters before the null: the bytes that it puts.
-- `none` is a read behind the null.
unfoldable pub from_text : Bool → List ℕ → Option (List ℕ)
from_text rawout [] = some []
from_text rawout (c ∷ []) =
    if c == bytea_escape_char then none else if rawout then some [] else some (c ∷ [])
from_text rawout (c ∷ a ∷ []) =
    let one = from_text rawout (a ∷ []) in
    if c == bytea_escape_char
    then if a == bytea_escape_char then some (c ∷ []) else if a == b'x' then some [] else none
    else if rawout
    then some (pg_hex2bin (c ∷ a ∷ []))
    else push c one
from_text rawout (c ∷ a ∷ b ∷ []) =
    let one = from_text rawout (a ∷ b ∷ []) in
    let two = from_text rawout (b ∷ []) in
    if c == bytea_escape_char
    then if a == bytea_escape_char
      then push c two
      else if a == b'x'
      then some (pg_hex2bin (b ∷ []))
      else some (conv_from_octal a b 0 ∷ [])
    else if rawout
    then some (pg_hex2bin (c ∷ a ∷ b ∷ []))
    else push c one
from_text rawout (c ∷ a ∷ b ∷ d ∷ text) =
    let one = from_text rawout (a ∷ b ∷ d ∷ text) in
    let two = from_text rawout (b ∷ d ∷ text) in
    let four = from_text rawout text in
    if c == bytea_escape_char
    then if a == bytea_escape_char
      then push c two
      else if a == b'x'
      then some (pg_hex2bin (b ∷ d ∷ text))
      else push (conv_from_octal a b d) four
    else if rawout
    then some (pg_hex2bin (c ∷ a ∷ b ∷ d ∷ text))
    else push c one

-- The characters before the null, or none where there is no null.
abbrev pub text_of_memory : List ℕ → Option (List ℕ)
text_of_memory [] = none
text_of_memory (c ∷ mem) = if c == 0 then some [] else push c (text_of_memory mem)

-- `convert_from_pgbinary`, of the memory at `value`, with a target for the bytes.
unfoldable pub convert_from_pgbinary : List ℕ → Bool → Option (List ℕ)
unfolding from_text
convert_from_pgbinary value binary_rawout = elim (text_of_memory value) [
  | none ↦ none
  | some text ↦ from_text binary_rawout text
]

-- `conv_to_octal`; without an escape character it gives what `conv_to_octal2` does.
unfoldable pub conv_to_octal : ℕ → ℕ → List ℕ
conv_to_octal val escape_ch =
    let digits =
      bytea_escape_char ∷ (b'0' + val / 8 / 8 % 8) ∷ (b'0' + val / 8 % 8) ∷ (b'0' + val % 8) ∷ [] in
    if escape_ch == 0 then digits else escape_ch ∷ digits

unfoldable pub conv_to_octal2 : ℕ → List ℕ
conv_to_octal2 val =
    bytea_escape_char ∷ (b'0' + val / 8 / 8 % 8) ∷ (b'0' + val / 8 % 8) ∷ (b'0' + val % 8) ∷ []

-- What `convert_to_pgbinary` reads of a `QueryBuild`; `isalnum` is that of the C library.
pub record BinaryMode : Type 0 where
  pub bind_request : Bool  -- the mode is `RPM_BUILDING_BIND_REQUEST`
  pub hex_bin_format : Bool  -- `FLGB_HEX_BIN_FORMAT`
  pub escape_in_literal : ℕ  -- `CC_get_escape`

abbrev pub esc_double : BinaryMode → Bool
esc_double q = not q.bind_request && not (q.escape_in_literal == 0)

module _ (isalnum : ℕ → Bool) where
  -- The loop over the bytes.
  unfoldable pub octal_text : BinaryMode → List ℕ → List ℕ
  octal_text q [] = []
  octal_text q (inc ∷ bs) =
      let rest = octal_text q bs in
      if ltb inc 128 && (isalnum inc || inc == b' ')
      then inc ∷ rest
      else if esc_double q
      then conv_to_octal inc q.escape_in_literal ++ rest
      else conv_to_octal2 inc ++ rest

  -- `convert_to_pgbinary`
  unfoldable pub convert_to_pgbinary : BinaryMode → List ℕ → List ℕ
  convert_to_pgbinary q bs =
      if q.hex_bin_format
      then (if esc_double q
          then q.escape_in_literal ∷ b'\\' ∷ b'x' ∷ hex_digits bs
          else b'\\' ∷ b'x' ∷ hex_digits bs)
      else octal_text q bs
