-- ===== src/Dsn.antt =====
-- Values of connection strings and data sources (dlg_specific.c): `encode`, `decode` and
-- `decode_or_remove_braces`. A string is the list of its bytes before the null.
pub mod RoundTrip
use open_gauss_connector_odb.Base.{
  ℕ, zero, suc, ◌+◌, ◌-◌, ◌*◌, ◌/◌, ◌%◌, ◌==◌, Bool, true, false, not, ◌&&◌, List, [], ◌∷◌, ◌++◌,
  length, Option, none, some, ltb, leb, if◌then◌else◌,
}
use open_gauss_connector_odb.Convert.Numeric.{isspace}
use open_gauss_connector_odb.Parse.{isalnum}

-- A digit of `%x`.
abbrev pub hex_digit : ℕ → ℕ
hex_digit n = if ltb n 10 then b'0' + n else b'a' + (n - 10)

-- The two characters behind the percent sign that `%02x` of a `char` puts first: where `char` is
-- signed, a byte from 0x80 on is a negative number, of which eight digits are printed.
unfoldable pub hex_pair : Bool → ℕ → ℕ × ℕ
hex_pair signed_char c =
    if signed_char && leb 0x80 c then (b'f', b'f') else (hex_digit (c / 16), hex_digit (c % 16))

-- Three characters from index `o` on, by `snprintf`, which keeps the last byte of the buffer for its
-- null.
unfoldable pub put_three : ℕ → ℕ → ℕ × ℕ → List ℕ → List ℕ
put_three outlen o (hi, lo) later = b'%' ∷ hi ∷ (if o + 3 == outlen then 0 else lo) ∷ later

-- The loop of `encode`, from index `o` of the target on: the bytes before the place of the last null.
unfoldable pub encode_loop : Bool → ℕ → ℕ → List ℕ → List ℕ
unfolding hex_pair put_three
encode_loop signed_char outlen o [] = []
encode_loop signed_char outlen o (c ∷ ins) =
    let one = encode_loop signed_char outlen (o + 1) ins in
    let three = encode_loop signed_char outlen (o + 3) ins in
    if not (ltb o (outlen - 1))
    then []
    else if c == b'+'
    then if leb outlen (o + 2) then [] else put_three outlen o (b'2', b'B') three
    else if isspace c
    then b'+' ∷ one
    else if not (isalnum c)
    then if leb outlen (o + 2) then [] else put_three outlen o (hex_pair signed_char c) three
    else c ∷ one

-- `encode`; without a name the target is empty.
unfoldable pub encode : Bool → Option (List ℕ) → ℕ → List ℕ
unfolding encode_loop
encode signed_char none outlen = []
encode signed_char (some ins) outlen = encode_loop signed_char outlen 0 ins

-- The value of a digit, up to multiples of 256.
unfoldable pub from_hex_digit : ℕ → ℕ
from_hex_digit c =
    if leb b'a' c && leb c b'f'
    then c - b'a' + 10
    else if leb b'A' c && leb c b'F'
    then c - b'A' + 10
    else c + 256 - b'0'

-- `conv_from_hex`, of the two bytes behind the percent sign, as the byte that `%c` makes of it.
unfoldable pub conv_from_hex : ℕ → ℕ → ℕ
unfolding from_hex_digit
conv_from_hex hi lo = (from_hex_digit hi * 16 + from_hex_digit lo) % 256

abbrev pub put_byte : ℕ → Option (List ℕ) → Option (List ℕ)
put_byte c none = none
put_byte c (some outs) = some (c ∷ outs)

-- The loop of `decode`; `none` is a read behind the string. Behind a percent sign at the end but one the
-- null is read as a digit.
unfoldable pub decode_loop : List ℕ → Option (List ℕ)
unfolding conv_from_hex
decode_loop [] = some []
decode_loop (c ∷ []) =
    if c == b'%' then none else put_byte (if c == b'+' then b' ' else c) (some [])
decode_loop (c ∷ hi ∷ []) =
    let rest = decode_loop (hi ∷ []) in
    if c == b'%'
    then some (conv_from_hex hi 0 ∷ [])
    else put_byte (if c == b'+' then b' ' else c) rest
decode_loop (c ∷ hi ∷ lo ∷ ins) =
    let one = decode_loop (hi ∷ lo ∷ ins) in
    let three = decode_loop ins in
    if c == b'%'
    then put_byte (conv_from_hex hi lo) three
    else put_byte (if c == b'+' then b' ' else c) one

-- The string at an address, of bytes with or without a null.
unfoldable pub c_string : List ℕ → List ℕ
c_string [] = []
c_string (c ∷ cs) = if c == 0 then [] else c ∷ c_string cs

-- A name: `none` within is the name without a value.
abbrev pub name_of : Option (List ℕ) → Option (Option (List ℕ))
name_of none = none
name_of (some outs) = some (some (c_string outs))

-- `decode`, with memory granted.
unfoldable pub decode : List ℕ → Option (Option (List ℕ))
unfolding decode_loop c_string
decode [] = some none
decode (c ∷ ins) = name_of (decode_loop (c ∷ ins))

-- The last byte of a string.
unfoldable pub ends_with : ℕ → List ℕ → Bool
ends_with b [] = false
ends_with b (c ∷ []) = c == b
ends_with b (c ∷ d ∷ cs) = ends_with b (d ∷ cs)

-- The loop over a value in braces, behind the first; its last byte is the closing brace.
unfoldable pub brace_loop : List ℕ → List ℕ
brace_loop [] = []
brace_loop (c ∷ []) = []
brace_loop (c ∷ d ∷ cs) =
    let twice = brace_loop cs in
    let plain = brace_loop (d ∷ cs) in if c == b'}' && d == b'}' then d ∷ twice else c ∷ plain

-- `decode_or_remove_braces`
unfoldable pub decode_or_remove_braces : List ℕ → Option (Option (List ℕ))
unfolding brace_loop ends_with decode
decode_or_remove_braces [] = decode []
decode_or_remove_braces (c ∷ ins) =
    if c == b'{' && ends_with b'}' (c ∷ ins) then some (some (brace_loop ins)) else decode (c ∷ ins)

-- The value that `makeBracketConnectString` writes: the item in braces, with the closing ones doubled.
unfoldable pub doubled_braces : List ℕ → List ℕ
doubled_braces [] = []
doubled_braces (c ∷ cs) = if c == b'}' then c ∷ c ∷ doubled_braces cs else c ∷ doubled_braces cs

unfoldable pub bracket_value : List ℕ → List ℕ
unfolding doubled_braces
bracket_value item = b'{' ∷ (doubled_braces item ++ b'}' ∷ [])

-- `makeBracketConnectString`, with memory granted: the size of the memory, and the string, if the item is
-- not empty.
unfoldable pub make_bracket_connect_string : List ℕ → List ℕ → Option (ℕ × List ℕ)
unfolding bracket_value doubled_braces
make_bracket_connect_string [] optname = none
make_bracket_connect_string (c ∷ item) optname = some (
  length (doubled_braces (c ∷ item)) + 30,
  optname ++ b'=' ∷ (bracket_value (c ∷ item) ++ b';' ∷ []),
)
