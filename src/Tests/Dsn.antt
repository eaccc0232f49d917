-- ===== src/Tests/Dsn.antt =====
-- Values of connection strings at concrete inputs.
use open_gauss_connector_odb.Base.{
  ℕ, ◌<◌, ◌≡◌, refl, true, List, [], ◌∷◌, ◌++◌, none, some, length, arith,
}
use open_gauss_connector_odb.Dsn.{
  encode, encode_loop, hex_pair, put_three, decode, decode_loop, conv_from_hex, from_hex_digit,
  c_string, decode_or_remove_braces, bracket_value, make_bracket_connect_string,
}
use open_gauss_connector_odb.Dsn.RoundTrip.{
  AreKept, decode_or_remove_braces-encode, decode_or_remove_braces-bracket_value,
}

password-AreKept : AreKept true (b'p' ∷ b'+' ∷ b' ' ∷ b'{' ∷ [])
password-AreKept = (
  omega arith,
  omega arith,
  refl,
  (
    omega arith,
    omega arith,
    refl,
    (omega arith, omega arith, refl, (omega arith, omega arith, refl, tt)),
  ),
)

decode_or_remove_braces-encode_example :
    decode_or_remove_braces (encode true (some (b'p' ∷ b'+' ∷ b' ' ∷ b'{' ∷ [])) 256)
    ≡ some (some (b'p' ∷ b'+' ∷ b' ' ∷ b'{' ∷ []))
decode_or_remove_braces-encode_example =
    decode_or_remove_braces-encode true 256 b'p' (b'+' ∷ b' ' ∷ b'{' ∷ []) password-AreKept
      (omega arith)

abbrev setting : List ℕ
setting = b'a' ∷ b'}' ∷ b';' ∷ []

decode_or_remove_braces-bracket_value_example :
    (decode_or_remove_braces (bracket_value setting) ≡ some (some setting))
    × (len : ℕ) × (made : List ℕ) × (make_bracket_connect_string setting (b'A' ∷ b'6' ∷ [])
        ≡ some (len, made))
    × (made ≡ (b'A' ∷ b'6' ∷ []) ++ b'=' ∷ (bracket_value setting ++ b';' ∷ []))
    × (length made < len)
decode_or_remove_braces-bracket_value_example =
    decode_or_remove_braces-bracket_value b'a' (b'}' ∷ b';' ∷ []) (b'A' ∷ b'6' ∷ []) (omega arith)

-- In a target of three bytes three bytes are put before the null.
encode_overflow : length (encode true (some (b'-' ∷ [])) 3) ≡ 3
unfolding encode encode_loop hex_pair put_three
encode_overflow = refl

-- Where `char` is signed, a letter of Latin 1 becomes another.
encode_signed : decode (encode true (some (0xe4 ∷ [])) 256) ≡ some (some (0xff ∷ []))
unfolding encode encode_loop hex_pair put_three decode decode_loop conv_from_hex from_hex_digit
    c_string
encode_signed = refl

-- A percent sign at the end is read with what stands behind the string.
decode_behind : decode (b'%' ∷ []) ≡ none
unfolding decode decode_loop
decode_behind = refl
