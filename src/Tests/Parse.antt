-- ===== src/Tests/Parse.antt =====
-- `getNextToken` at concrete inputs.
use open_gauss_connector_odb.Base.{
  ℕ, ◌≡◌, refl, true, false, List, [], ◌∷◌, ◌++◌, none, some, arith,
}
use open_gauss_connector_odb.Encoding.{sjis, utf8, pg_cs_stat}
use open_gauss_connector_odb.Convert.Literal.{LiteralMode, literal_quote, convert_special_chars}
use open_gauss_connector_odb.Convert.Literal.Read.{unix_text}
use open_gauss_connector_odb.Convert.Numeric.{skip_space}
use open_gauss_connector_odb.Strings.{quote_table}
use open_gauss_connector_odb.Parse.{
  next_token, get_next_token, token_at, take_token, take_dollar_quote, take_literal, take_number,
  literal_escape, skip_delimiters, tag_length, dollar_at, quoted_loop, behind_quote, tag_end,
  starts_with, number_loop, delim_of,
}
use open_gauss_connector_odb.Parse.Bounds.{IsNextToken, get_next_token-IsNextToken}
use open_gauss_connector_odb.Parse.Written.{
  quoted_token, get_next_token-convert_special_chars, get_next_token-quote_table,
}

-- The text `ab` between two pairs of dollars, and what follows: the second dollar of the end is left to
-- the next token.
dollar_quote_left :
    get_next_token utf8 0 256 b' ' (b'$' ∷ b'$' ∷ b'a' ∷ b'b' ∷ b'$' ∷ b'$' ∷ b',' ∷ b'x' ∷ [])
    ≡ next_token
        (record {
          token = b'a' ∷ b'b' ∷ [];
          rest = b'$' ∷ b',' ∷ b'x' ∷ [];
          quote = true;
          dquote = false;
          numeric = false;
        })
        b' '
unfolding get_next_token token_at take_token take_dollar_quote skip_delimiters tag_length dollar_at
    quoted_loop behind_quote tag_end starts_with skip_space delim_of pg_cs_stat
dollar_quote_left = refl

-- In a literal with escapes the quote behind a backslash is lost.
escaped_lost :
    get_next_token utf8 0 256 b'E' (b'\'' ∷ b'a' ∷ b'\\' ∷ b'\'' ∷ b'b' ∷ b'\'' ∷ [])
    ≡ next_token
        (record {
          token = b'a' ∷ b'b' ∷ [];
          rest = [];
          quote = true;
          dquote = false;
          numeric = false;
        })
        0
unfolding get_next_token token_at take_token take_literal literal_escape skip_delimiters quoted_loop
    behind_quote skip_space delim_of pg_cs_stat
escaped_lost = refl

-- `, 12e4 , x`
number_read :
    get_next_token utf8 0 256 0
      (b',' ∷ b' ' ∷ b'1' ∷ b'2' ∷ b'e' ∷ b'4' ∷ b' ' ∷ b',' ∷ b' ' ∷ b'x' ∷ [])
    ≡ next_token
        (record {
          token = b'1' ∷ b'2' ∷ b'e' ∷ b'4' ∷ [];
          rest = b',' ∷ b' ' ∷ b'x' ∷ [];
          quote = false;
          dquote = false;
          numeric = true;
        })
        b','
unfolding get_next_token token_at take_token take_number number_loop skip_delimiters skip_space
    delim_of pg_cs_stat
number_read = refl

abbrev long_word : List ℕ
long_word = b' ' ∷ b'a' ∷ b'b' ∷ b'c' ∷ b'd' ∷ b' ' ∷ []

get_next_token-IsNextToken_example : IsNextToken 3 long_word (get_next_token sjis 0 3 0 long_word)
get_next_token-IsNextToken_example = get_next_token-IsNextToken sjis 0 3 0 long_word

abbrev name_with_quote : List ℕ
name_with_quote = b'a' ∷ b'"' ∷ b'b' ∷ []

get_next_token-quote_table_example :
    get_next_token utf8 b'\\' 256 b' ' (quote_table none name_with_quote 100 ++ b'.' ∷ b'c' ∷ [])
    ≡ quoted_token true name_with_quote (b'.' ∷ b'c' ∷ [])
get_next_token-quote_table_example =
    get_next_token-quote_table utf8 b'\\' 256 b' ' 100 name_with_quote (b'.' ∷ b'c' ∷ [])
      (omega arith) (omega arith) refl (omega arith) (omega arith)

abbrev plain_mode : LiteralMode
plain_mode = record { convlf = true; double_special = true; ccsc = sjis; escape = 0 }

abbrev sjis_name : List ℕ
sjis_name = 0x83 ∷ b'\\' ∷ b'\'' ∷ b'A' ∷ []

get_next_token-convert_special_chars_example :
    (out : List ℕ) × (convert_special_chars plain_mode [] (sjis_name ++ 0 ∷ []) (some 4)
      ≡ some ([] ++ out))
    × (get_next_token sjis 0 256 b'=' (literal_quote ∷ (out ++ literal_quote ∷ b';' ∷ []))
        ≡ quoted_token false (unix_text true sjis 0 sjis_name) (b';' ∷ []))
unfolding pg_cs_stat
get_next_token-convert_special_chars_example =
    get_next_token-convert_special_chars plain_mode [] sjis_name [] (b';' ∷ []) 256 b'=' refl refl
      (omega arith) refl refl refl (omega arith) (omega arith)
