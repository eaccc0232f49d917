-- ===== src/Tests/Strings.antt =====
-- Strings and names at concrete inputs.
use open_gauss_connector_odb.Base.{
  Option, ℕ, suc, ◌+◌, ◌*◌, ◌≤◌, ◌≡◌, refl, List, [], ◌∷◌, ◌++◌, none, some, length, arith,
}
use open_gauss_connector_odb.Base.Int.{pos}
use open_gauss_connector_odb.Strings.{
  cat_loop, sql_nts, strlcat, my_trim, my_strcpy, strcpy_of, strlen, strcpy_truncated, make_string,
  quote_table, quote_schema, quote_name,
}
use open_gauss_connector_odb.Strings.Copies.{make_string-unterminated}
use open_gauss_connector_odb.Strings.Bounds.{length-quote_table}
use open_gauss_connector_odb.Strings.Quoted.{
  read_qualified, IsFront, schema_room, read_qualified-quote_table,
}

abbrev abc : List ℕ
abc = b'a' ∷ b'b' ∷ b'c' ∷ []

cut_copy : my_strcpy 3 (abc ++ 0 ∷ []) sql_nts ≡ some (b'a' ∷ b'b' ∷ [], strcpy_truncated)
unfolding my_strcpy strcpy_of strlen
cut_copy = refl

trimmed : my_trim (b' ' ∷ b'a' ∷ b' ' ∷ b' ' ∷ []) ≡ b' ' ∷ b'a' ∷ []
unfolding my_trim
trimmed = refl

quoted_names :
    quote_table (some (b's' ∷ [])) (b'a' ∷ b'"' ∷ []) 100
    ≡ b'"' ∷ b's' ∷ b'"' ∷ b'.' ∷ b'"' ∷ b'a' ∷ b'"' ∷ b'"' ∷ b'"' ∷ []
unfolding quote_table quote_schema quote_name
quoted_names = refl

make_string-unterminated_example :
    (make_string (some abc) (pos 2) (some 3) ≡ none)
    × (make_string (some abc) sql_nts (some 3) ≡ none)
make_string-unterminated_example = make_string-unterminated abc 2 (some 3) (omega arith)

joined_in_six : strlcat abc abc 6 ≡ (b'a' ∷ b'b' ∷ b'c' ∷ b'a' ∷ b'b' ∷ [], 6)
unfolding strlcat cat_loop
joined_in_six = refl

abbrev long_name : List ℕ
long_name = b'"' ∷ b'"' ∷ b'x' ∷ []

length-quote_table_example : suc (length (quote_table (some long_name) long_name 8)) ≤ 8
length-quote_table_example = length-quote_table (some long_name) long_name 8 (omega arith)

read_qualified-quote_table_example :
    (s : Option (List ℕ)) × (t : List ℕ) × (t_left : List ℕ) × (read_qualified
        (quote_table (some long_name) long_name 10)
      ≡ some (s, t))
    × IsFront (some long_name) s
    × (t ++ t_left ≡ long_name)
    × (schema_room (some long_name) + 3 ≤ 10 → s ≡ some long_name)
    × (schema_room (some long_name) + 2 * length long_name + 3 ≤ 10 → t_left ≡ [])
read_qualified-quote_table_example = read_qualified-quote_table (some long_name) long_name 10
