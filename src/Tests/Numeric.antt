-- ===== src/Tests/Numeric.antt =====
-- Numbers printed and read, at concrete inputs.
use open_gauss_connector_odb.Base.{
  ℕ, ◌%◌, ◌^◌, ◌≡◌, refl, false, List, [], ◌∷◌, ◌++◌, none, some, arith, leb, length, replicate,
}
use open_gauss_connector_odb.Base.Int.{pos, negsuc}
use open_gauss_connector_odb.Convert.Numeric.{
  NumericStruct, resolve_numeric_param, digit_loop, divide, up_to_lastnonzero, number_text,
  digit_chars, parse_to_numeric_struct,
}
use open_gauss_connector_odb.Convert.Numeric.Parsed.{value, decimal_from}
use open_gauss_connector_odb.Convert.Numeric.Read.{
  signed_by, plus, fraction_digits, fraction_text, parse_to_numeric_struct-decimal,
}
use open_gauss_connector_odb.Convert.Numeric.RoundTrip.{
  parse_to_numeric_struct-resolve_numeric_param,
}

-- -12.05
abbrev minus_twelve : NumericStruct
minus_twelve = record { precision = 10; scale = pos 2; sign = 0; val = 0xb5 ∷ 4 ∷ replicate 14 0 }

printed : resolve_numeric_param minus_twelve ≡ some (b'-' ∷ b'1' ∷ b'2' ∷ b'.' ∷ b'0' ∷ b'5' ∷ [])
unfolding resolve_numeric_param digit_loop divide up_to_lastnonzero number_text digit_chars
printed = refl

-- A negative scale makes the loop over the digits read before their start.
negative_scale : resolve_numeric_param (record minus_twelve { scale = negsuc 0 }) ≡ none
unfolding resolve_numeric_param number_text
negative_scale = refl

parse_to_numeric_struct-decimal_example :
    let (ns, overflow) =
      parse_to_numeric_struct
        (signed_by plus ((b'0' ∷ b'7' ∷ []) ++ fraction_text (some (b'5' ∷ [])))) in
    (value ns.val
      ≡ decimal_from 0 ((b'0' ∷ b'7' ∷ []) ++ fraction_digits (some (b'5' ∷ []))) % 2 ^ 128)
    × (overflow
        ≡ leb (2 ^ 128) (decimal_from 0 ((b'0' ∷ b'7' ∷ []) ++ fraction_digits (some (b'5' ∷ [])))))
    × (ns.scale ≡ pos (length (fraction_digits (some (b'5' ∷ [])))))
    × (ns.sign ≡ 1)
parse_to_numeric_struct-decimal_example =
    parse_to_numeric_struct-decimal plus (b'0' ∷ b'7' ∷ []) (some (b'5' ∷ [])) (omega arith)
      (omega arith) (omega arith)

parse_to_numeric_struct-resolve_numeric_param_example :
    (text : List ℕ) × (resolve_numeric_param minus_twelve ≡ some text)
    × (let (back, overflow) = parse_to_numeric_struct text in
        (value back.val ≡ value minus_twelve.val)
        × (overflow ≡ false)
        × (back.scale ≡ minus_twelve.scale)
        × (back.sign ≡ minus_twelve.sign))
parse_to_numeric_struct-resolve_numeric_param_example =
    parse_to_numeric_struct-resolve_numeric_param minus_twelve 2 (omega arith) refl (omega arith)
      (omega arith) (omega arith) (omega arith)
