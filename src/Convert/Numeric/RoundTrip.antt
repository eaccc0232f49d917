-- ===== src/Convert/Numeric/RoundTrip.antt =====
-- A number printed by `ResolveNumericParam` and read by `parse_to_numeric_struct`.
use open_gauss_connector_odb.Base.{
  ℕ, zero, suc, ◌^◌, ◌<◌, ◌≤◌, ◌≡◌, Bool-cases, inl, inr, refl, sym, ap, ◌∙◌, ◌==◌, false, List, [],
  ◌∷◌, ◌++◌, some, length, ltb, if◌then◌else◌, arith,
}
use open_gauss_connector_odb.Base.Int.{ℤ, pos}
use open_gauss_connector_odb.Convert.Numeric.{
  NumericStruct, max_numeric_digits, up_to_lastnonzero, digit_loop, divide, number_text,
  resolve_numeric_param, parse_to_numeric_struct,
}
use open_gauss_connector_odb.Convert.Numeric.Parsed.{value, decimal_from}
use open_gauss_connector_odb.Convert.Numeric.Read.{
  fraction_digits, fraction_text, signed_by, minus_if, parse_to_numeric_struct-decimal,
}
use open_gauss_connector_odb.Convert.Numeric.Digits.{digit_loop-value, number_text-PrintsAs}

-- The number of digits that a number may have.
abbrev pub digits_within : ℕ → ℕ
digits_within precision = if ltb max_numeric_digits precision then max_numeric_digits else precision

some_digit :
    (r : ℕ) (used rest : List ℕ) → 0 < length (elim used [ [] ↦ r ∷ [] | e ∷ es ↦ r ∷ rest ])
some_digit r [] rest = omega arith
some_digit r (u ∷ us) rest = omega arith

digit_loop-some : (left : ℕ) (vals : List ℕ) → 0 < left → 0 < length (digit_loop left vals)
unfolding digit_loop
digit_loop-some zero vals h = absurd (omega arith)
digit_loop-some (suc left) vals h =
    some_digit ((divide vals).1) (up_to_lastnonzero ((divide vals).0))
      (digit_loop left (up_to_lastnonzero ((divide vals).0)))

resolve-signed :
    (precision sign : ℕ) (scale : ℤ) (val : List ℕ) (s : ℕ) (text : List ℕ)
    → 0 < precision
    → scale ≡ pos s
    → number_text (digit_loop (digits_within precision) val) (pos s) ≡ some text
    → resolve_numeric_param
        (record { precision = precision; scale = scale; sign = sign; val = val })
      ≡ some (signed_by (minus_if (sign == 0)) text)
unfolding resolve_numeric_param
resolve-signed precision sign scale val s text p e made =
    let positive : (precision == 0) ≡ false = ground arith in
    elim (Bool-cases (sign == 0)) [
      | inl neg ↦ rw (e, resolve_numeric_param, positive, made, neg) refl
      | inr not_neg ↦ rw (e, resolve_numeric_param, positive, made, not_neg) refl
    ]

-- A number that is printed is read again with its value, its scale and its sign, and without the
-- overflow flag, where it has no more digits than its precision, 39 at most, and the scale is not
-- negative and below 48.
pub parse_to_numeric_struct-resolve_numeric_param :
    (ns : NumericStruct) (s : ℕ)
    → 0 < ns.precision
    → ns.scale ≡ pos s
    → s < 48
    → ns.sign < 2
    → value ns.val < 10 ^ digits_within ns.precision
    → value ns.val < 2 ^ 128
    → (text : List ℕ) × (resolve_numeric_param ns ≡ some text)
      × (let (back, overflow) = parse_to_numeric_struct text in
          (value back.val ≡ value ns.val)
          × (overflow ≡ false)
          × (back.scale ≡ ns.scale)
          × (back.sign ≡ ns.sign))
parse_to_numeric_struct-resolve_numeric_param ns s p e small sgn fits range =
    let left = digits_within ns.precision in
    let calv = digit_loop left ns.val in
    let (whole, digits, few) = digit_loop-value left ns.val fits in
    let most : left ≤ 39 = ground arith in
    let least : 0 < left = ground arith in
    let (is, o, made, is_digits, o_digits, short, frac, same) =
      number_text-PrintsAs calv s digits (digit_loop-some left ns.val least) (omega arith) small in
    let (val_same, flag, scale_same, sign_same) =
      parse_to_numeric_struct-decimal (minus_if (ns.sign == 0)) is o is_digits o_digits short in
    let number : decimal_from 0 (is ++ fraction_digits o) ≡ value ns.val = same ∙ whole in
    (
      signed_by (minus_if (ns.sign == 0)) (is ++ fraction_text o),
      resolve-signed ns.precision ns.sign ns.scale ns.val s (is ++ fraction_text o) p e made,
      (
        val_same ∙ rw number (omega arith),
        flag ∙ rw number (ground arith),
        scale_same ∙ ap pos frac ∙ sym e,
        sign_same ∙ ground arith,
      ),
    )
