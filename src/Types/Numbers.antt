-- ===== src/Types/Numbers.antt =====
-- Modifiers of numbers, as the server packs them, and what the driver reads of them.
use mathlib.Core.Path.{subst}
use open_gauss_connector_odb.Base.{
  ℕ, zero, suc, ◌+◌, ◌-◌, ◌*◌, ◌^◌, ◌≤◌, ◌<◌, ◌≡◌, sym, refl, ltb, if◌then◌else◌, arith,
}
use open_gauss_connector_odb.Base.Int.{ℤ, pos, negsuc, ◌≤ℤ◌, ◌<ℤ◌, ◌+ℤ◌, ◌-ℤ◌, to_i16}
use open_gauss_connector_odb.Types.{TypeSettings, pg_type_numeric}
use open_gauss_connector_odb.Types.Sizes.{get_numeric_decimal_digits, get_numeric_column_size}
use open_gauss_connector_odb.Types.Columns.{
  pgtype_attr_column_size, pgtype_attr_display_size, pgtype_attr_decimal_digits, pgtype_attr_scale,
  numeric_display_size, signed_size,
}

-- A scale in the lower 16 bits.
abbrev scale_bits : ℤ → ℕ
scale_bits (pos n) = n
scale_bits (negsuc n) = 2 ^ 16 - 1 - n

-- The modifier of a number with `p` digits, `scale` of which are behind the point.
abbrev pub numeric_typmod : ℕ → ℤ → ℤ
numeric_typmod p scale = pos (p * 2 ^ 16 + scale_bits scale)

-- The characters of the longest number: a sign, the digits before the point, of which there is one at
-- least, and the point and the digits behind it, if there are such; with a negative scale zeros follow
-- the digits.
abbrev pub text_size : ℕ → ℤ → ℕ
text_size p (pos zero) = 1 + p
text_size p (pos (suc s)) = 1 + (if ltb (suc s) p then p - suc s else 1) + 1 + suc s
text_size p (negsuc n) = 1 + p + suc n

get_numeric_decimal_digits-numeric_typmod :
    (p : ℕ) (scale adtsize : ℤ)
    → negsuc (2 ^ 15 - 2) ≤ℤ scale
    → scale <ℤ pos (2 ^ 15)
    → get_numeric_decimal_digits (numeric_typmod p scale) adtsize ≡ scale
unfolding get_numeric_decimal_digits to_i16
get_numeric_decimal_digits-numeric_typmod p (pos s) adtsize l h = ground arith
get_numeric_decimal_digits-numeric_typmod p (negsuc s) adtsize l h = ground arith

get_numeric_column_size-numeric_typmod :
    (p : ℕ) (scale adtsize unknown : ℤ)
    → p < 2 ^ 15
    → negsuc (2 ^ 15 - 2) ≤ℤ scale
    → scale <ℤ pos (2 ^ 15)
    → get_numeric_column_size (numeric_typmod p scale) adtsize unknown ≡ pos p
unfolding get_numeric_column_size
get_numeric_column_size-numeric_typmod p (pos s) adtsize unknown b l h = ground arith
get_numeric_column_size-numeric_typmod p (negsuc s) adtsize unknown b l h = ground arith

text_size-numeric_display_size :
    (p : ℕ) (scale adtsize : ℤ)
    → negsuc (2 ^ 15 - 2) ≤ℤ scale
    → 1 ≤ p
    → scale <ℤ pos p
    → pos (text_size p scale) ≤ℤ numeric_display_size scale (pos p) adtsize
unfolding numeric_display_size signed_size ◌+ℤ◌ ◌-ℤ◌
text_size-numeric_display_size p (pos zero) adtsize l g h = ground arith
text_size-numeric_display_size p (pos (suc s)) adtsize l g h = ground arith
text_size-numeric_display_size p (negsuc s) adtsize l g h = ground arith

-- What the tables say of a number with `p` digits and a scale.
abbrev pub IsNumeric : TypeSettings → ℕ → ℤ → ℤ → ℤ → Type 0
IsNumeric conn p scale adtsize unknown =
    let typmod = numeric_typmod p scale in
    (pgtype_attr_column_size conn pg_type_numeric typmod adtsize unknown ≡ pos p)
    × (pgtype_attr_decimal_digits pg_type_numeric typmod adtsize ≡ scale)
    × (pgtype_attr_scale pg_type_numeric typmod adtsize ≡ scale)
    × (pos (text_size p scale)
        ≤ℤ pgtype_attr_display_size conn pg_type_numeric typmod adtsize unknown)

pgtype_attr_display_size-numeric :
    (conn : TypeSettings) (t adtsize unknown : ℤ)
    → pgtype_attr_display_size conn pg_type_numeric t adtsize unknown
      ≡ numeric_display_size
          (get_numeric_decimal_digits t adtsize)
          (get_numeric_column_size t adtsize unknown)
          adtsize
unfolding pgtype_attr_display_size
pgtype_attr_display_size-numeric conn t adtsize unknown = refl

pgtype_attr_display_size-numeric_typmod :
    (conn : TypeSettings) (t adtsize unknown scale size : ℤ)
    → get_numeric_decimal_digits t adtsize ≡ scale
    → get_numeric_column_size t adtsize unknown ≡ size
    → pgtype_attr_display_size conn pg_type_numeric t adtsize unknown
      ≡ numeric_display_size scale size adtsize
pgtype_attr_display_size-numeric_typmod conn t adtsize unknown scale size e f =
    rw (pgtype_attr_display_size-numeric conn t adtsize unknown, e, f) refl

-- The modifier of a number gives the digits as the size of the column, and the scale, also where that is
-- negative; and the display size holds the longest number where fewer digits than all are behind the point.
pub pgtype_attr_display_size-IsNumeric :
    (conn : TypeSettings) (p : ℕ) (scale adtsize unknown : ℤ)
    → 1 ≤ p
    → p < 2 ^ 15
    → negsuc (2 ^ 15 - 2) ≤ℤ scale
    → scale <ℤ pos p
    → IsNumeric conn p scale adtsize unknown
unfolding pgtype_attr_column_size pgtype_attr_decimal_digits pgtype_attr_scale
pgtype_attr_display_size-IsNumeric conn p scale adtsize unknown h b l m =
    let low : scale <ℤ pos (2 ^ 15) = omega arith in
    let size = get_numeric_column_size-numeric_typmod p scale adtsize unknown b l low in
    let digits = get_numeric_decimal_digits-numeric_typmod p scale adtsize l low in
    let display =
      pgtype_attr_display_size-numeric_typmod conn (numeric_typmod p scale) adtsize unknown scale
        (pos p) digits size in
    (
      size,
      digits,
      digits,
      subst (λ x. pos (text_size p scale) ≤ℤ x) (sym display)
          (text_size-numeric_display_size p scale adtsize l h m),
    )
