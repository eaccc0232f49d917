-- ===== src/Convert/Binary/RoundTrip.antt =====
-- Bytes written for the server and read again.
use open_gauss_connector_odb.Base.{
  ℕ, ◌+◌, ◌/◌, ◌%◌, ◌<◌, ◌≡◌, refl, ap, inl, inr, ◌==◌, Bool, true, false, ◌&&◌, ◌||◌, List, [],
  ◌∷◌, ◌++◌, some, ltb, arith, Bool-cases,
}
use open_gauss_connector_odb.Encoding.Walk.{NonNull}
use open_gauss_connector_odb.Convert.Hex.{hextbl, hex_value, hex_digits, pg_hex2bin}
use open_gauss_connector_odb.Convert.Literal.{literal_quote}
use open_gauss_connector_odb.Convert.Binary.{
  bytea_escape_char, conv_from_octal, push, from_text, text_of_memory, convert_from_pgbinary,
  conv_to_octal2, BinaryMode, esc_double, octal_text, convert_to_pgbinary,
}

abbrev pub AreBytes : List ℕ → Type 0
AreBytes [] = Unit
AreBytes (b ∷ bs) = (b < 256) × AreBytes bs

-- A digit is a character below 0x80, and other than null, the quote and the backslash.
pub hextbl-plain : (d : ℕ) → d < 16 → (47 < hextbl d) × (hextbl d < 71)
hextbl-plain d h = ground arith

hex_value-hextbl : (d : ℕ) → d < 16 → hex_value (hextbl d) ≡ d
hex_value-hextbl d h = ground arith

pg_hex2bin-hex_digits : (bs : List ℕ) → AreBytes bs → pg_hex2bin (hex_digits bs) ≡ bs
unfolding pg_hex2bin
pg_hex2bin-hex_digits [] u = refl
pg_hex2bin-hex_digits (b ∷ bs) (h, u) =
    let (p, _) = hextbl-plain (b / 16) (omega arith) in
    let (q, _) = hextbl-plain (b % 16) (omega arith) in
    rw
      (
        hex_value-hextbl (b / 16) (omega arith),
        hex_value-hextbl (b % 16) (omega arith),
        pg_hex2bin-hex_digits bs u,
      )
      (ground arith)

conv_from_octal-conv_to_octal2 :
    (b : ℕ) → b < 256 → conv_from_octal (b'0' + b / 8 / 8 % 8) (b'0' + b / 8 % 8) (b'0' + b % 8) ≡ b
unfolding conv_from_octal
conv_from_octal-conv_to_octal2 b h = omega arith

from_text-plain :
    (c : ℕ) (text : List ℕ)
    → (c == bytea_escape_char) ≡ false
    → from_text false (c ∷ text) ≡ push c (from_text false text)
unfolding from_text
from_text-plain c [] h = ground arith
from_text-plain c (a ∷ []) h = ground arith
from_text-plain c (a ∷ b ∷ []) h = ground arith
from_text-plain c (a ∷ b ∷ d ∷ text) h = ground arith

from_text-octal :
    (a b d : ℕ) (text : List ℕ)
    → a < 56
    → from_text false (bytea_escape_char ∷ a ∷ b ∷ d ∷ text)
      ≡ push (conv_from_octal a b d) (from_text false text)
unfolding from_text
from_text-octal a b d text h = ground arith

from_text-hex :
    (text : List ℕ) → from_text false (bytea_escape_char ∷ b'x' ∷ text) ≡ some (pg_hex2bin text)
unfolding from_text pg_hex2bin
from_text-hex [] = ground arith
from_text-hex (b ∷ []) = ground arith
from_text-hex (b ∷ d ∷ text) = ground arith

-- What the code relies on of `isalnum`: that the null, the quote and the backslash are no letters or
-- digits.
abbrev pub IsAlnum : (ℕ → Bool) → Type 0
IsAlnum isalnum =
    (isalnum 0 ≡ false) × (isalnum literal_quote ≡ false) × (isalnum bytea_escape_char ≡ false)

-- A character that stands for itself in a literal and in a value.
abbrev pub Plain : ℕ → Type 0
Plain c = (0 < c) × (c < 128) × ((c == literal_quote) ≡ false) × ((c == bytea_escape_char) ≡ false)

not-kept : (isalnum : ℕ → Bool) (c b : ℕ) → isalnum c ≡ false → isalnum b ≡ true → (b == c) ≡ false
not-kept isalnum c b n y = elim (Bool-cases (b == c)) [
  | inr e ↦ e
  | inl e ↦ let same : b ≡ c = ground arith in absurd (ground (arith, ap isalnum same))
]

pub Plain-kept :
    (isalnum : ℕ → Bool)
    → IsAlnum isalnum
    → (b : ℕ) → (ltb b 128 && (isalnum b || b == b' ')) ≡ true
    → Plain b
Plain-kept isalnum (null, quote, backslash) b p = elim (Bool-cases (isalnum b)) [
  | inr n ↦ (ground arith, ground arith, ground arith, ground arith)
  | inl y ↦
      let no_null = not-kept isalnum 0 b null y in
      let no_quote = not-kept isalnum literal_quote b quote y in
      let no_backslash = not-kept isalnum bytea_escape_char b backslash y in
      (ground arith, ground arith, no_quote, no_backslash)
]

-- The text of the value: without the escape character of the literal before each backslash.
abbrev pub undoubled : BinaryMode → BinaryMode
undoubled q = record q { escape_in_literal = 0 }

module _ (isalnum : ℕ → Bool) (known : IsAlnum isalnum) where
  from_text-octal_text :
      (q : BinaryMode) (bs : List ℕ)
      → AreBytes bs
      → esc_double q ≡ false
      → from_text false (octal_text isalnum q bs) ≡ some bs
  unfolding octal_text conv_to_octal2 from_text
  from_text-octal_text q [] u e = refl
  from_text-octal_text q (b ∷ bs) (h, u) e =
      elim (Bool-cases (ltb b 128 && (isalnum b || b == b' '))) [
        | inl p ↦
            let (_, _, _, plain) = Plain-kept isalnum known b p in
            rw (p, from_text-plain b (octal_text isalnum q bs) plain, from_text-octal_text q bs u e)
              refl
        | inr p ↦
            rw
              (
                p,
                e,
                from_text-octal (b'0' + b / 8 / 8 % 8) (b'0' + b / 8 % 8) (b'0' + b % 8)
                    (octal_text isalnum q bs) (omega arith),
                conv_from_octal-conv_to_octal2 b h,
                from_text-octal_text q bs u e,
              )
              refl
      ]

  NonNull-octal_text :
      (q : BinaryMode) (bs : List ℕ) → esc_double q ≡ false → NonNull (octal_text isalnum q bs)
  unfolding octal_text conv_to_octal2
  NonNull-octal_text q [] e = tt
  NonNull-octal_text q (b ∷ bs) e = elim (Bool-cases (ltb b 128 && (isalnum b || b == b' '))) [
    | inl p ↦
        let (positive, _, _, _) = Plain-kept isalnum known b p in
        rw p (positive, NonNull-octal_text q bs e)
    | inr p ↦
        rw (p, e)
          (omega arith, (omega arith, (omega arith, (omega arith, NonNull-octal_text q bs e))))
  ]

NonNull-hex_digits : (bs : List ℕ) → AreBytes bs → NonNull (hex_digits bs)
NonNull-hex_digits [] u = tt
NonNull-hex_digits (b ∷ bs) (h, u) =
    let (p, _) = hextbl-plain (b / 16) (omega arith) in
    let (q, _) = hextbl-plain (b % 16) (omega arith) in
    (omega arith, (omega arith, NonNull-hex_digits bs u))

text_of_memory-append : (bs tail : List ℕ) → NonNull bs → text_of_memory (bs ++ 0 ∷ tail) ≡ some bs
text_of_memory-append [] tail nn = refl
text_of_memory-append (b ∷ bs) tail (p, nn) = rw (text_of_memory-append bs tail nn) (ground arith)

module _ (isalnum : ℕ → Bool) (q : BinaryMode) (bs : List ℕ) where
  pub convert_to_pgbinary-hex :
      q.hex_bin_format ≡ true
      → esc_double q ≡ false
      → convert_to_pgbinary isalnum q bs ≡ bytea_escape_char ∷ b'x' ∷ hex_digits bs
  unfolding convert_to_pgbinary
  convert_to_pgbinary-hex f e = ground arith

  pub convert_to_pgbinary-hex_doubled :
      q.hex_bin_format ≡ true
      → esc_double q ≡ true
      → convert_to_pgbinary isalnum q bs
        ≡ q.escape_in_literal ∷ bytea_escape_char ∷ b'x' ∷ hex_digits bs
  unfolding convert_to_pgbinary
  convert_to_pgbinary-hex_doubled f e = ground arith

  pub convert_to_pgbinary-octal :
      q.hex_bin_format ≡ false → convert_to_pgbinary isalnum q bs ≡ octal_text isalnum q bs
  unfolding convert_to_pgbinary
  convert_to_pgbinary-octal f = ground arith

pub convert_from_pgbinary-from_text :
    (text tail : List ℕ) (rawout : Bool)
    → NonNull text
    → convert_from_pgbinary (text ++ 0 ∷ tail) rawout ≡ from_text rawout text
unfolding convert_from_pgbinary
convert_from_pgbinary-from_text text tail rawout nn =
    rw (convert_from_pgbinary, text_of_memory-append text tail nn) refl

-- Without an escape character for the literal, what `convert_to_pgbinary` makes of bytes in either
-- format `convert_from_pgbinary` turns into the bytes again.
pub convert_from_pgbinary-convert_to_pgbinary :
    (isalnum : ℕ → Bool) (q : BinaryMode) (bs tail : List ℕ)
    → IsAlnum isalnum
    → esc_double q ≡ false
    → AreBytes bs
    → convert_from_pgbinary (convert_to_pgbinary isalnum q bs ++ 0 ∷ tail) false ≡ some bs
convert_from_pgbinary-convert_to_pgbinary isalnum q bs tail known e u =
    elim (Bool-cases q.hex_bin_format) [
      | inl f ↦
          let text = bytea_escape_char ∷ b'x' ∷ hex_digits bs in
          let nn : NonNull text = (omega arith, (omega arith, NonNull-hex_digits bs u)) in
          rw
            (
              convert_to_pgbinary-hex isalnum q bs f e,
              convert_from_pgbinary-from_text text tail false nn,
              from_text-hex (hex_digits bs),
            )
            (ap some (pg_hex2bin-hex_digits bs u))
      | inr f ↦
          let text = octal_text isalnum q bs in
          rw
            (
              convert_to_pgbinary-octal isalnum q bs f,
              convert_from_pgbinary-from_text text tail false
                  (NonNull-octal_text isalnum known q bs e),
            )
            (from_text-octal_text isalnum known q bs u e)
    ]
