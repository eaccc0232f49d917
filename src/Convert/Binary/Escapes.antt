-- ===== src/Convert/Binary/Escapes.antt =====
-- The escapes of bytes in a literal of the query.
use open_gauss_connector_odb.Base.{
  ℕ, ◌+◌, ◌/◌, ◌%◌, ◌≡◌, refl, ◌⊎◌, inl, inr, ◌==◌, Bool, true, false, ◌&&◌, ◌||◌, List, ◌∷◌,
  Option, none, some, ltb, if◌then◌else◌, arith,
}
use open_gauss_connector_odb.Convert.Hex.{hex_digits}
use open_gauss_connector_odb.Convert.Literal.{cc_get_escape}
use open_gauss_connector_odb.Convert.Binary.{
  bytea_escape_char, conv_to_octal, conv_to_octal2, BinaryMode, octal_text, convert_to_pgbinary,
}

-- The step of the loop at a byte that is not kept.
abbrev pub octal_digits : ℕ → List ℕ → List ℕ
octal_digits b rest = (b'0' + b / 8 / 8 % 8) ∷ (b'0' + b / 8 % 8) ∷ (b'0' + b % 8) ∷ rest

pub octal_text-step :
    (isalnum : ℕ → Bool) (q : BinaryMode) (escape b : ℕ) (bs : List ℕ)
    → q.escape_in_literal ≡ escape
    → q.bind_request ≡ false
    → (ltb b 128 && (isalnum b || b == b' ')) ≡ false
    → octal_text isalnum q (b ∷ bs) ≡ (
        if escape == 0
        then bytea_escape_char ∷ octal_digits b (octal_text isalnum q bs)
        else escape ∷ bytea_escape_char ∷ octal_digits b (octal_text isalnum q bs))
unfolding octal_text conv_to_octal conv_to_octal2
octal_text-step isalnum q escape b bs e n p = ground arith

pub escape_known : (o : Option Bool) → (cc_get_escape o ≡ 0) ⊎ (cc_get_escape o ≡ bytea_escape_char)
escape_known none = inl refl
escape_known (some true) = inl refl
escape_known (some false) = inr refl

pub convert_to_pgbinary-escaped :
    (isalnum : ℕ → Bool) (q : BinaryMode) (escape : ℕ) (bs : List ℕ)
    → q.hex_bin_format ≡ true
    → q.escape_in_literal ≡ escape
    → q.bind_request ≡ false
    → convert_to_pgbinary isalnum q bs ≡ (
        if escape == 0
        then bytea_escape_char ∷ b'x' ∷ hex_digits bs
        else escape ∷ bytea_escape_char ∷ b'x' ∷ hex_digits bs)
unfolding convert_to_pgbinary
convert_to_pgbinary-escaped isalnum q escape bs f e n = ground arith
