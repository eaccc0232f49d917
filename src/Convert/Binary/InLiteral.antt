-- ===== src/Convert/Binary/InLiteral.antt =====
-- Bytes in a literal of the query.
use mathlib.Core.List.{append-nil}
use open_gauss_connector_odb.Base.{
  ℕ, ◌+◌, ◌/◌, ◌%◌, ◌<◌, ◌≡◌, refl, sym, ap, ◌∙◌, ◌⊎◌, inl, inr, ◌==◌, Bool, true, false, not, ◌&&◌,
  ◌||◌, List, [], ◌∷◌, ◌++◌, Option, some, ltb, if◌then◌else◌, arith, Bool-cases,
}
use open_gauss_connector_odb.Encoding.{CharacterSet}
use open_gauss_connector_odb.Convert.Hex.{hextbl, hex_digits}
use open_gauss_connector_odb.Convert.Literal.{literal_quote, cc_get_escape, starts}
use open_gauss_connector_odb.Convert.Literal.Marks.{pg_cs_stat_ascii}
use open_gauss_connector_odb.Convert.Literal.Read.{
  read_literal, read_literal-keep, read_literal-twice, read_literal-end,
}
use open_gauss_connector_odb.Convert.Binary.{
  bytea_escape_char, convert_from_pgbinary, conv_to_octal, conv_to_octal2, BinaryMode, octal_text,
  convert_to_pgbinary,
}
use open_gauss_connector_odb.Convert.Binary.RoundTrip.{
  AreBytes, IsAlnum, Plain-kept, undoubled, hextbl-plain, convert_to_pgbinary-octal,
  convert_from_pgbinary-convert_to_pgbinary,
}
use open_gauss_connector_odb.Convert.Binary.Escapes.{
  octal_digits, octal_text-step, escape_known, convert_to_pgbinary-escaped,
}

module _ (set : CharacterSet) (escape : ℕ) where
  -- The server reads the text `out`, before `more`, as `text`.
  ReadsAs : List ℕ → List ℕ → Type 0
  ReadsAs out text =
      (more value rest : List ℕ)
      → read_literal set escape 0 more ≡ some (value, rest)
      → read_literal set escape 0 (out ++ more) ≡ some (text ++ value, rest)

  ReadsAs-none : ReadsAs [] []
  unfolding ReadsAs
  ReadsAs-none more value rest h = h

  ReadsAs-one :
      (c : ℕ) (out text : List ℕ)
      → c < 128
      → ((c == literal_quote) ≡ false)
      → ((not (escape == 0) && c == escape) ≡ false)
      → ReadsAs out text
      → ReadsAs (c ∷ out) (c ∷ text)
  unfolding ReadsAs
  ReadsAs-one c out text low q e later more value rest h =
      let ascii = pg_cs_stat_ascii c set low in
      rw
        (
          read_literal-keep set escape 0 c (out ++ more) (inr (ground arith)),
          ascii,
          later more value rest h,
        )
        refl

  ReadsAs-twice :
      (c d : ℕ) (out text : List ℕ)
      → d < 128
      → c ≡ d
      → ((not (escape == 0) && d == escape) ≡ true)
      → ReadsAs out text
      → ReadsAs (c ∷ d ∷ out) (d ∷ text)
  unfolding ReadsAs
  ReadsAs-twice c d out text low same e later more value rest h =
      rw
        (
          same,
          read_literal-twice set escape 0 d (out ++ more) (pg_cs_stat_ascii d set low) low
              (ground arith),
          later more value rest h,
        )
        refl

  ReadsAs-hex_digits :
      (bs : List ℕ)
      → (escape ≡ 0) ⊎ (escape ≡ bytea_escape_char)
      → AreBytes bs
      → ReadsAs (hex_digits bs) (hex_digits bs)
  ReadsAs-hex_digits [] k u = ReadsAs-none
  ReadsAs-hex_digits (b ∷ bs) k (low, u) =
      let (p, q) = hextbl-plain (b / 16) (omega arith) in
      let (r, s) = hextbl-plain (b % 16) (omega arith) in
      ReadsAs-one (hextbl (b / 16)) _ _ (omega arith) (ground arith) (ground arith) (
        ReadsAs-one (hextbl (b % 16)) _ _ (omega arith) (ground arith) (ground arith)
          (ReadsAs-hex_digits bs k u))

  -- A backslash that is doubled where it has to be.
  ReadsAs-backslash :
      (out text : List ℕ)
      → (escape ≡ 0) ⊎ (escape ≡ bytea_escape_char)
      → ReadsAs out text
      → ReadsAs
          (if escape == 0 then bytea_escape_char ∷ out else escape ∷ bytea_escape_char ∷ out)
          (bytea_escape_char ∷ text)
  ReadsAs-backslash out text (inl z) later =
      let none_known : (escape == 0) ≡ true = ground arith in
      rw none_known
        (ReadsAs-one bytea_escape_char out text (omega arith) (ground arith) (ground arith) later)
  ReadsAs-backslash out text (inr b) later =
      let one_known : (escape == 0) ≡ false = ground arith in
      rw one_known
        (ReadsAs-twice escape bytea_escape_char out text (omega arith) b (ground arith) later)

  ReadsAs-octal_digits :
      (b : ℕ) (out text : List ℕ)
      → (escape ≡ 0) ⊎ (escape ≡ bytea_escape_char)
      → ReadsAs out text
      → ReadsAs (octal_digits b out) (octal_digits b text)
  ReadsAs-octal_digits b out text k later =
      let first = b'0' + b / 8 / 8 % 8 in
      let second = b'0' + b / 8 % 8 in
      let third = b'0' + b % 8 in
      ReadsAs-one first _ _ (omega arith) (ground arith) (ground arith) (
        ReadsAs-one second _ _ (omega arith) (ground arith) (ground arith)
          (ReadsAs-one third _ _ (omega arith) (ground arith) (ground arith) later))

  ReadsAs-end :
      (out text rest : List ℕ)
      → starts literal_quote rest ≡ false
      → ReadsAs out text
      → read_literal set escape 0 (out ++ literal_quote ∷ rest) ≡ some (text, rest)
  unfolding ReadsAs
  ReadsAs-end out text rest closed reads =
      reads (literal_quote ∷ rest) [] rest (
        read_literal-end set escape 0 rest (pg_cs_stat_ascii literal_quote set (omega arith))
          closed)
      ∙ ap (λ t. some (t, rest)) (append-nil text)

  module _ (isalnum : ℕ → Bool) (known : IsAlnum isalnum) where
    ReadsAs-octal_text :
        (q : BinaryMode) (bs : List ℕ)
        → (escape ≡ 0) ⊎ (escape ≡ bytea_escape_char)
        → q.escape_in_literal ≡ escape
        → q.bind_request ≡ false
        → AreBytes bs
        → ReadsAs (octal_text isalnum q bs) (octal_text isalnum (undoubled q) bs)
    unfolding octal_text conv_to_octal conv_to_octal2
    ReadsAs-octal_text q [] k e n u = ReadsAs-none
    ReadsAs-octal_text q (b ∷ bs) k e n (low, u) =
        elim (Bool-cases (ltb b 128 && (isalnum b || b == b' '))) [
          | inl p ↦
              let (_, less, quote, backslash) = Plain-kept isalnum known b p in
              rw p (ReadsAs-one b _ _ less quote (ground arith) (ReadsAs-octal_text q bs k e n u))
          | inr p ↦
              rw
                (
                  octal_text-step isalnum q escape b bs e n p,
                  octal_text-step isalnum (undoubled q) 0 b bs refl n p,
                )
                (ReadsAs-backslash _ _ k
                  (ReadsAs-octal_digits b _ _ k (ReadsAs-octal_text q bs k e n u)))
        ]

    ReadsAs-convert_to_pgbinary :
        (q : BinaryMode) (bs : List ℕ)
        → (escape ≡ 0) ⊎ (escape ≡ bytea_escape_char)
        → q.escape_in_literal ≡ escape
        → q.bind_request ≡ false
        → AreBytes bs
        → ReadsAs (convert_to_pgbinary isalnum q bs) (convert_to_pgbinary isalnum (undoubled q) bs)
    ReadsAs-convert_to_pgbinary q bs k e n u = elim (Bool-cases q.hex_bin_format) [
      | inr f ↦
          rw
            (
              convert_to_pgbinary-octal isalnum q bs f,
              convert_to_pgbinary-octal isalnum (undoubled q) bs f,
            )
            (ReadsAs-octal_text q bs k e n u)
      | inl f ↦
          rw
            (
              convert_to_pgbinary-escaped isalnum q escape bs f e n,
              convert_to_pgbinary-escaped isalnum (undoubled q) 0 bs f refl n,
            )
            (ReadsAs-backslash _ _ k (
              ReadsAs-one b'x' _ _ (omega arith) (ground arith) (ground arith)
                (ReadsAs-hex_digits bs k u)))
    ]

-- Bytes that are put into a literal of the query, in either format and for every escape character
-- that the driver takes from the connection: the server ends the literal at the quote behind them,
-- and `convert_from_pgbinary` makes the bytes of the value that the server has read.
pub convert_to_pgbinary-read_literal :
    (set : CharacterSet) (o : Option Bool) (isalnum : ℕ → Bool) (q : BinaryMode)
    (bs tail rest : List ℕ)
    → IsAlnum isalnum
    → q.escape_in_literal ≡ cc_get_escape o
    → q.bind_request ≡ false
    → AreBytes bs
    → starts literal_quote rest ≡ false
    → (value : List ℕ) × (read_literal set q.escape_in_literal 0
          (convert_to_pgbinary isalnum q bs ++ literal_quote ∷ rest)
        ≡ some (value, rest))
      × (convert_from_pgbinary (value ++ 0 ∷ tail) false ≡ some bs)
convert_to_pgbinary-read_literal set o isalnum q bs tail rest known e n u closed =
    let escape = q.escape_in_literal in
    let k : (escape ≡ 0) ⊎ (escape ≡ bytea_escape_char) = rw (sym e) at (escape_known o) in
    let value = convert_to_pgbinary isalnum (undoubled q) bs in
    (
      value,
      ReadsAs-end set escape _ value rest closed
          (ReadsAs-convert_to_pgbinary set escape isalnum known q bs k refl n u),
      convert_from_pgbinary-convert_to_pgbinary isalnum (undoubled q) bs tail known (ground arith)
          u,
    )
