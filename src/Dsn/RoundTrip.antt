-- ===== src/Dsn/RoundTrip.antt =====
-- Values that the driver writes into connection strings, read by it again.
use open_gauss_connector_odb.Base.{
  ℕ, suc, ◌+◌, ◌-◌, ◌*◌, ◌/◌, ◌%◌, ◌≤◌, ◌<◌, ◌≡◌, refl, ap, ◌∙◌, ◌==◌, ◌&&◌, ◌||◌, not, Bool, true,
  false, List, [], ◌∷◌, ◌++◌, length, length-append, some, if◌then◌else◌, leb, ltb, arith,
  Bool-cases, inl, inr,
}
use open_gauss_connector_odb.Convert.Numeric.{isspace}
use open_gauss_connector_odb.Parse.{isalnum}
use open_gauss_connector_odb.Convert.Literal.{starts}
use open_gauss_connector_odb.Dsn.{
  hex_digit, hex_pair, put_three, encode_loop, encode, from_hex_digit, conv_from_hex, put_byte,
  decode_loop, c_string, decode, ends_with, brace_loop, name_of, decode_or_remove_braces,
  doubled_braces, bracket_value, make_bracket_connect_string,
}

brace_loop-plain :
    (c : ℕ) (item : List ℕ)
    → (c == b'}') ≡ false
    → brace_loop (c ∷ (doubled_braces item ++ b'}' ∷ []))
      ≡ c ∷ brace_loop (doubled_braces item ++ b'}' ∷ [])
unfolding brace_loop doubled_braces
brace_loop-plain c [] e = rw e refl
brace_loop-plain c (d ∷ item) e = elim (Bool-cases (d == b'}')) [
  | inl f ↦ rw (f, e) refl
  | inr f ↦ rw (f, e) refl
]

brace_loop-doubled_braces : (item : List ℕ) → brace_loop (doubled_braces item ++ b'}' ∷ []) ≡ item
unfolding brace_loop doubled_braces
brace_loop-doubled_braces [] = refl
brace_loop-doubled_braces (c ∷ item) = elim (Bool-cases (c == b'}')) [
  | inl e ↦ rw (e, e) (ap (◌∷◌ c) (brace_loop-doubled_braces item))
  | inr e ↦ rw e (brace_loop-plain c item e ∙ ap (◌∷◌ c) (brace_loop-doubled_braces item))
]

ends_with-last : (b : ℕ) (cs : List ℕ) → ends_with b (cs ++ b ∷ []) ≡ true
unfolding ends_with
ends_with-last b [] = ground arith
ends_with-last b (c ∷ []) = ground arith
ends_with-last b (c ∷ d ∷ cs) = ends_with-last b (d ∷ cs)

decode_loop-one :
    (c : ℕ) (ins : List ℕ)
    → (c == b'%') ≡ false
    → decode_loop (c ∷ ins) ≡ put_byte (if c == b'+' then b' ' else c) (decode_loop ins)
unfolding decode_loop
decode_loop-one c [] e = rw e refl
decode_loop-one c (hi ∷ []) e = rw e refl
decode_loop-one c (hi ∷ lo ∷ ins) e = rw e refl

decode_loop-three :
    (hi lo c : ℕ) (ins outs : List ℕ)
    → conv_from_hex hi lo ≡ c
    → decode_loop ins ≡ some outs
    → decode_loop (b'%' ∷ hi ∷ lo ∷ ins) ≡ some (c ∷ outs)
unfolding decode_loop
decode_loop-three hi lo c ins outs e f = rw (e, f) refl

decode_loop-kept :
    (c : ℕ) (ins outs : List ℕ)
    → (c == b'%') ≡ false
    → decode_loop ins ≡ some outs
    → decode_loop (c ∷ ins) ≡ some ((if c == b'+' then b' ' else c) ∷ outs)
decode_loop-kept c ins outs e f = decode_loop-one c ins e ∙ rw f refl

decode_loop-end : decode_loop [] ≡ some []
unfolding decode_loop
decode_loop-end = refl

conv_from_hex-hex_digit :
    (c : ℕ) → c < 256 → conv_from_hex (hex_digit (c / 16)) (hex_digit (c % 16)) ≡ c
unfolding conv_from_hex from_hex_digit
conv_from_hex-hex_digit c h = ground arith

-- A value in braces, as `makeBracketConnectString` writes it, is read as the item; and with a name of
-- at most 25 bytes what is written ends, with its null, within the memory that is taken for it.
pub decode_or_remove_braces-bracket_value :
    (c : ℕ) (item optname : List ℕ)
    → length optname ≤ 25
    → (decode_or_remove_braces (bracket_value (c ∷ item)) ≡ some (some (c ∷ item)))
      × (len : ℕ) × (made : List ℕ) × (make_bracket_connect_string (c ∷ item) optname
          ≡ some (len, made))
      × (made ≡ optname ++ b'=' ∷ (bracket_value (c ∷ item) ++ b';' ∷ []))
      × (length made < len)
unfolding decode_or_remove_braces make_bracket_connect_string bracket_value
decode_or_remove_braces-bracket_value c item optname h =
    let item' = doubled_braces (c ∷ item) in
    let read = ends_with-last b'}' (b'{' ∷ item') in
    (
      rw read (ap (λ x. some (some x)) (brace_loop-doubled_braces (c ∷ item))),
      length item' + 30,
      _,
      refl,
      refl,
      omega (
        arith,
        h,
        length-append optname (b'=' ∷ (bracket_value (c ∷ item) ++ b';' ∷ [])),
        length-append (bracket_value (c ∷ item)) (b';' ∷ []),
        length-append item' (b'}' ∷ []),
      ),
    )

-- Bytes that `encode` keeps: no white space but blanks, and none from 0x80 on where `char` is signed.
abbrev pub AreKept : Bool → List ℕ → Type 0
AreKept signed_char [] = Unit
AreKept signed_char (c ∷ cs) =
    (0 < c)
    × (c < 256)
    × ((isspace c && not (c == b' ') || signed_char && leb 0x80 c) ≡ false)
    × AreKept signed_char cs

-- There is room for one byte more.
has_room : (outlen o n : ℕ) → o + 3 * suc n < outlen → ltb o (outlen - 1) ≡ true
has_room outlen o n h = ground arith

has_wide_room : (outlen o n : ℕ) → o + 3 * suc n < outlen → leb outlen (o + 2) ≡ false
has_wide_room outlen o n h = ground arith

is_not_last : (outlen o n : ℕ) → o + 3 * suc n < outlen → (o + 3 == outlen) ≡ false
is_not_last outlen o n h = ground arith

module _ (signed_char : Bool) (c : ℕ)
    (s : (isspace c && not (c == b' ') || signed_char && leb 0x80 c) ≡ false) where
  kept-blank : isspace c ≡ true → c ≡ b' '
  kept-blank space = ground arith

  kept-low : (signed_char && leb 0x80 c) ≡ false
  kept-low = ground arith

equal : (c d : ℕ) → (c == d) ≡ true → c ≡ d
equal c d e = ground arith

alnum-percent : (c : ℕ) → isalnum c ≡ true → (c == b'%') ≡ false
alnum-percent c alnum = ground arith

decode_loop-encode_loop :
    (signed_char : Bool) (outlen o : ℕ) (ins : List ℕ)
    → AreKept signed_char ins
    → o + 3 * length ins < outlen
    → decode_loop (encode_loop signed_char outlen o ins) ≡ some ins
unfolding encode_loop hex_pair put_three conv_from_hex from_hex_digit
decode_loop-encode_loop signed_char outlen o [] k h = decode_loop-end
decode_loop-encode_loop signed_char outlen o (c ∷ ins) (p, b, s, k) h =
    let one = decode_loop-encode_loop signed_char outlen (o + 1) ins k (omega (arith, h)) in
    let three = decode_loop-encode_loop signed_char outlen (o + 3) ins k (omega (arith, h)) in
    let room : ltb o (outlen - 1) ≡ true = has_room outlen o (length ins) h in
    let wide : leb outlen (o + 2) ≡ false = has_wide_room outlen o (length ins) h in
    let last : (o + 3 == outlen) ≡ false = is_not_last outlen o (length ins) h in
    elim (Bool-cases (c == b'+')) [
      | inl plus ↦
          let sign : c ≡ b'+' = equal c b'+' plus in
          rw (room, plus, wide, last, sign)
            (decode_loop-three b'2' b'B' b'+' (encode_loop signed_char outlen (o + 3) ins) ins refl
              three)
      | inr plus ↦ elim (Bool-cases (isspace c)) [
        | inl space ↦
            let blank : c ≡ b' ' = kept-blank signed_char c s space in
            rw (room, plus, space, blank)
              (decode_loop-kept b'+' (encode_loop signed_char outlen (o + 1) ins) ins refl one)
        | inr space ↦ elim (Bool-cases (isalnum c)) [
          | inl alnum ↦
              let other : (c == b'%') ≡ false = alnum-percent c alnum in
              rw (room, plus, space, alnum) (decode_loop-kept c _ ins other one ∙ rw plus refl)
          | inr alnum ↦
              let low : (signed_char && leb 0x80 c) ≡ false = kept-low signed_char c s in
              rw (room, plus, space, alnum, wide, last, low)
                (decode_loop-three (hex_digit (c / 16)) (hex_digit (c % 16)) c
                  (encode_loop signed_char outlen (o + 3) ins) ins (conv_from_hex-hex_digit c b)
                  three)
        ]
      ]
    ]

c_string-NonNull : (signed_char : Bool) (cs : List ℕ) → AreKept signed_char cs → c_string cs ≡ cs
unfolding c_string
c_string-NonNull signed_char [] k = refl
c_string-NonNull signed_char (c ∷ cs) (p, b, s, k) =
    let some_byte : (c == 0) ≡ false = ground arith in
    rw some_byte (ap (◌∷◌ c) (c_string-NonNull signed_char cs k))

decode_of : (d : ℕ) (e : List ℕ) → decode (d ∷ e) ≡ name_of (decode_loop (d ∷ e))
unfolding decode
decode_of d e = refl

-- What is not empty is read by the loop, and the names that begin with no brace by `decode`.
decode-read :
    (e : List ℕ) (c : ℕ) (outs : List ℕ)
    → decode_loop e ≡ some (c ∷ outs)
    → c_string (c ∷ outs) ≡ c ∷ outs
    → decode e ≡ some (some (c ∷ outs))
unfolding decode decode_loop
decode-read [] c outs f g = absurd (ground arith)
decode-read (d ∷ e) c outs f g = rw (decode_of d e, f) (ap (λ x. some (some x)) g)

encode_loop-no_brace :
    (signed_char : Bool) (outlen o : ℕ) (ins : List ℕ)
    → starts b'{' (encode_loop signed_char outlen o ins) ≡ false
unfolding encode_loop put_three
encode_loop-no_brace signed_char outlen o [] = refl
encode_loop-no_brace signed_char outlen o (c ∷ ins) = ground arith

decode_or_remove_braces-plain :
    (e : List ℕ) → starts b'{' e ≡ false → decode_or_remove_braces e ≡ decode e
unfolding decode_or_remove_braces
decode_or_remove_braces-plain [] h = refl
decode_or_remove_braces-plain (c ∷ e) h = rw h refl

-- A password, not empty, whose white space is blanks, and whose bytes are below 0x80 where `char` is
-- signed, is read from the connection string as it was, if the target of `encode` has more than three
-- bytes for each of its bytes.
pub decode_or_remove_braces-encode :
    (signed_char : Bool) (outlen c : ℕ) (ins : List ℕ)
    → AreKept signed_char (c ∷ ins)
    → 3 * length (c ∷ ins) < outlen
    → decode_or_remove_braces (encode signed_char (some (c ∷ ins)) outlen) ≡ some (some (c ∷ ins))
unfolding encode
decode_or_remove_braces-encode signed_char outlen c ins k h =
    decode_or_remove_braces-plain _ (encode_loop-no_brace signed_char outlen 0 (c ∷ ins))
    ∙ decode-read _ c ins
        (decode_loop-encode_loop signed_char outlen 0 (c ∷ ins) k (omega (arith, h)))
        (c_string-NonNull signed_char (c ∷ ins) k)
