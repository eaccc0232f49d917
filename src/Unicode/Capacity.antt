-- ===== src/Unicode/Capacity.antt =====
-- `ucs2_to_utf8` and `ucs4_to_utf8` allocate `ilen * 4 + 1` bytes, which the result never overruns.
use open_gauss_connector_odb.Base.{
  ℕ, suc, ◌*◌, ◌^◌, ◌<◌, ◌≤◌, leb, ◌≡◌, refl, inl, inr, ◌==◌, Bool, ◌+◌, if◌then◌else◌, List, [],
  ◌∷◌, Option, none, some, length, take, arith, Bool-cases, length-append, length-take,
}
use open_gauss_connector_odb.Base.Int.{ℤ, pos, negsuc}
use open_gauss_connector_odb.Unicode.{
  code_bytes, bytes2, bytes3, bytes4, bytes_of_pair, is_surrog1, is_surrog2, ucs2_loop, ucs4_loop,
  prepend, Converted, converted, overflow, in_int, ucs2_len, code_len, error, null_data,
  converted_of, ucs2_to_utf8, ucs4_to_utf8, ucs2strlen,
}

-- The bytes written, with the terminating null, fit.
abbrev pub Fits : ℕ → Converted → Type 0
Fits size overflow = ⊥
Fits size null_data = Unit
Fits size error = Unit
Fits size (converted bytes olen) = (suc (length bytes) ≤ size) × (olen ≡ length bytes)

abbrev FitsLoop : ℕ → Option (List ℕ) → Type 0
FitsLoop n none = Unit
FitsLoop n (some bytes) = length bytes ≤ n * 4

module _ (tolower : ℕ → ℕ) (lower : Bool) where
  length-code_bytes_le : (w : ℕ) → length (code_bytes tolower lower w) ≤ 3
  unfolding code_bytes bytes2 bytes3
  length-code_bytes_le w = ground arith

  FitsLoop-prepend :
      (n : ℕ) (p : List ℕ) (o : Option (List ℕ))
      → length p ≤ 4
      → FitsLoop n o
      → FitsLoop (suc n) (prepend p o)
  FitsLoop-prepend n p none h f = tt
  FitsLoop-prepend n p (some bs) h f = omega (arith, length-append p bs)

  FitsLoop-suc : (n : ℕ) (o : Option (List ℕ)) → FitsLoop n o → FitsLoop (suc n) o
  FitsLoop-suc n none f = tt
  FitsLoop-suc n (some bs) f = omega arith

  ucs2_loop-FitsLoop : (ws : List ℕ) → FitsLoop (length ws) (ucs2_loop tolower lower ws)
  unfolding ucs2_loop bytes_of_pair
  ucs2_loop-FitsLoop [] = omega arith
  ucs2_loop-FitsLoop (w ∷ []) = ground (arith, length-code_bytes_le w)
  ucs2_loop-FitsLoop (w ∷ v ∷ ws) =
      let one =
        FitsLoop-prepend (suc (length ws)) (code_bytes tolower lower w) _
          (omega (arith, length-code_bytes_le w)) (ucs2_loop-FitsLoop (v ∷ ws)) in
      let two = FitsLoop-suc _ _ (
        FitsLoop-prepend (length ws) (bytes_of_pair w v) _ (omega arith) (ucs2_loop-FitsLoop ws)) in
      elim (Bool-cases (w == 0)) [
        | inl z ↦ rw z (omega arith)
        | inr nz ↦ elim (Bool-cases (is_surrog1 w)) [
          | inl hi ↦ elim (Bool-cases (is_surrog2 v)) [
            | inl lo ↦ rw (nz, hi, lo) two
            | inr bad ↦ rw (nz, hi, bad) tt
          ]
          | inr single ↦ rw (nz, single) one
        ]
      ]

  length-ucs4_loop : (ws : List ℕ) → length (ucs4_loop tolower lower ws) ≤ length ws * 4
  unfolding ucs4_loop bytes4
  length-ucs4_loop [] = omega arith
  length-ucs4_loop (w ∷ ws) = ground (
    arith,
    length-ucs4_loop ws,
    length-code_bytes_le w,
    length-append (code_bytes tolower lower w) (ucs4_loop tolower lower ws),
  )

code_len_le : (w : ℕ) → code_len w ≤ 3
unfolding code_len
code_len_le w = ground arith

choices_le :
    (z hi lo : Bool) (one two cl n : ℕ)
    → cl ≤ 3
    → one ≤ suc n * 4
    → two ≤ n * 4
    → (if z then 0 else if hi then (if lo then 4 + two else 0) else cl + one) ≤ suc (suc n) * 4
choices_le z hi lo one two cl n c o t = ground arith

-- `len` is less than 4 for each unit.
ucs2_len-le : (ws : List ℕ) → ucs2_len ws ≤ length ws * 4
unfolding ucs2_len
ucs2_len-le [] = omega arith
ucs2_len-le (w ∷ []) = ground (arith, code_len_le w)
ucs2_len-le (w ∷ v ∷ ws) =
    choices_le (w == 0) (is_surrog1 w) (is_surrog2 v) (ucs2_len (v ∷ ws)) (ucs2_len ws) (code_len w)
      (length ws) (code_len_le w) (ucs2_len-le (v ∷ ws)) (ucs2_len-le ws)

Fits-in_int :
    (size len : ℕ) (outcome : Converted)
    → len < 2 ^ 31
    → Fits size outcome
    → Fits size (in_int len outcome)
Fits-in_int size len outcome h f = elim (Bool-cases (leb (2 ^ 31) len)) [
  | inl over ↦ absurd (ground arith)
  | inr inside ↦ rw inside f
]

-- The units that the allocation counts.
abbrev pub counted_units : List ℕ → ℤ → ℕ
counted_units str (pos n) = n
counted_units str (negsuc _) = ucs2strlen str

Fits-converted_of :
    (n m : ℕ) (o : Option (List ℕ)) → m ≤ n → FitsLoop m o → Fits (suc (n * 4)) (converted_of o)
Fits-converted_of n m none h f = tt
Fits-converted_of n m (some bytes) h f = (omega arith, refl)

length-take_le : (n : ℕ) (ws : List ℕ) → length (take n ws) ≤ n
length-take_le n ws = omega (arith, length-take n ws)

-- Where 4 bytes for each unit that `ilen` (or, for a terminated string, its length) counts stay below
-- 2 ^ 31, no `int` of `ucs2_to_utf8` overflows, it writes no more bytes, terminating null included,
-- than the `ilen * 4 + 1` that it has allocated, and `*olen` is the length of the result.
pub ucs2_to_utf8-Fits :
    (tolower : ℕ → ℕ) (str : List ℕ) (ilen : ℤ) (lower_identifier : Bool)
    → counted_units str ilen * 4 < 2 ^ 31
    → Fits
        (suc (counted_units str ilen * 4))
        (ucs2_to_utf8 tolower (some str) ilen lower_identifier)
unfolding ucs2_to_utf8
ucs2_to_utf8-Fits tolower str (pos n) lower small =
    Fits-in_int _ _ _ (omega (arith, ucs2_len-le (take n str), length-take_le n str)) (
      Fits-converted_of n _ _ (length-take_le n str)
        (ucs2_loop-FitsLoop tolower lower (take n str)))
ucs2_to_utf8-Fits tolower str (negsuc n) lower small =
    let used = take (ucs2strlen str) str in
    let short = length-take_le (ucs2strlen str) str in
    elim (Bool-cases (n == 2)) [
      | inl nts ↦ rw nts (
          Fits-in_int _ _ _ (omega (arith, ucs2_len-le used, short))
            (Fits-converted_of (ucs2strlen str) _ _ short (ucs2_loop-FitsLoop tolower lower used)))
      | inr bad ↦ rw bad tt
    ]

-- The same of `ucs4_to_utf8`.
ucs4_to_utf8-Fits :
    (tolower : ℕ → ℕ) (str : List ℕ) (ilen : ℤ) (lower_identifier : Bool)
    → counted_units str ilen * 4 < 2 ^ 31
    → Fits
        (suc (counted_units str ilen * 4))
        (ucs4_to_utf8 tolower (some str) ilen lower_identifier)
unfolding ucs4_to_utf8
ucs4_to_utf8-Fits tolower str (pos n) lower small =
    let fits = length-ucs4_loop tolower lower (take n str) in
    Fits-in_int (suc (n * 4)) (length (ucs4_loop tolower lower (take n str))) _
      (omega (arith, fits, length-take_le n str)) (omega (arith, fits, length-take_le n str), refl)
ucs4_to_utf8-Fits tolower str (negsuc n) lower small =
    let m = ucs2strlen str in
    let fits = length-ucs4_loop tolower lower (take m str) in
    Fits-in_int (suc (m * 4)) (length (ucs4_loop tolower lower (take m str))) _
      (omega (arith, fits, length-take_le m str)) (omega (arith, fits, length-take_le m str), refl)
