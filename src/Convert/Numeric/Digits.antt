-- ===== src/Convert/Numeric/Digits.antt =====
-- The digits that `ResolveNumericParam` puts out, and their text.
use mathlib.Core.List.{append-nil}
use native.Mathlib.Nat.{pow-succ'}
use open_gauss_connector_odb.Base.{
  ℕ, zero, suc, ◌+◌, ◌-◌, ◌*◌, ◌^◌, ◌<◌, ◌≤◌, ◌≡◌, refl, sym, ap, ◌==◌, List, [], ◌∷◌, ◌++◌, Option,
  none, some, length, ltb, if◌then◌else◌, arith,
}
use open_gauss_connector_odb.Base.Int.{pos}
use open_gauss_connector_odb.Convert.Numeric.{
  divide, up_to_lastnonzero, digit_loop, digit_char, digit_chars, number_text,
}
use open_gauss_connector_odb.Convert.Numeric.Parsed.{value, decimal_from}
use open_gauss_connector_odb.Convert.Numeric.Read.{IsDigits, fraction_digits, fraction_text}

divide-value :
    (bs : List ℕ) → (value bs ≡ 10 * value ((divide bs).0) + (divide bs).1) × ((divide bs).1 < 10)
unfolding divide
divide-value [] = (omega arith, omega arith)
divide-value (b ∷ bs) = let (whole, small) = divide-value bs in (omega arith, omega arith)

last_step :
    (d : ℕ) (used ds : List ℕ)
    → value used ≡ value ds
    → value (elim used [ [] ↦ if d == 0 then [] else d ∷ [] | e ∷ es ↦ d ∷ e ∷ es ])
      ≡ d + 256 * value ds
last_step d [] ds h = ground arith
last_step d (e ∷ es) ds h = ground arith

up_to_lastnonzero-value : (ds : List ℕ) → value (up_to_lastnonzero ds) ≡ value ds
unfolding up_to_lastnonzero
up_to_lastnonzero-value [] = refl
up_to_lastnonzero-value (d ∷ ds) =
    last_step d (up_to_lastnonzero ds) ds (up_to_lastnonzero-value ds)

-- The number that digits stand for, the least significant one first.
abbrev pub units_first : List ℕ → ℕ
units_first [] = 0
units_first (d ∷ ds) = d + 10 * units_first ds

abbrev pub AreDigits : List ℕ → Type 0
AreDigits [] = Unit
AreDigits (d ∷ ds) = (d < 10) × AreDigits ds

-- The digits, their number and their range.
DigitsOf : ℕ → ℕ → List ℕ → Type 0
DigitsOf left n ds = (units_first ds ≡ n) × AreDigits ds × (length ds ≤ left)

loop_step :
    (left r n : ℕ) (used rest : List ℕ)
    → n ≡ 10 * value used + r
    → r < 10
    → DigitsOf left (value used) rest
    → DigitsOf (suc left) n (elim used [ [] ↦ r ∷ [] | e ∷ es ↦ r ∷ rest ])
unfolding DigitsOf
loop_step left r n [] rest e small (whole, digits, few) = (omega arith, (small, tt), omega arith)
loop_step left r n (u ∷ us) rest e small (whole, digits, few) =
    (omega arith, (small, digits), omega arith)

-- With as many digits as the number has, the loop puts out all of them.
pub digit_loop-value :
    (left : ℕ) (vals : List ℕ)
    → value vals < 10 ^ left
    → (units_first (digit_loop left vals) ≡ value vals)
      × AreDigits (digit_loop left vals)
      × (length (digit_loop left vals) ≤ left)
unfolding digit_loop DigitsOf
digit_loop-value zero vals h = (omega arith, tt, omega arith)
digit_loop-value (suc left) vals h =
    let (whole, small) = divide-value vals in
    let used = up_to_lastnonzero ((divide vals).0) in
    let same = up_to_lastnonzero-value ((divide vals).0) in
    let power = pow-succ' 10 left in
    let later = digit_loop-value left used (omega arith) in
    loop_step left ((divide vals).1) (value vals) used (digit_loop left used) (omega arith) small
      later

plus_zero : (n : ℕ) → n + 0 ≡ n
plus_zero n = omega arith

digit_chars-split :
    (calv : List ℕ) (s n : ℕ)
    → digit_chars calv 0 (s + n) ≡ digit_chars calv s n ++ digit_chars calv 0 s
unfolding digit_chars
digit_chars-split calv s zero = rw (plus_zero s) refl
digit_chars-split calv s (suc n) =
    let next : s + suc n ≡ suc (s + n) = omega arith in
    let start : 0 + (s + n) ≡ s + n = omega arith in
    rw (next, digit_chars, start, digit_chars-split calv s n) refl

digit_chars-snoc :
    (d : ℕ) (ds : List ℕ) (m : ℕ)
    → digit_chars (d ∷ ds) 0 (suc m) ≡ digit_chars ds 0 m ++ (d + b'0') ∷ []
unfolding digit_chars
digit_chars-snoc d ds zero = refl
digit_chars-snoc d ds (suc m) =
    let next : 0 + suc m ≡ suc m = omega arith in
    let start : 0 + m ≡ m = omega arith in
    let ih = digit_chars-snoc d ds m in
    rw (next, start) (ap (◌∷◌ (digit_char ds m)) (rw start at ih))

decimal_from-snoc :
    (n : ℕ) (cs : List ℕ) (c : ℕ)
    → decimal_from n (cs ++ c ∷ []) ≡ decimal_from n cs * 10 + (c - b'0')
decimal_from-snoc n [] c = refl
decimal_from-snoc n (d ∷ cs) c = decimal_from-snoc (n * 10 + (d - b'0')) cs c

decimal_from-digit_chars :
    (calv : List ℕ) (m : ℕ)
    → length calv ≤ m
    → decimal_from 0 (digit_chars calv 0 m) ≡ units_first calv
unfolding digit_chars
decimal_from-digit_chars [] zero h = refl
decimal_from-digit_chars [] (suc m) h = decimal_from-digit_chars [] m (omega arith)
decimal_from-digit_chars (d ∷ ds) zero h = absurd (omega arith)
decimal_from-digit_chars (d ∷ ds) (suc m) h =
    let ih = decimal_from-digit_chars ds m (omega arith) in
    let last = decimal_from-snoc 0 (digit_chars ds 0 m) (d + b'0') in
    rw (digit_chars-snoc d ds m) (omega arith)

length-digit_chars : (calv : List ℕ) (s n : ℕ) → length (digit_chars calv s n) ≡ n
unfolding digit_chars
length-digit_chars calv s zero = refl
length-digit_chars calv s (suc n) = ap suc (length-digit_chars calv s n)

digit_char-digit :
    (calv : List ℕ) (i : ℕ)
    → AreDigits calv
    → (b'0' ≤ digit_char calv i) × (digit_char calv i ≤ b'9')
digit_char-digit [] i d = (omega arith, omega arith)
digit_char-digit (c ∷ calv) zero (h, d) = (omega arith, omega arith)
digit_char-digit (c ∷ calv) (suc i) (h, d) = digit_char-digit calv i d

IsDigits-digit_chars : (calv : List ℕ) (s n : ℕ) → AreDigits calv → IsDigits (digit_chars calv s n)
unfolding digit_chars
IsDigits-digit_chars calv s zero d = tt
IsDigits-digit_chars calv s (suc n) d =
    let (p, q) = digit_char-digit calv (s + n) d in (p, q, IsDigits-digit_chars calv s n d)

-- A text of these digits, in the form that is read again.
abbrev pub PrintsAs : List ℕ → ℕ → Type 0
PrintsAs calv s =
    (is : List ℕ) × (o : Option (List ℕ)) × (number_text calv (pos s)
      ≡ some (is ++ fraction_text o))
    × IsDigits is
    × IsDigits (fraction_digits o)
    × (length is + length (fraction_digits o) ≤ 48)
    × (length (fraction_digits o) ≡ s)
    × (decimal_from 0 (is ++ fraction_digits o) ≡ units_first calv)

pub number_text-PrintsAs :
    (calv : List ℕ) (s : ℕ)
    → AreDigits calv
    → 0 < length calv
    → length calv ≤ 48
    → s < 48
    → PrintsAs calv s
unfolding number_text
number_text-PrintsAs calv zero d p h k =
    let is = digit_chars calv 0 (length calv) in
    (
      is,
      none,
      ap some (sym (append-nil is)),
      IsDigits-digit_chars calv 0 (length calv) d,
      tt,
      omega (arith, length-digit_chars calv 0 (length calv)),
      refl,
      rw (append-nil is) (decimal_from-digit_chars calv (length calv) (omega arith)),
    )
number_text-PrintsAs calv (suc s) d p h k =
    let i = if ltb (length calv - 1) (suc s) then suc s else length calv - 1 in
    let n = suc i - suc s in
    let is = digit_chars calv (suc s) n in
    let fs = digit_chars calv 0 (suc s) in
    let reach : (suc s ≤ i) × (length calv ≤ suc i) × (i < 48) =
      (ground arith, ground arith, ground arith) in
    let (above, all, few) = reach in
    let whole : suc s + n ≡ suc i = omega arith in
    (
      is,
      some fs,
      refl,
      IsDigits-digit_chars calv (suc s) n d,
      IsDigits-digit_chars calv 0 (suc s) d,
      omega (arith, length-digit_chars calv (suc s) n, length-digit_chars calv 0 (suc s)),
      length-digit_chars calv 0 (suc s),
      rw (sym (digit_chars-split calv (suc s) n))
          (decimal_from-digit_chars calv (suc s + n) (omega arith)),
    )
