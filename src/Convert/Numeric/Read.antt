-- ===== src/Convert/Numeric/Read.antt =====
-- The text of a number with at most 48 digits, as `parse_to_numeric_struct` reads it.
use open_gauss_connector_odb.Base.{
  ℕ, suc, ◌+◌, ◌-◌, ◌*◌, ◌%◌, ◌^◌, ◌<◌, ◌≤◌, ◌≡◌, refl, sym, ap, ◌∙◌, inl, inr, ◌==◌, Bool, true,
  false, not, List, [], ◌∷◌, ◌++◌, Option, none, some, length, replicate, leb, if◌then◌else◌, arith,
  Bool-cases,
}
use open_gauss_connector_odb.Base.Int.{ℤ, pos, ◌+ℤ◌, add_pos}
use open_gauss_connector_odb.Convert.Numeric.{
  also_digit, isdigit, isspace, to_i8, to_binary, read_digits, read_sign, skip_space, skip_zeros,
  parse_to_numeric_struct,
}
use open_gauss_connector_odb.Convert.Numeric.Parsed.{value, decimal_from, to_binary-decimal}

abbrev pub IsDigits : List ℕ → Type 0
IsDigits [] = Unit
IsDigits (c ∷ cs) = (b'0' ≤ c) × (c ≤ b'9') × IsDigits cs

-- The digits behind the point, if there is one, and their text.
abbrev pub fraction_digits : Option (List ℕ) → List ℕ
fraction_digits none = []
fraction_digits (some fs) = fs

abbrev pub fraction_text : Option (List ℕ) → List ℕ
fraction_text none = []
fraction_text (some fs) = b'.' ∷ fs

to_i8-pos : (n : ℕ) → n < 2 ^ 7 → to_i8 (pos n) ≡ pos n
unfolding to_i8
to_i8-pos n h = ground arith

read_digits-digit :
    (nlen c : ℕ) (dot : Bool) (scale : ℤ) (wv : List ℕ)
    → b'0' ≤ c
    → c ≤ b'9'
    → nlen < 48
    → read_digits nlen dot scale false (c ∷ wv)
      ≡ also_digit c
          (read_digits (suc nlen) dot (if dot then to_i8 (scale +ℤ pos 1) else scale) false wv)
unfolding read_digits
read_digits-digit nlen c dot scale wv h k l =
    let point : (c == b'.') ≡ false = ground arith in
    let digit : not (isdigit c) ≡ false = ground arith in
    let room : leb 48 nlen ≡ false = ground arith in rw (read_digits, point, digit, room) refl

plus_one : (k : ℕ) → k + 1 ≡ suc k
plus_one k = omega arith

read_digits-fraction :
    (nlen k : ℕ) (fs : List ℕ)
    → IsDigits fs
    → nlen + length fs ≤ 48
    → k ≤ nlen
    → read_digits nlen true (pos k) false fs
      ≡ record { calv = fs; scale = pos (k + length fs); overflow = false }
unfolding read_digits
read_digits-fraction nlen k [] d h l = let same : k + 0 ≡ k = omega arith in rw same refl
read_digits-fraction nlen k (c ∷ fs) (p, q, d) h l =
    let next : to_i8 (pos k +ℤ pos 1) ≡ pos (suc k) =
      rw (add_pos k 1) (rw (plus_one k) (to_i8-pos (suc k) (omega arith))) in
    let same : k + suc (length fs) ≡ suc k + length fs = omega arith in
    read_digits-digit nlen c true (pos k) fs p q (omega arith)
    ∙ rw (next, read_digits-fraction (suc nlen) (suc k) fs d (omega arith) (omega arith), same) refl

read_digits-decimal :
    (nlen : ℕ) (is : List ℕ) (o : Option (List ℕ))
    → IsDigits is
    → IsDigits (fraction_digits o)
    → nlen + length is + length (fraction_digits o) ≤ 48
    → read_digits nlen false (pos 0) false (is ++ fraction_text o) ≡ record {
      calv = is ++ fraction_digits o;
      scale = pos (length (fraction_digits o));
      overflow = false;
    }
unfolding read_digits
read_digits-decimal nlen [] none d e h = refl
read_digits-decimal nlen [] (some fs) d e h =
    let same : 0 + length fs ≡ length fs = omega arith in
    rw (sym same) (read_digits-fraction nlen 0 fs e (omega arith) (omega arith))
read_digits-decimal nlen (c ∷ is) o (p, q, d) e h =
    read_digits-digit nlen c false (pos 0) (is ++ fraction_text o) p q (omega arith)
    ∙ rw (read_digits-decimal (suc nlen) is o d e (omega arith)) refl

-- Without its leading zeros the number is the same.
skip_zeros-decimal :
    (is : List ℕ) (o : Option (List ℕ))
    → IsDigits is
    → (js : List ℕ) × (skip_zeros (is ++ fraction_text o) ≡ js ++ fraction_text o)
      × IsDigits js
      × (length js ≤ length is)
      × (decimal_from 0 (js ++ fraction_digits o) ≡ decimal_from 0 (is ++ fraction_digits o))
unfolding skip_zeros
skip_zeros-decimal [] none d = ([], refl, tt, omega arith, refl)
skip_zeros-decimal [] (some fs) d = ([], refl, tt, omega arith, refl)
skip_zeros-decimal (c ∷ is) o (p, q, d) = elim (Bool-cases (c == b'0')) [
  | inr e ↦ (c ∷ is, rw e refl, (p, q, d), omega arith, refl)
  | inl e ↦
      let (js, skipped, digits, shorter, same) = skip_zeros-decimal is o d in
      let nothing : 0 * 10 + (c - b'0') ≡ 0 = ground arith in
      (
        js,
        rw e skipped,
        digits,
        omega arith,
        same ∙ sym (ap (λ n. decimal_from n (is ++ fraction_digits o)) nothing),
      )
]

-- The signs: none, a plus sign, or a minus sign.
pub data Sign : Type 0 where
  no_sign plus minus : Sign

-- The text of a number with its sign.
abbrev pub signed_by : Sign → List ℕ → List ℕ
signed_by no_sign text = text
signed_by plus text = b'+' ∷ text
signed_by minus text = b'-' ∷ text

-- The field `sign` of the struct.
abbrev pub sign_field : Sign → ℕ
sign_field no_sign = 1
sign_field plus = 1
sign_field minus = 0

abbrev pub minus_if : Bool → Sign
minus_if negative = if negative then minus else no_sign

read_sign-signed :
    (sign : Sign) (is : List ℕ) (o : Option (List ℕ))
    → IsDigits is
    → read_sign (skip_space (signed_by sign (is ++ fraction_text o)))
      ≡ (sign_field sign, is ++ fraction_text o)
unfolding read_sign skip_space
read_sign-signed minus is o d = refl
read_sign-signed plus is o d = refl
read_sign-signed no_sign [] none d = refl
read_sign-signed no_sign [] (some fs) d = refl
read_sign-signed no_sign (c ∷ is) o (p, q, d) =
    let space : isspace c ≡ false = ground arith in rw space (ground arith)

parsed_as :
    (sign : Sign) (is : List ℕ) (o : Option (List ℕ)) (js : List ℕ)
    → IsDigits is
    → skip_zeros (is ++ fraction_text o) ≡ js ++ fraction_text o
    → read_digits 0 false (pos 0) false (js ++ fraction_text o) ≡ record {
      calv = js ++ fraction_digits o;
      scale = pos (length (fraction_digits o));
      overflow = false;
    }
    → parse_to_numeric_struct (signed_by sign (is ++ fraction_text o)) ≡ (
      record {
        precision = length (js ++ fraction_digits o);
        scale = pos (length (fraction_digits o));
        sign = sign_field sign;
        val = (to_binary (replicate 16 0) false (js ++ fraction_digits o)).0;
      },
      (to_binary (replicate 16 0) false (js ++ fraction_digits o)).1,
    )
unfolding parse_to_numeric_struct
parsed_as sign is o js d skipped read =
    rw (parse_to_numeric_struct, read_sign-signed sign is o d, skipped, read) refl

-- A text of a minus sign, a plus sign or no sign, digits, and a point with digits behind it or none, with 48 digits at
-- most, is read as the number that its digits stand for, modulo the range of 128 bits; the flag is
-- raised just where the number does not fit; the scale is the number of digits behind the point.
pub parse_to_numeric_struct-decimal :
    (sign : Sign) (is : List ℕ) (o : Option (List ℕ))
    → IsDigits is
    → IsDigits (fraction_digits o)
    → length is + length (fraction_digits o) ≤ 48
    → let (ns, overflow) = parse_to_numeric_struct (signed_by sign (is ++ fraction_text o)) in
      (value ns.val ≡ decimal_from 0 (is ++ fraction_digits o) % 2 ^ 128)
      × (overflow ≡ leb (2 ^ 128) (decimal_from 0 (is ++ fraction_digits o)))
      × (ns.scale ≡ pos (length (fraction_digits o)))
      × (ns.sign ≡ sign_field sign)
parse_to_numeric_struct-decimal sign is o d e h =
    let (js, skipped, digits, shorter, same) = skip_zeros-decimal is o d in
    let read = read_digits-decimal 0 js o digits e (omega arith) in
    let (size, low, flag) = to_binary-decimal (js ++ fraction_digits o) in
    rw (parsed_as sign is o js d skipped read)
      (low ∙ ap (λ n. n % 2 ^ 128) same, flag ∙ ap (leb (2 ^ 128)) same, refl, refl)
