-- ===== src/Convert/Numeric.antt =====
-- Numbers of the type SQL_NUMERIC_STRUCT: `ResolveNumericParam`, which prints them, and
-- `parse_to_numeric_struct`, which reads them (convert.c).
pub mod Parsed
pub mod Read
pub mod Digits
pub mod RoundTrip
use open_gauss_connector_odb.Base.{
  ℕ, zero, suc, ◌+◌, ◌-◌, ◌*◌, ◌/◌, ◌%◌, ◌^◌, ◌==◌, Bool, true, false, not, ◌&&◌, ◌||◌, List, [],
  ◌∷◌, ◌++◌, Option, none, some, length, replicate, get_elem?, ltb, leb, if◌then◌else◌,
}
use open_gauss_connector_odb.Base.Int.{ℤ, pos, negsuc, ◌+ℤ◌, ◌-ℤ◌}

-- `SQL_NUMERIC_STRUCT`; the bytes of the value come with the least significant one first.
pub record NumericStruct : Type 0 where
  pub precision : ℕ
  pub scale : ℤ
  pub sign : ℕ
  pub val : List ℕ

-- `MAX_NUMERIC_DIGITS`, `SQL_MAX_NUMERIC_LEN`, and the size of `calv` in `parse_to_numeric_struct`
abbrev pub max_numeric_digits : ℕ
max_numeric_digits = 39

abbrev pub sql_max_numeric_len : ℕ
sql_max_numeric_len = 16

abbrev pub calv_size : ℕ
calv_size = 48

-- The division of a number by 10: the bytes of the quotient, and the remainder.
unfoldable pub divide : List ℕ → List ℕ × ℕ
divide [] = ([], 0)
divide (b ∷ bs) = let (ds, r) = divide bs in let v = b + r * 256 in (v / 10 ∷ ds, v % 10)

-- The bytes up to the last that is not 0, as `lastnonzero` counts them.
unfoldable pub up_to_lastnonzero : List ℕ → List ℕ
up_to_lastnonzero [] = []
up_to_lastnonzero (d ∷ ds) = elim (up_to_lastnonzero ds) [
  | [] ↦ if d == 0 then [] else d ∷ []
  | e ∷ es ↦ d ∷ e ∷ es
]

-- The loop over the digits, with the first `vlen` bytes of the number, where `left` more digits may
-- be put: the digits in `calv`, the least significant one first.
unfoldable pub digit_loop : ℕ → List ℕ → List ℕ
unfolding divide up_to_lastnonzero
digit_loop zero vals = []
digit_loop (suc left) vals =
    let (ds, r) = divide vals in
    let rest = digit_loop left (up_to_lastnonzero ds) in
    elim (up_to_lastnonzero ds) [ [] ↦ r ∷ [] | e ∷ es ↦ r ∷ rest ]

-- The character for the digit at index `i`.
abbrev pub digit_char : List ℕ → ℕ → ℕ
digit_char calv i = elim (get_elem? calv i) [ none ↦ b'0' | some d ↦ d + b'0' ]

-- The characters for `count` digits, down to index `last`.
unfoldable pub digit_chars : List ℕ → ℕ → ℕ → List ℕ
digit_chars calv last zero = []
digit_chars calv last (suc count) = digit_char calv (last + count) ∷ digit_chars calv last count

-- The digits with the point; with a negative scale the loop reads before the start of `calv`.
unfoldable pub number_text : List ℕ → ℤ → Option (List ℕ)
unfolding digit_chars
number_text calv (negsuc _) = none
number_text calv (pos zero) = some (digit_chars calv 0 (length calv))
number_text calv (pos (suc s)) =
    let scale = suc s in
    let i = if ltb (length calv - 1) scale then scale else length calv - 1 in
    some (digit_chars calv scale (suc i - scale) ++ b'.' ∷ digit_chars calv 0 scale)

-- `ResolveNumericParam`, with a target for the text: the characters before the null; `none` is a
-- read outside `calv`.
unfoldable pub resolve_numeric_param : NumericStruct → Option (List ℕ)
unfolding digit_loop number_text
resolve_numeric_param ns =
    let precision =
      if ltb max_numeric_digits ns.precision then max_numeric_digits else ns.precision in
    let text = number_text (digit_loop precision ns.val) ns.scale in
    if ns.precision == 0
    then some (b'0' ∷ [])
    else elim text [ none ↦ none | some cs ↦ some (if ns.sign == 0 then b'-' ∷ cs else cs) ]

-- `isspace` and `isdigit` of the C library
abbrev pub isspace : ℕ → Bool
isspace c = c == b' ' || leb 9 c && leb c 13

abbrev pub isdigit : ℕ → Bool
isdigit c = leb b'0' c && leb c b'9'

unfoldable pub skip_space : List ℕ → List ℕ
skip_space [] = []
skip_space (c ∷ wv) = let rest = skip_space wv in if isspace c then rest else c ∷ wv

unfoldable pub skip_zeros : List ℕ → List ℕ
skip_zeros [] = []
skip_zeros (c ∷ wv) = let rest = skip_zeros wv in if c == b'0' then rest else c ∷ wv

-- The sign, and what follows.
unfoldable pub read_sign : List ℕ → ℕ × List ℕ
read_sign [] = (1, [])
read_sign (c ∷ wv) = if c == b'-' then (0, wv) else if c == b'+' then (1, wv) else (1, c ∷ wv)

-- A value cast to a signed integer of 8 bits.
unfoldable pub to_i8 : ℤ → ℤ
to_i8 (pos n) = let r = n % 2 ^ 8 in if ltb r (2 ^ 7) then pos r else negsuc (2 ^ 8 - 1 - r)
to_i8 (negsuc n) = let r = n % 2 ^ 8 in if ltb r (2 ^ 7) then negsuc r else pos (2 ^ 8 - 1 - r)

-- What the loop over the digits leaves.
pub record DigitsRead : Type 0 where
  pub calv : List ℕ
  pub scale : ℤ
  pub overflow : Bool

abbrev pub also_digit : ℕ → DigitsRead → DigitsRead
also_digit c d = record d { calv = c ∷ d.calv }

-- The loop, with `nlen` digits and the scale before, and whether the point was read.
unfoldable pub read_digits : ℕ → Bool → ℤ → Bool → List ℕ → DigitsRead
unfolding to_i8
read_digits nlen dot_exist scale overflow [] = record {
  calv = [];
  scale = scale;
  overflow = overflow;
}
read_digits nlen dot_exist scale overflow (c ∷ wv) =
    let stop : DigitsRead = record { calv = []; scale = scale; overflow = overflow } in
    let after_dot = read_digits nlen true scale overflow wv in
    let lost = read_digits nlen false (to_i8 (scale -ℤ pos 1)) true wv in
    let scale' = if dot_exist then to_i8 (scale +ℤ pos 1) else scale in
    let kept = read_digits (suc nlen) dot_exist scale' overflow wv in
    if c == b'.'
    then if dot_exist then stop else after_dot
    else if not (isdigit c)
    then stop
    else if leb calv_size nlen
    then if dot_exist then stop else lost
    else also_digit c kept

-- The number times 10, and a carry: the bytes, and the carry out of the last.
unfoldable pub times10 : ℕ → List ℕ → List ℕ × ℕ
times10 carry [] = ([], carry)
times10 carry (b ∷ bs) =
    let t = b * 10 + carry in let (rest, out) = times10 (t / 256) bs in (t % 256 ∷ rest, out)

-- The loop over the digits of `calv`.
unfoldable pub to_binary : List ℕ → Bool → List ℕ → List ℕ × Bool
unfolding times10
to_binary val overflow [] = (val, overflow)
to_binary val overflow (c ∷ calv) =
    let (val', carry) = times10 (c - b'0') val in to_binary val' (overflow || not (carry == 0)) calv

-- `parse_to_numeric_struct`, of the characters before the null: the number, and the flag.
unfoldable pub parse_to_numeric_struct : List ℕ → NumericStruct × Bool
unfolding skip_space skip_zeros read_sign read_digits to_binary
parse_to_numeric_struct wv =
    let (sign, rest) = read_sign (skip_space wv) in
    let d = read_digits 0 false (pos 0) false (skip_zeros rest) in
    let (val, overflow) = to_binary (replicate sql_max_numeric_len 0) d.overflow d.calv in
    (record { precision = length d.calv; scale = d.scale; sign = sign; val = val }, overflow)
