-- ===== src/Unicode.antt =====
-- The conversions between UTF-8, UTF-16 and UTF-32 of win_unicode.c. Bytes, SQLWCHARs (below 2 ^ 16)
-- and UInt4s are numbers; masks and shifts are `%`, `/` and `*`, and a union of disjoint bit fields
-- is a sum. The source writes the bytes of a character through an integer and corrects for the byte
-- order of the machine, so that the bytes come out in the order written here.
pub mod Decode
pub mod RoundTrip
pub mod Wide
pub mod RoundTrip4
pub mod Capacity
use open_gauss_connector_odb.Base.{
  ℕ, zero, suc, ◌+◌, ◌-◌, ◌*◌, ◌/◌, ◌%◌, ◌^◌, ◌==◌, Bool, true, false, not, ◌&&◌, ◌||◌, List, [],
  ◌∷◌, ◌++◌, Option, none, some, map, length, take, drop, ltb, leb, if◌then◌else◌,
}
use open_gauss_connector_odb.Base.Int.{ℤ, pos, negsuc}
use mathlib.Core.Option

-- The units before the terminating null: what `ucs2strlen` and `ucs4strlen` count.
unfoldable pub before_null : List ℕ → List ℕ
before_null [] = []
before_null (w ∷ ws) = let rest = before_null ws in if w == 0 then [] else w ∷ rest

pub ucs2strlen : List ℕ → ℕ
ucs2strlen str = length (before_null str)

-- The byte sequences of a code.
unfoldable pub bytes2 : ℕ → List ℕ
bytes2 w = (0xc0 + w / 64 % 32) ∷ (0x80 + w % 64) ∷ []

unfoldable pub bytes3 : ℕ → List ℕ
bytes3 w = (0xe0 + w / 4096 % 16) ∷ (0x80 + w / 64 % 64) ∷ (0x80 + w % 64) ∷ []

-- A code above 0xffff, from UTF-32.
unfoldable pub bytes4 : ℕ → List ℕ
bytes4 w =
    (0xf0 + w / 2 ^ 18 % 8) ∷ (0x80 + w / 4096 % 64) ∷ (0x80 + w / 64 % 64) ∷ (0x80 + w % 64) ∷ []

abbrev pub surrogate_adjust : ℕ
surrogate_adjust = 0x10000 / 2 ^ 10

-- A surrogate pair: `surrd1` and `surrd2` of the source.
unfoldable pub bytes_of_pair : ℕ → ℕ → List ℕ
bytes_of_pair w v =
    let surrd1 = w % 1024 + surrogate_adjust in
    let surrd2 = v % 1024 in
    (0xf0 + surrd1 / 256 % 8)
    ∷ (0x80 + surrd1 / 4 % 64)
    ∷ (0x80 + surrd1 % 4 * 16 + surrd2 / 64 % 16)
    ∷ (0x80 + surrd2 % 64)
    ∷ []

-- `surrog1_bits == (w & surrog_check)`, and the same with `surrog2_bits`, on 16 bits
abbrev pub is_surrog1 : ℕ → Bool
is_surrog1 w = w / 1024 == 0xd800 / 1024

abbrev pub is_surrog2 : ℕ → Bool
is_surrog2 w = w / 1024 == 0xdc00 / 1024

abbrev pub prepend : List ℕ → Option (List ℕ) → Option (List ℕ)
prepend bytes rest = elim rest [ none ↦ none | some bs ↦ some (bytes ++ bs) ]

-- `tolower` is that of the C library.
module _ (tolower : ℕ → ℕ) (lower_identifier : Bool) where
  -- One code below 2 ^ 16 that is taken for no half of a pair.
  unfoldable pub code_bytes : ℕ → List ℕ
  unfolding bytes2 bytes3
  code_bytes w =
      if ltb w 0x80
      then (if lower_identifier then tolower w else w) ∷ []
      else if ltb w 0x800
      then bytes2 w
      else bytes3 w

  -- The loop of `ucs2_to_utf8` over the units that `ilen` admits; `none` where a first half of a
  -- surrogate pair has no second half behind it.
  unfoldable pub ucs2_loop : List ℕ → Option (List ℕ)
  ucs2_loop [] = some []
  ucs2_loop (w ∷ []) =
      if w == 0 then some [] else if is_surrog1 w then none else some (code_bytes w)
  ucs2_loop (w ∷ v ∷ ws) =
      let behind_one = prepend (code_bytes w) (ucs2_loop (v ∷ ws)) in
      let behind_two = prepend (bytes_of_pair w v) (ucs2_loop ws) in
      if w == 0
      then some []
      else if is_surrog1 w
      then if is_surrog2 v then behind_two else none
      else behind_one

  -- The loop of `ucs4_to_utf8`.
  unfoldable pub ucs4_loop : List ℕ → List ℕ
  ucs4_loop [] = []
  ucs4_loop (w ∷ ws) =
      let rest = ucs4_loop ws in
      if w == 0 then [] else if ltb w 0x10000 then code_bytes w ++ rest else bytes4 w ++ rest

-- How far a code moves `len`, and `len` where the loop of `ucs2_to_utf8` stops, at the end or at a half of a pair.
unfoldable pub code_len : ℕ → ℕ
code_len w = if ltb w 0x80 then 1 else if ltb w 0x800 then 2 else 3

unfoldable pub ucs2_len : List ℕ → ℕ
ucs2_len [] = 0
ucs2_len (w ∷ []) = if w == 0 || is_surrog1 w then 0 else code_len w
ucs2_len (w ∷ v ∷ ws) =
    let one = ucs2_len (v ∷ ws) in
    let two = ucs2_len ws in
    if w == 0
    then 0
    else if is_surrog1 w
    then if is_surrog2 v then 4 + two else 0
    else code_len w + one

-- What is returned: the string, if any, and `*olen`. `overflow` stands for an `int` that passes its
-- range: `len` counts the bytes in an `int`, and `i`, which is never greater, the units.
pub data Converted : Type 0 where
  overflow : Converted
  null_data : Converted  -- a null string, `SQL_NULL_DATA`
  error : Converted  -- a null string, `SQL_ERROR`
  converted : List ℕ → ℕ → Converted

abbrev pub converted_of : Option (List ℕ) → Converted
converted_of none = error
converted_of (some bytes) = converted bytes (length bytes)

-- The outcome of a loop that has put `len` bytes.
abbrev pub in_int : ℕ → Converted → Converted
in_int len outcome = if leb (2 ^ 31) len then overflow else outcome

abbrev pub sql_nts : ℤ
sql_nts = negsuc 2

-- `ucs2_to_utf8`: the memory at `ucs2str`, or null. The allocation is taken to succeed.
unfoldable pub ucs2_to_utf8 : (ℕ → ℕ) → Option (List ℕ) → ℤ → Bool → Converted
ucs2_to_utf8 tolower none ilen lower_identifier = null_data
ucs2_to_utf8 tolower (some str) (pos n) lower_identifier =
    in_int (ucs2_len (take n str)) (converted_of (ucs2_loop tolower lower_identifier (take n str)))
ucs2_to_utf8 tolower (some str) (negsuc n) lower_identifier =
    let used = take (ucs2strlen str) str in
    if n == 2
    then in_int (ucs2_len used) (converted_of (ucs2_loop tolower lower_identifier used))
    else error

-- `ucs4_to_utf8`: every negative `ilen` stands for a terminated string.
unfoldable pub ucs4_to_utf8 : (ℕ → ℕ) → Option (List ℕ) → ℤ → Bool → Converted
ucs4_to_utf8 tolower none ilen lower_identifier = null_data
ucs4_to_utf8 tolower (some str) (pos n) lower_identifier =
    let bytes = ucs4_loop tolower lower_identifier (take n str) in
    in_int (length bytes) (converted bytes (length bytes))
ucs4_to_utf8 tolower (some str) (negsuc n) lower_identifier =
    let bytes = ucs4_loop tolower lower_identifier (take (ucs2strlen str) str) in
    in_int (length bytes) (converted bytes (length bytes))
