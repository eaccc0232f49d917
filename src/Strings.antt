-- ===== src/Strings.antt =====
-- Strings and names (misc.c). A memory is the list of its characters; a string in it ends at the
-- first null.
pub mod Copies
pub mod Bounds
pub mod Quoted
use open_gauss_connector_odb.Base.{
  ℕ, zero, suc, ◌+◌, ◌-◌, ◌==◌, Bool, true, false, not, ◌&&◌, ◌||◌, List, [], ◌∷◌, ◌++◌, Option,
  none, some, length, take, drop, get_elem?, ltb, leb, if◌then◌else◌,
}
use open_gauss_connector_odb.Base.Int.{ℤ, pos, negsuc}

abbrev pub sql_null_data : ℤ
sql_null_data = negsuc 0

abbrev pub sql_nts : ℤ
sql_nts = negsuc 2

-- `strlen`; `none` is a read behind the memory.
unfoldable pub strlen : List ℕ → Option ℕ
strlen [] = none
strlen (c ∷ mem) =
    let rest = strlen mem in
    if c == 0 then some 0 else elim rest [ none ↦ none | some n ↦ some (suc n) ]

-- `strncpy_null` with a target and a positive length, `room` being the length less one: the
-- characters that the loop copies, and the character at which it stops.
unfoldable pub copy_loop : List ℕ → ℕ → Option (List ℕ × ℕ)
copy_loop [] room = none
copy_loop (c ∷ src) zero = some ([], c)
copy_loop (c ∷ src) (suc room) =
    let rest = copy_loop src room in
    if c == 0
    then some ([], c)
    else elim rest [ none ↦ none | some (copied, stop) ↦ some (c ∷ copied, stop) ]

-- `strncpy_null`: what stands in the target before its null, and the result; no target, or a length
-- that is not positive, gives 0.
unfoldable pub strncpy_null : List ℕ → ℕ → Option (List ℕ × ℕ)
unfolding copy_loop
strncpy_null src zero = some ([], 0)
strncpy_null src (suc room) = elim (copy_loop src room) [
  | none ↦ none
  | some (copied, stop) ↦
      if stop == 0
      then some (copied, length copied)
      else elim (strlen src) [ none ↦ none | some n ↦ some (copied, n) ]
]

-- What `make_string` gives: the null pointer, or the new string.
pub data Made : Type 0 where
  null_made : Made
  made : List ℕ → Made

-- A copy of at most `len - 1` characters.
unfoldable pub string_of : List ℕ → ℕ → Option Made
string_of s len = elim (strncpy_null s len) [ none ↦ none | some (copied, n) ↦ some (made copied) ]

-- The string of a given length, put to a buffer of the caller, if any, or to new memory.
unfoldable pub made_of : List ℕ → Option ℕ → ℕ → Option Made
unfolding string_of
made_of s none length = string_of s (suc length)
made_of s (some bufsize) length =
    if ltb length bufsize then string_of s (suc length) else string_of s bufsize

-- `make_string`: the memory at `s`, if it is no null pointer, and the size of the buffer, if there
-- is one. `none` is a read behind the memory.
unfoldable pub make_string : Option (List ℕ) → ℤ → Option ℕ → Option Made
unfolding made_of
make_string none len buf = some null_made
make_string (some s) (pos length) buf = made_of s buf length
make_string (some s) (negsuc (suc (suc zero))) buf = elim (strlen s) [
  | none ↦ none
  | some length ↦ made_of s buf length
]
make_string (some s) (negsuc _) buf = some null_made

-- What `my_strcpy` returns.
pub data CopyResult : Type 0 where
  strcpy_fail strcpy_truncated strcpy_null : CopyResult
  copied : ℕ → CopyResult

-- `memcpy` of `n` characters; `none` is a read behind the memory.
abbrev pub memcpy : List ℕ → ℕ → Option (List ℕ)
memcpy src zero = some []
memcpy [] (suc n) = none
memcpy (c ∷ src) (suc n) = elim (memcpy src n) [ none ↦ none | some cs ↦ some (c ∷ cs) ]

-- The part of `my_strcpy` behind the tests: the characters that are put before the null.
unfoldable pub strcpy_of : ℕ → List ℕ → ℕ → Option (List ℕ × CopyResult)
strcpy_of dst_len src zero = some ([], strcpy_fail)
strcpy_of dst_len src (suc n) =
    if ltb (suc n) dst_len
    then elim (memcpy src (suc n)) [
      | none ↦ none
      | some cs ↦ elim (strlen (cs ++ 0 ∷ [])) [ none ↦ none | some m ↦ some (cs, copied m) ]
    ]
    else elim (memcpy src (dst_len - 1)) [ none ↦ none | some cs ↦ some (cs, strcpy_truncated) ]

-- `my_strcpy`, for a target of at least one character.
unfoldable pub my_strcpy : ℕ → List ℕ → ℤ → Option (List ℕ × CopyResult)
unfolding strcpy_of
my_strcpy zero src src_len = some ([], strcpy_fail)
my_strcpy (suc d) src (negsuc zero) = some ([], strcpy_null)
my_strcpy (suc d) src (negsuc (suc (suc zero))) = elim (strlen src) [
  | none ↦ none
  | some n ↦ strcpy_of (suc d) src n
]
my_strcpy (suc d) src (negsuc _) = some ([], strcpy_fail)
my_strcpy (suc d) src (pos n) = strcpy_of (suc d) src n

-- `my_trim`, of the characters of a string: the blanks at the end become nulls.
unfoldable pub my_trim : List ℕ → List ℕ
my_trim [] = []
my_trim (c ∷ s) = elim (my_trim s) [ [] ↦ if c == b' ' then [] else c ∷ [] | d ∷ ds ↦ c ∷ d ∷ ds ]

-- The second loop of `strlcat`, with `room` characters before the place of the last null: what is
-- put, and what is left of the source, with the characters that the third loop counts.
unfoldable pub cat_loop : List ℕ → ℕ → List ℕ × List ℕ
cat_loop src zero = ([], src)
cat_loop [] (suc room) = ([], [])
cat_loop (c ∷ src) (suc room) = let (put, left) = cat_loop src room in (c ∷ put, left)

-- `strlcat`, of the characters of two strings, the first in a memory of `size` characters, at least
-- one: the string after it, and the result.
unfoldable pub strlcat : List ℕ → List ℕ → ℕ → List ℕ × ℕ
unfolding cat_loop
strlcat dst src size =
    if leb (size - 1) (length dst)
    then (dst, length dst + length src)
    else let (put, left) = cat_loop src (size - 1 - length dst) in
      (dst ++ put, length dst + length put + length left)

-- A name in `quote_table`: the loop, from index `i` of the buffer on, up to `margin` before its end.
unfoldable pub quote_name : ℕ → ℕ → ℕ → List ℕ → List ℕ
quote_name buf_size margin i [] = []
quote_name buf_size margin i (c ∷ name) =
    let once = quote_name buf_size margin (suc i) name in
    let twice = quote_name buf_size margin (suc (suc i)) name in
    if ltb (i + margin) buf_size then if c == b'"' then c ∷ b'"' ∷ twice else c ∷ once else []

-- The schema with its quotes and the dot, if the name is valid.
unfoldable pub quote_schema : Option (List ℕ) → ℕ → List ℕ
unfolding quote_name
quote_schema none buf_size = []
quote_schema (some schema) buf_size = b'"' ∷ (quote_name buf_size 6 1 schema ++ b'"' ∷ b'.' ∷ [])

-- `quote_table`: the characters that are put before the null.
unfoldable pub quote_table : Option (List ℕ) → List ℕ → ℕ → List ℕ
unfolding quote_schema
quote_table schema table buf_size =
    let before = quote_schema schema buf_size in
    before ++ b'"' ∷ (quote_name buf_size 3 (suc (length before)) table ++ b'"' ∷ [])
