-- ===== src/Keyset/Navigate.antt =====
-- `getNthValid` (results.c): from a row to the nth row before or behind it that is not deleted.
-- The numbers are SQLLENs and SQLULENs of 64 bits; what is computed wraps around.
pub mod Forward
use Prim.Native.Nat.{bit_and}
use open_gauss_connector_odb.Base.{
  ℕ, zero, suc, ◌+◌, ◌-◌, ◌^◌, ◌==◌, Bool, true, false, ◌&&◌, List, [], ◌∷◌, reverse, Option, none,
  some, map, length, take, drop, get_elem?, ltb, leb, if◌then◌else◌,
}
use open_gauss_connector_odb.Base.Int.{ℤ, pos, negsuc, pos_part, ◌+ℤ◌, ◌-ℤ◌, ltb_ℤ, leb_ℤ, to_i64}
use open_gauss_connector_odb.Keyset.{
  KeySet, Entry, QResult, num_total_tuples, curs_self_deleting, curs_self_deleted,
  curs_other_deleted,
}

abbrev pub int_max : ℕ
int_max = 2 ^ 31 - 1

-- `SQL_FETCH_PRIOR`, or any other orientation
pub data Orientation : Type 0 where
  prior next : Orientation

abbrev pub neg : ℤ → ℤ
neg z = pos 0 -ℤ z

-- The loop over `deleted` that goes forward: the array from index `i` on, `*nearest` and `delsta`.
unfoldable pub forward_skip : ℤ → List ℤ → ℕ → ℤ → ℕ → ℤ × ℕ
forward_skip sta [] i nearest delsta = (nearest, delsta)
forward_skip sta (d ∷ ds) i nearest delsta =
    let hit = leb_ℤ sta d in
    let rest =
      forward_skip sta ds (i + 1) (if hit then to_i64 (nearest +ℤ pos 1) else nearest)
        (if hit && ltb i delsta then i else delsta) in
    if leb_ℤ d nearest then rest else (nearest, delsta)

-- The loop over `deleted` that goes backward: the entries below the present one, last first.
unfoldable pub backward_skip : ℤ → List ℤ → ℤ → ℤ → ℤ × ℤ
backward_skip sta [] nearest delsta = (nearest, delsta)
backward_skip sta (d ∷ ds) nearest delsta =
    let hit = leb_ℤ d sta in
    let i = pos (length ds) in
    let rest =
      backward_skip sta ds (if hit then to_i64 (nearest -ℤ pos 1) else nearest)
        (if hit && ltb_ℤ delsta i then i else delsta) in
    if leb_ℤ nearest d then rest else (nearest, delsta)

-- No bit says that the row is deleted.
unfoldable pub is_valid_row : KeySet → Bool
is_valid_row k = bit_and k.status (curs_self_deleting + curs_self_deleted + curs_other_deleted) == 0

-- The loops over the keyset, for a result with no cursor: the value returned and `*nearest`.
-- `none` stands for a read outside the keyset.
unfoldable pub scan_backward : List KeySet → ℕ → ℕ → ℕ → Option (ℤ × ℤ)
scan_backward keyset zero count nth = some (neg (pos count), negsuc 0)
scan_backward keyset (suc i) count nth = elim (get_elem? keyset i) [
  | none ↦ none
  | some k ↦
      let valid = is_valid_row k in
      let count' = if valid then count + 1 else count in
      let rest = scan_backward keyset i count' nth in
      if valid && count' == nth then some (pos count', pos i) else rest
]

unfoldable pub scan_forward : List KeySet → ℕ → ℕ → ℕ → ℕ → Option (ℤ × ℤ)
scan_forward rows zero i count nth = some (neg (pos count), pos i)
scan_forward [] (suc n) i count nth = none
scan_forward (k ∷ rows) (suc n) i count nth =
    let valid = is_valid_row k in
    let count' = if valid then count + 1 else count in
    let rest = scan_forward rows n (i + 1) count' nth in
    if valid && count' == nth then some (pos count', pos i) else rest

abbrev pub index_of : Entry → ℤ
index_of e = e.index

-- The entries `deleted[0 .. dl_count - 1]`; `none` if the array does not hold as many.
unfoldable pub deleted_indexes : QResult → Option (List ℤ)
deleted_indexes res = elim res.deleted [
  | none ↦ none
  | some es ↦
      if leb res.dl_count (length es) then some (map index_of (take res.dl_count es)) else none
]

-- The branch for `dl_count == 0`.
unfoldable pub nth_of_all : Orientation → ℤ → ℤ → ℕ → ℤ × ℤ
nth_of_all prior num_tuples sta nth =
    let wanted = to_i64 (pos nth) in
    let before = to_i64 (sta +ℤ pos 1) in
    if leb_ℤ wanted before
    then (wanted, to_i64 (before -ℤ pos nth))
    else (to_i64 (neg before), negsuc 0)
nth_of_all next num_tuples sta nth =
    let nearp = to_i64 (sta -ℤ pos 1 +ℤ pos nth) in
    if ltb_ℤ nearp num_tuples
    then (to_i64 (pos nth), nearp)
    else (to_i64 (neg (num_tuples -ℤ sta)), num_tuples)

-- The branch for a result with a cursor.
unfoldable pub nth_of_undeleted : Orientation → ℤ → List ℤ → ℤ → ℕ → ℤ × ℤ
nth_of_undeleted prior num_tuples deleted sta nth =
    let (nearest, delsta) =
      backward_skip sta (reverse deleted) (to_i64 (sta +ℤ pos 1 -ℤ pos nth)) (negsuc 0) in
    if ltb_ℤ nearest (pos 0)
    then (to_i64 (neg (sta -ℤ delsta)), negsuc 0)
    else (to_i64 (pos nth), nearest)
nth_of_undeleted next num_tuples deleted sta nth =
    let (nearest, delsta) =
      forward_skip sta deleted 0 (to_i64 (sta -ℤ pos 1 +ℤ pos nth)) (length deleted) in
    if leb_ℤ num_tuples nearest
    then (to_i64 (neg (num_tuples -ℤ sta +ℤ pos delsta -ℤ pos (length deleted))), num_tuples)
    else (to_i64 (pos nth), nearest)

-- The branch for a result with no cursor.
unfoldable pub nth_in_keyset : Orientation → ℕ → List KeySet → ℤ → ℕ → Option (ℤ × ℤ)
nth_in_keyset prior num_tuples keyset (pos sta) nth = scan_backward keyset (suc sta) 0 nth
nth_in_keyset prior num_tuples keyset (negsuc _) nth = scan_backward keyset 0 0 nth
nth_in_keyset next num_tuples keyset (pos sta) nth =
    if leb sta num_tuples
    then scan_forward (drop sta keyset) (num_tuples - sta) sta 0 nth
    else some (pos 0, pos num_tuples)
nth_in_keyset next num_tuples keyset (negsuc _) nth = none

-- One past the last row there can be: while the end has not been seen, `INT_MAX`.
abbrev pub row_limit : QResult → ℕ
row_limit res = if res.reached_eof then num_total_tuples res else int_max

-- `getNthValid`: the value returned and `*nearest`.
unfoldable pub get_nth_valid : QResult → ℤ → Orientation → ℕ → Option (ℤ × ℤ)
get_nth_valid res sta orientation nth =
    let num_tuples = row_limit res in
    if res.dl_count == 0
    then some (nth_of_all orientation (pos num_tuples) sta nth)
    else if res.has_cursor
    then elim (deleted_indexes res) [
      | none ↦ none
      | some ds ↦ some (nth_of_undeleted orientation (pos num_tuples) ds sta nth)
    ]
    else nth_in_keyset orientation num_tuples res.keyset sta nth
