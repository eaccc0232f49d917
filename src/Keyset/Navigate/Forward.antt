-- ===== src/Keyset/Navigate/Forward.antt =====
-- Going forward with a cursor: `getNthValid` finds the nth row that is not deleted.
use open_gauss_connector_odb.Keyset.{QResult}
use open_gauss_connector_odb.Base.{
  ltb→lt, some, ◌<◌, lt→ltb, ◌^◌, ℕ, suc, ◌+◌, ◌-◌, ◌≤◌, ◌≡◌, ◌⊎◌, inl, inr, refl, true, false,
  ◌&&◌, List, [], ◌∷◌, length, ltb, if◌then◌else◌, arith, Bool-cases,
}
use open_gauss_connector_odb.Base.Int.{
  ℤ, pos, pos_part, neg_part, ◌+ℤ◌, ◌-ℤ◌, ◌≤ℤ◌, ◌<ℤ◌, leb_ℤ, ltb_ℤ, int_laws, to_i64, to_i64-same,
}
use open_gauss_connector_odb.Keyset.Navigate.{
  nth_of_all, deleted_indexes, row_limit, get_nth_valid, forward_skip, nth_of_undeleted, next,
}

-- All entries of the list lie above `d`.
abbrev pub Above : ℤ → List ℤ → Type 0
Above d [] = Unit
Above d (e ∷ es) = (d <ℤ e) × Above d es

-- Strictly ascending.
abbrev pub IsAscending : List ℤ → Type 0
IsAscending [] = Unit
IsAscending (d ∷ ds) = Above d ds × IsAscending ds

abbrev pub NotIn : ℤ → List ℤ → Type 0
NotIn x [] = Unit
NotIn x (d ∷ ds) = ((d <ℤ x) ⊎ (x <ℤ d)) × NotIn x ds

-- How many entries lie from `lo` to `hi`, both included.
abbrev pub count_in : ℤ → ℤ → List ℤ → ℕ
count_in lo hi [] = 0
count_in lo hi (d ∷ ds) = (if leb_ℤ lo d && leb_ℤ d hi then 1 else 0) + count_in lo hi ds

count_in-Above : (lo hi d : ℤ) (ds : List ℤ) → Above d ds → hi ≤ℤ d → count_in lo hi ds ≡ 0
count_in-Above lo hi d [] a h = refl
count_in-Above lo hi d (e ∷ es) (a, as') h = ground (arith, count_in-Above lo hi d es as' h)

NotIn-Above : (x d : ℤ) (ds : List ℤ) → Above d ds → x ≤ℤ d → NotIn x ds
NotIn-Above x d [] a h = tt
NotIn-Above x d (e ∷ es) (a, as') h = (inr (omega arith), NotIn-Above x d es as' h)

-- What the loop over the deleted rows ends with: `r` is not deleted, and it is as many rows behind
-- `near` as there are deleted rows from `sta` to `r`.
record Skipped (sta near : ℤ) (ds : List ℤ) (r : ℤ) : Type 0 where
  grows : near ≤ℤ r
  moved : pos_part r + neg_part near ≡ pos_part near + count_in sta r ds + neg_part r
  alive : NotIn r ds

leb_ℤ_of_le : (a b : ℤ) → a ≤ℤ b → leb_ℤ a b ≡ true
leb_ℤ_of_le a b h = ground arith

le_of_leb_ℤ : (a b : ℤ) → leb_ℤ a b ≡ true → a ≤ℤ b
le_of_leb_ℤ a b h = ground arith

lt_of_leb_ℤ : (a b : ℤ) → leb_ℤ a b ≡ false → b <ℤ a
lt_of_leb_ℤ a b h = ground arith

le_of_ltb_ℤ : (a b : ℤ) → ltb_ℤ a b ≡ false → b ≤ℤ a
le_of_ltb_ℤ a b h = ground arith

Skipped-hit :
    (sta near d r : ℤ) (ds : List ℤ)
    → d ≤ℤ near
    → leb_ℤ sta d ≡ true
    → Skipped sta (near +ℤ pos 1) ds r
    → Skipped sta near (d ∷ ds) r
Skipped-hit sta near d r ds reach hit s = record {
  grows = omega int_laws;
  moved = rw (hit, leb_ℤ_of_le d r (omega int_laws)) (omega int_laws);
  alive = (inl (omega int_laws), s.alive);
}

Skipped-miss :
    (sta near d r : ℤ) (ds : List ℤ)
    → sta ≤ℤ near
    → leb_ℤ sta d ≡ false
    → Skipped sta near ds r
    → Skipped sta near (d ∷ ds) r
Skipped-miss sta near d r ds h miss s = record {
  grows = s.grows;
  moved = rw miss (omega int_laws);
  alive = (inl (omega (arith, lt_of_leb_ℤ sta d miss)), s.alive);
}

Skipped-stop :
    (sta near d : ℤ) (ds : List ℤ) → Above d ds → near <ℤ d → Skipped sta near (d ∷ ds) near
Skipped-stop sta near d ds above stop = record {
  grows = omega arith;
  moved = ground (arith, count_in-Above sta near d ds above);
  alive = (inr stop, NotIn-Above near d ds above (omega arith));
}

-- So far from the ends that `n` steps forward do not wrap around.
abbrev HasRoom : ℤ → ℕ → Type 0
HasRoom near n = (pos_part near + n < 2 ^ 63) × (neg_part near ≤ 2 ^ 63)

HasRoom-next : (near : ℤ) (n : ℕ) → HasRoom near (suc n) → HasRoom (near +ℤ pos 1) n
unfolding ◌+ℤ◌
HasRoom-next near n (high, low) = ground arith

to_i64-next : (near : ℤ) (n : ℕ) → HasRoom near (suc n) → to_i64 (near +ℤ pos 1) ≡ near +ℤ pos 1
to_i64-next near n room =
    let (high, low) = HasRoom-next near n room in to_i64-same (near +ℤ pos 1) (omega arith) low

HasRoom-suc : (near : ℤ) (n : ℕ) → HasRoom near (suc n) → HasRoom near n
HasRoom-suc near n (high, low) = (omega arith, low)

forward_skip-Skipped :
    (sta : ℤ) (ds : List ℤ) (i : ℕ) (near : ℤ) (k : ℕ)
    → HasRoom near (length ds)
    → IsAscending ds
    → sta ≤ℤ near
    → Skipped sta near ds (forward_skip sta ds i near k).0
unfolding forward_skip
forward_skip-Skipped sta [] i near k room a h = record {
  grows = omega arith;
  moved = omega int_laws;
  alive = tt;
}
forward_skip-Skipped sta (d ∷ ds) i near k room (above, asc) h = elim (Bool-cases (leb_ℤ d near)) [
  | inl reach ↦ elim (Bool-cases (leb_ℤ sta d)) [
    | inl hit ↦
        rw (reach, hit, to_i64-next near (length ds) room)
          (Skipped-hit sta near d _ ds (le_of_leb_ℤ d near reach) hit (
            forward_skip-Skipped sta ds (i + 1) (near +ℤ pos 1) (if ltb i k then i else k)
              (HasRoom-next near (length ds) room) asc (omega int_laws)))
    | inr miss ↦
        rw (reach, miss)
          (Skipped-miss sta near d _ ds h miss
            (forward_skip-Skipped sta ds (i + 1) near k (HasRoom-suc near (length ds) room) asc h))
  ]
  | inr stop ↦ rw stop (Skipped-stop sta near d ds above (lt_of_leb_ℤ d near stop))
]

-- All entries lie below `n`.
abbrev pub Below : ℤ → List ℤ → Type 0
Below n [] = Unit
Below n (d ∷ ds) = (d <ℤ n) × Below n ds

count_in-full :
    (sta n d : ℤ) (ds : List ℤ) → sta ≤ℤ d → Above d ds → Below n ds → count_in sta n ds ≡ length ds
count_in-full sta n d [] h a b = refl
count_in-full sta n d (e ∷ es) h (a, as') (b, bs) =
    ground (arith, count_in-full sta n d es h as' bs)

-- Once a deleted row at or behind `sta` is met, `delsta` stays.
forward_skip-delsta :
    (sta : ℤ) (ds : List ℤ) (i : ℕ) (near : ℤ) (k : ℕ)
    → k ≤ i
    → (forward_skip sta ds i near k).1 ≡ k
unfolding forward_skip
forward_skip-delsta sta [] i near k h = refl
forward_skip-delsta sta (d ∷ ds) i near k h = ground (
  arith,
  forward_skip-delsta sta ds (i + 1) near k,
  forward_skip-delsta sta ds (i + 1) (to_i64 (near +ℤ pos 1)) k,
)

-- If the loop runs through the whole list, the rows from `delsta` on are those at or behind `sta`.
forward_skip-all :
    (sta n : ℤ) (ds : List ℤ) (i : ℕ) (near : ℤ) (k : ℕ)
    → IsAscending ds
    → Below n ds
    → k ≡ i + length ds
    → n ≤ℤ (forward_skip sta ds i near k).0
    → (forward_skip sta ds i near k).1 + count_in sta n ds ≡ i + length ds
unfolding forward_skip
forward_skip-all sta n [] i near k a b e = λ h. omega arith
forward_skip-all sta n (d ∷ ds) i near k (above, asc) (b, bs) e = elim (Bool-cases (leb_ℤ d near)) [
  | inl reach ↦ elim (Bool-cases (leb_ℤ sta d)) [
    | inl hit ↦
        rw (reach, hit, lt→ltb i k (omega arith), leb_ℤ_of_le d n (omega arith))
          (λ h. omega (
            arith,
            count_in-full sta n d ds (le_of_leb_ℤ sta d hit) above bs,
            forward_skip-delsta sta ds (i + 1) (to_i64 (near +ℤ pos 1)) i,
          ))
    | inr miss ↦
        rw (reach, miss)
          (λ h. omega (arith, forward_skip-all sta n ds (i + 1) near k asc bs (omega arith) h))
  ]
  | inr stop ↦ rw stop (λ h. absurd (omega (arith, lt_of_leb_ℤ d near stop)))
]

-- No more distinct rows than places.
count_in-Above_le :
    (lo n d : ℤ) (ds : List ℤ)
    → Above d ds
    → IsAscending ds
    → Below n ds
    → d <ℤ n
    → suc (count_in lo n ds + pos_part d + neg_part n) ≤ pos_part n + neg_part d
count_in-Above_le lo n d [] a asc b h = omega arith
count_in-Above_le lo n d (e ∷ es) (a, as') (x, asc) (b, bs) h =
    ground (arith, count_in-Above_le lo n e es x asc bs b)

count_in-le :
    (lo n : ℤ) (ds : List ℤ)
    → IsAscending ds
    → Below n ds
    → lo ≤ℤ n
    → count_in lo n ds + pos_part lo + neg_part n ≤ pos_part n + neg_part lo
count_in-le lo n [] asc b h = omega arith
count_in-le lo n (d ∷ ds) (a, asc) (b, bs) h =
    ground (arith, count_in-Above_le lo n d ds a asc bs b, count_in-le lo n ds asc bs h)

count_in-Below :
    (lo n r : ℤ) (ds : List ℤ) → Below n ds → n ≤ℤ r → count_in lo r ds ≡ count_in lo n ds
count_in-Below lo n r [] b h = refl
count_in-Below lo n r (d ∷ ds) (b, bs) h = ground (arith, count_in-Below lo n r ds bs h)

-- What a move forward from `sta` over `nth` rows answers, with `n` rows in all: either the row
-- `nearest` is the nth one from `sta` on that is not deleted, or there are only `v < nth` such rows.
abbrev pub IsNthForward : ℤ → ℕ → ℕ → List ℤ → ℤ × ℤ → Type 0
IsNthForward sta nth n ds (ret, nearest) =
    record {
      counted : ret ≡ pos nth;
      inside : nearest <ℤ pos n;
      alive : NotIn nearest ds;
      distance :
          suc (pos_part nearest + neg_part sta)
          ≡ pos_part sta + neg_part nearest + nth + count_in sta nearest ds;
    }
    ⊎ ((v : ℕ) × record {
      counted : ret ≡ pos 0 -ℤ pos v;
      short : v < nth;
      at_end : nearest ≡ pos n;
      distance : n + neg_part sta ≡ pos_part sta + v + count_in sta (pos n) ds;
    })

start_room :
    (sta : ℤ) (nth n l : ℕ)
    → sta ≤ℤ pos n
    → 1 ≤ nth
    → nth + n + l < 2 ^ 63
    → neg_part sta + n < 2 ^ 63
    → HasRoom (sta -ℤ pos 1 +ℤ pos nth) l
unfolding ◌+ℤ◌ ◌-ℤ◌
start_room sta nth n l h one high low = ground arith

start-HasRoom :
    (sta : ℤ) (nth n l : ℕ)
    → sta ≤ℤ pos n
    → 1 ≤ nth
    → nth + n + l < 2 ^ 63
    → neg_part sta + n < 2 ^ 63
    → (to_i64 (sta -ℤ pos 1 +ℤ pos nth) ≡ sta -ℤ pos 1 +ℤ pos nth)
      × HasRoom (sta -ℤ pos 1 +ℤ pos nth) l
start-HasRoom sta nth n l h one high low =
    let near = sta -ℤ pos 1 +ℤ pos nth in
    let (a, b) = start_room sta nth n l h one high low in (to_i64-same near (omega arith) b, (a, b))

-- What is returned where only `v` rows follow.
to_i64-short : (z : ℤ) (v : ℕ) → z ≡ pos 0 -ℤ pos v → v < 2 ^ 63 → to_i64 z ≡ pos 0 -ℤ pos v
unfolding to_i64 ◌-ℤ◌
to_i64-short z v e h = ground arith

nth_of_all-IsNthForward :
    (sta : ℤ) (nth n : ℕ)
    → sta ≤ℤ pos n
    → 1 ≤ nth
    → nth + n < 2 ^ 63
    → neg_part sta + n < 2 ^ 63
    → IsNthForward sta nth n [] (nth_of_all next (pos n) sta nth)
unfolding nth_of_all
nth_of_all-IsNthForward sta nth n h one high low =
    let (start, room) = start-HasRoom sta nth n 0 h one (omega arith) low in
    rw (start, to_i64-same (pos nth) (omega arith) (omega arith))
      (elim (Bool-cases (ltb_ℤ (sta -ℤ pos 1 +ℤ pos nth) (pos n))) [
        | inl found ↦ rw found (
            inl (record {
              counted = refl;
              inside = ltb→lt _ _ found;
              alive = tt;
              distance = omega int_laws;
            }))
        | inr over ↦ rw over (
            inr (
              n + neg_part sta - pos_part sta,
              record {
                counted =
                    to_i64-short _ (n + neg_part sta - pos_part sta) (omega int_laws) (omega arith);
                short = omega (int_laws, le_of_ltb_ℤ (sta -ℤ pos 1 +ℤ pos nth) (pos n) over);
                at_end = refl;
                distance = omega arith;
              },
            ))
      ])

nth_of_undeleted-IsNthForward :
    (sta : ℤ) (nth n : ℕ) (ds : List ℤ)
    → IsAscending ds
    → Below (pos n) ds
    → sta ≤ℤ pos n
    → 1 ≤ nth
    → nth + n + length ds < 2 ^ 63
    → neg_part sta + n < 2 ^ 63
    → IsNthForward sta nth n ds (nth_of_undeleted next (pos n) ds sta nth)
unfolding nth_of_undeleted
nth_of_undeleted-IsNthForward sta nth n ds asc below h one high low =
    let near = sta -ℤ pos 1 +ℤ pos nth in
    let (same_start, room) = start-HasRoom sta nth n (length ds) h one high low in
    let s = forward_skip-Skipped sta ds 0 near (length ds) room asc (omega int_laws) in
    rw (same_start, to_i64-same (pos nth) (omega arith) (omega arith))
      (let r = (forward_skip sta ds 0 near (length ds)).0 in
        elim (Bool-cases (leb_ℤ (pos n) r)) [
          | inl over ↦
              let all =
                forward_skip-all sta (pos n) ds 0 near (length ds) asc below (omega arith)
                  (le_of_leb_ℤ (pos n) r over) in
              let same = count_in-Below sta (pos n) r ds below (le_of_leb_ℤ (pos n) r over) in
              let fits = count_in-le sta (pos n) ds asc below h in
              rw over (
                inr (
                  n + neg_part sta - pos_part sta - count_in sta (pos n) ds,
                  record {
                    counted =
                        to_i64-short _ (n + neg_part sta - pos_part sta - count_in sta (pos n) ds)
                          (omega int_laws) (omega arith);
                    short = omega (int_laws, le_of_leb_ℤ (pos n) r over, same);
                    at_end = refl;
                    distance = omega arith;
                  },
                ))
          | inr found ↦ rw found (
              inl (record {
                counted = refl;
                inside = lt_of_leb_ℤ (pos n) r found;
                alive = s.alive;
                distance = omega int_laws;
              }))
        ])

-- For a result with a cursor whose deleted rows are in ascending order below the number of rows (while
-- the end has not been seen, `INT_MAX`), from a `sta` not behind the last row, and where `nth` with the
-- rows and the deleted rows, and -sta with the rows, stay below 2 ^ 63, `getNthValid` with an orientation other than `SQL_FETCH_PRIOR` always answers. Either `nearest`
-- is the nth row from `sta` on that is not deleted, and `nth` is returned; or only `v < nth` such
-- rows follow, and it returns -v with `nearest` behind the last row.
pub get_nth_valid-IsNthForward :
    (res : QResult) (sta : ℤ) (nth : ℕ) (ds : List ℤ)
    → res.has_cursor ≡ true
    → deleted_indexes res ≡ some ds
    → length ds ≡ res.dl_count
    → IsAscending ds
    → Below (pos (row_limit res)) ds
    → sta ≤ℤ pos (row_limit res)
    → 1 ≤ nth
    → nth + row_limit res + length ds < 2 ^ 63
    → neg_part sta + row_limit res < 2 ^ 63
    → (out : ℤ × ℤ) × (get_nth_valid res sta next nth ≡ some out)
      × IsNthForward sta nth (row_limit res) ds out
unfolding get_nth_valid
get_nth_valid-IsNthForward res sta nth [] c e l asc b h one high low =
    (_, ground arith, nth_of_all-IsNthForward sta nth (row_limit res) h one (omega arith) low)
get_nth_valid-IsNthForward res sta nth (d ∷ ds) c e l asc b h one high low = (
  _,
  ground arith,
  nth_of_undeleted-IsNthForward sta nth (row_limit res) (d ∷ ds) asc b h one high low,
)
