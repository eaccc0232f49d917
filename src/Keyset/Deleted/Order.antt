-- ===== src/Keyset/Deleted/Order.antt =====
-- The list of deleted rows stays sorted, and taking a row back undoes its deletion.
use open_gauss_connector_odb.Base.{
  ℕ, suc, ◌+◌, ◌*◌, ◌%◌, ◌^◌, ◌<◌, ◌≡◌, refl, ap, ◌∙◌, inl, inr, ◌⊎◌, true, false, List, [], ◌∷◌,
  none, some, map, length, ltb, leb, arith, Bool-cases,
}
use open_gauss_connector_odb.Base.Int.{ℤ, pos, negsuc, ◌<ℤ◌, ◌≤ℤ◌}
use open_gauss_connector_odb.Keyset.{KeySet, Entry, QResult}
use open_gauss_connector_odb.Keyset.Navigate.{index_of}
use open_gauss_connector_odb.Keyset.Navigate.Forward.{Above, IsAscending, NotIn}
use open_gauss_connector_odb.Keyset.Deleted.{
  to_unsigned, to_signed, insert_deleted, deleted_entry, store_deleted, add_deleted,
  remove_matching, remove_deleted, matches, pidx_of, midx_of,
}

-- Every index is the place of a row.
abbrev AllRows : List Entry → Type 0
AllRows [] = Unit
AllRows (e ∷ es) = (pos 0 ≤ℤ e.index) × AllRows es

Above-trans : (c d : ℤ) (ds : List ℤ) → c <ℤ d → Above d ds → Above c ds
Above-trans c d [] h a = tt
Above-trans c d (x ∷ xs) h (a, as') = (omega arith, Above-trans c d xs h as')

insert_deleted-Above :
    (c : ℤ) (n : ℕ) (e : Entry) (es : List Entry)
    → c <ℤ e.index
    → Above c (map index_of es)
    → Above c (map index_of (insert_deleted n e es))
unfolding insert_deleted
insert_deleted-Above c n e [] h a = (h, tt)
insert_deleted-Above c n e (x ∷ xs) h (a, as') = ground (arith, insert_deleted-Above c n e xs h as')

before_lt : (n : ℕ) (e d : ℤ) → e ≡ pos n → pos 0 ≤ℤ d → ltb n (to_unsigned d) ≡ true → e <ℤ d
before_lt n e (pos d) i r h = rw i (ground arith)
before_lt n e (negsuc d) i r h = absurd (omega arith)

behind_gt :
    (n : ℕ) (e d : ℤ)
    → e ≡ pos n
    → pos 0 ≤ℤ d
    → (d <ℤ pos n) ⊎ (pos n <ℤ d)
    → ltb n (to_unsigned d) ≡ false
    → d <ℤ e
behind_gt n e (pos d) i r f h = rw i (ground arith)
behind_gt n e (negsuc d) i r f h = absurd (omega arith)

insert_deleted-IsAscending :
    (n : ℕ) (e : Entry) (es : List Entry)
    → e.index ≡ pos n
    → AllRows es
    → NotIn (pos n) (map index_of es)
    → IsAscending (map index_of es)
    → IsAscending (map index_of (insert_deleted n e es))
unfolding insert_deleted
insert_deleted-IsAscending n e [] i r f a = (tt, tt)
insert_deleted-IsAscending n e (x ∷ xs) i (r, rs) (f, fs) (a, as') =
    elim (Bool-cases (ltb n (to_unsigned x.index))) [
      | inl before ↦
          let lt = before_lt n e.index x.index i r before in
          rw before ((lt, Above-trans e.index x.index (map index_of xs) lt a), (a, as'))
      | inr behind ↦ rw behind (
        insert_deleted-Above x.index n e xs (behind_gt n e.index x.index i r f behind) a,
        insert_deleted-IsAscending n e xs i rs fs as',
      )
    ]

length-insert_deleted :
    (n : ℕ) (e : Entry) (es : List Entry) → length (insert_deleted n e es) ≡ suc (length es)
unfolding insert_deleted
length-insert_deleted n e [] = refl
length-insert_deleted n e (x ∷ xs) = ground (arith, length-insert_deleted n e xs)

-- What holds of the list of deleted rows while its array is there: it has `dl_count` entries, all of
-- them places of rows, in ascending order, each once.
pub record IsSorted (res : QResult) (es : List Entry) : Type 0 where
  pub present : res.deleted ≡ some es
  pub counted : res.dl_count ≡ length es
  pub few : length es < 2 ^ 15
  pub rows : AllRows es
  pub ascending : IsAscending (map index_of es)

AllRows-insert_deleted :
    (n : ℕ) (e : Entry) (es : List Entry)
    → pos 0 ≤ℤ e.index
    → AllRows es
    → AllRows (insert_deleted n e es)
unfolding insert_deleted
AllRows-insert_deleted n e [] h a = (h, tt)
AllRows-insert_deleted n e (x ∷ xs) h (a, as') = ground (arith, AllRows-insert_deleted n e xs h as')

to_signed_row : (n : ℕ) → n < 2 ^ 63 → to_signed n ≡ pos n
to_signed_row n h = ground arith

store_deleted-IsSorted :
    (res : QResult) (alloc : ℕ) (es : List Entry) (index : ℕ) (k : KeySet)
    → length es + 1 < 2 ^ 15
    → AllRows es
    → IsAscending (map index_of es)
    → index < 2 ^ 63
    → NotIn (pos index) (map index_of es)
    → IsSorted
        (store_deleted res alloc index k es)
        (insert_deleted index (deleted_entry res.conn.in_trans index k) es)
unfolding store_deleted
store_deleted-IsSorted res alloc es index k few r a small f =
    let e = deleted_entry res.conn.in_trans index k in
    let at = to_signed_row index small in
    let len = length-insert_deleted index e es in
    record {
      present = refl;
      counted = omega (arith, len);
      few = omega (arith, len);
      rows = AllRows-insert_deleted index e es (rw at (omega arith)) r;
      ascending = insert_deleted-IsAscending index e es at r f a;
    }

add_deleted-store :
    (res : QResult) (es : List Entry) (index : ℕ) (k : KeySet)
    → res.has_cursor ≡ true
    → res.deleted ≡ some es
    → (alloc : ℕ) × (add_deleted true true res index k ≡ (
      store_deleted (record res { dl_count = (res.dl_count + 1) % 2 ^ 16 }) alloc index k es,
      true,
    ))
unfolding add_deleted
add_deleted-store res es index k c p = elim (Bool-cases (leb res.dl_alloc (length es))) [
  | inl full ↦ (res.dl_alloc * 2 % 2 ^ 16, ground arith)
  | inr room ↦ (res.dl_alloc, ground arith)
]

-- Before the first deletion there is no array.
abbrev pub IsSortedSoFar : QResult → List Entry → Type 0
IsSortedSoFar res es = IsSorted res es ⊎ ((res.deleted ≡ none) × (es ≡ []))

add_deleted-first :
    (res : QResult) (index : ℕ) (k : KeySet)
    → res.has_cursor ≡ true
    → res.deleted ≡ none
    → add_deleted true true res index k
      ≡ (store_deleted (record res { dl_count = (res.dl_count + 1) % 2 ^ 16 }) 10 index k [], true)
unfolding add_deleted
add_deleted-first res index k c e = ground arith

-- For a result with a cursor and fewer than 2 ^ 15 - 1 deleted rows, whose list of them is
-- complete, in ascending order and counted by `dl_count`, or does not exist yet, and with the
-- allocations granted: `AddDeleted` of a row below 2 ^ 63 that is not in the list succeeds, be it
-- the first deletion or a later one; and the list is again complete, in ascending order and
-- counted: it is the old one with the new entry in its place.
pub add_deleted-IsSorted :
    (res : QResult) (es : List Entry) (index : ℕ) (k : KeySet)
    → res.has_cursor ≡ true
    → IsSortedSoFar res es
    → length es + 1 < 2 ^ 15
    → index < 2 ^ 63
    → NotIn (pos index) (map index_of es)
    → IsSorted
        (add_deleted true true res index k).0
        (insert_deleted index (deleted_entry res.conn.in_trans index k) es)
      × ((add_deleted true true res index k).1 ≡ true)
add_deleted-IsSorted res es index k c (inl s) few small f =
    let (alloc, e) = add_deleted-store res es index k c s.present in
    rw e (store_deleted-IsSorted _ alloc es index k few s.rows s.ascending small f, refl)
add_deleted-IsSorted res es index k c (inr (absent, empty)) few small f = rw empty (
    rw (add_deleted-first res index k c absent)
      (store_deleted-IsSorted _ 10 [] index k (omega arith) tt tt small tt, refl))

-- No entry goes by either of the two numbers.
abbrev pub Free : ℤ → ℤ → List Entry → Type 0
Free p m [] = Unit
Free p m (e ∷ es) = (matches p m e ≡ false) × Free p m es

pub remove_matching-Free : (p m : ℤ) (es : List Entry) → Free p m es → remove_matching p m es ≡ es
unfolding remove_matching
remove_matching-Free p m [] f = refl
remove_matching-Free p m (e ∷ []) (f, _) = rw f
remove_matching-Free p m (e ∷ x ∷ xs) (f, fs) =
    rw f (ap (◌∷◌ e) (remove_matching-Free p m (x ∷ xs) fs))

remove_matching-head :
    (p m : ℤ) (e : Entry) (es : List Entry)
    → matches p m e ≡ true
    → Free p m es
    → remove_matching p m (e ∷ es) ≡ es
unfolding remove_matching
remove_matching-head p m e [] h f = rw h
remove_matching-head p m e (x ∷ xs) h (f, fs) = rw h (ap (◌∷◌ x) (remove_matching-Free p m xs fs))

pub remove_matching-skip :
    (p m : ℤ) (e : Entry) (es : List Entry)
    → matches p m e ≡ false
    → remove_matching p m (e ∷ es) ≡ e ∷ remove_matching p m es
unfolding remove_matching
remove_matching-skip p m e [] h = rw h
remove_matching-skip p m e (x ∷ xs) h = rw h

remove_matching-insert_deleted :
    (p m : ℤ) (n : ℕ) (e : Entry) (es : List Entry)
    → matches p m e ≡ true
    → Free p m es
    → remove_matching p m (insert_deleted n e es) ≡ es
unfolding insert_deleted
remove_matching-insert_deleted p m n e [] h f = remove_matching-head p m e [] h f
remove_matching-insert_deleted p m n e (x ∷ xs) h (f, fs) =
    elim (Bool-cases (ltb n (to_unsigned x.index))) [
      | inl before ↦ rw before (remove_matching-head p m e (x ∷ xs) h (f, fs))
      | inr behind ↦ rw behind (
          remove_matching-skip p m x (insert_deleted n e xs) f
          ∙ ap (◌∷◌ x) (remove_matching-insert_deleted p m n e xs h fs))
    ]

-- Taking back a deletion: if no entry goes by the numbers of the row, `RemoveDeleted` after a
-- successful `AddDeleted` of the same row gives the list and the count that there were before.
pub remove_deleted-add_deleted :
    (res : QResult) (es : List Entry) (index : ℕ) (k : KeySet)
    → res.has_cursor ≡ true
    → IsSorted res es
    → length es + 1 < 2 ^ 15
    → index < 2 ^ 63
    → Free (pidx_of res.num_total_read (pos index)) (midx_of res.num_total_read (pos index)) es
    → ((remove_deleted (add_deleted true true res index k).0 (pos index)).deleted ≡ res.deleted)
      × ((remove_deleted (add_deleted true true res index k).0 (pos index)).dl_count ≡ res.dl_count)
unfolding remove_deleted store_deleted
remove_deleted-add_deleted res es index k c s few small f =
    let (alloc, e) = add_deleted-store res es index k c s.present in
    let p = pidx_of res.num_total_read (pos index) in
    let m = midx_of res.num_total_read (pos index) in
    let d = deleted_entry res.conn.in_trans index k in
    let hit : matches p m d ≡ true = rw (to_signed_row index small) (ground arith) in
    let back = remove_matching-insert_deleted p m index d es hit f in
    let len = length-insert_deleted index d es in
    rw (e, back, s.present, s.counted) (refl, omega (arith, len))
