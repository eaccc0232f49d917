-- ===== src/Keyset/Added/Undone.antt =====
-- Taking back an added row.
use open_gauss_connector_odb.Base.{
  ℕ, zero, suc, ◌+◌, ◌-◌, ◌*◌, ◌%◌, ◌^◌, ◌<◌, ◌≤◌, ◌≡◌, refl, ap, ◌∙◌, inl, inr, ◌⊎◌, ◌==◌, Bool,
  true, List, [], ◌∷◌, ◌++◌, Option, none, some, length, ltb, leb, if◌then◌else◌, arith, Bool-cases,
}
use open_gauss_connector_odb.Base.Int.{ℤ, pos, negsuc, ◌-ℤ◌}
use open_gauss_connector_odb.Keyset.{KeySet, Entry, Rollback, QResult}
use open_gauss_connector_odb.Keyset.Deleted.{pidx_of, midx_of, remove_deleted}
use open_gauss_connector_odb.Keyset.Deleted.Order.{Free, remove_matching-Free}
use open_gauss_connector_odb.Keyset.Updated.{remove_updated, remove_updated_after_the_key}
use open_gauss_connector_odb.Keyset.Updated.Stored.{remove_after-none}
use open_gauss_connector_odb.Keyset.Added.{
  sql_add, rollback_of, log_rollback, add_rollback, doubled_added, enlarge_added, added_status,
  add_added, remove_at, rmidx_of, take_out, remove_added,
}

-- The rollback records; before the first of a transaction there is no array.
abbrev pub HasLog : QResult → List Rollback → Type 0
HasLog res rbs = (res.rollback ≡ some rbs) ⊎ ((res.rollback ≡ none) × (rbs ≡ []))

-- Where rows can be added: a cursor with cached tuples, and arrays that have room for the rows added
-- and can be doubled, as the list of rollback records can.
pub record CanAddRow (res : QResult) (rbs : List Rollback) : Type 0 where
  pub cursor : res.has_cursor ≡ true
  pub in_trans : res.conn.in_trans ≡ true
  pub tuples : res.has_added_tuples ≡ true
  pub counted : res.ad_count ≡ length res.added_keyset
  pub room : res.ad_count ≤ res.ad_alloc
  pub small : res.ad_alloc < 2 ^ 30
  pub logged : HasLog res rbs
  pub log_counted : res.rb_count ≡ length rbs
  pub log_small : length rbs < 2 ^ 15

doubled_added-once :
    (fuel a n : ℕ)
    → a < 2 ^ 30
    → n ≤ a + 1
    → 0 < a
    → doubled_added (suc (suc fuel)) a n ≡ some (if ltb a n then a * 2 else a)
unfolding doubled_added
doubled_added-once fuel a n h k l = ground arith

abbrev new_alloc : ℕ → ℕ → ℕ
new_alloc a n = if a == 0 then 10 else if ltb a n then a * 2 else a

enlarge_added-grown :
    (keyset_driven : Bool) (res : QResult) (n a : ℕ)
    → res.has_added_tuples ≡ true
    → res.ad_alloc ≡ a
    → n ≤ a + 1
    → a < 2 ^ 30
    → (alloc : ℕ) × (enlarge_added true keyset_driven res n
        ≡ some (record res { ad_alloc = alloc; has_added_tuples = true }, true))
unfolding enlarge_added
enlarge_added-grown keyset_driven res n zero t e h k = (10, ground (arith, t, e))
enlarge_added-grown keyset_driven res n (suc a) t e h k =
    (new_alloc (suc a) n, ground (arith, t, e, doubled_added-once 30 (suc a) n k h (omega arith)))

first_logged :
    (res : QResult) (index : ℤ) (keyset : KeySet) (dmlcode : ℕ)
    → res.conn.in_trans ≡ true
    → res.rollback ≡ none
    → res.rb_count ≡ 0
    → add_rollback true res index keyset dmlcode
      ≡ log_rollback res 10 [] (rollback_of index keyset dmlcode)
unfolding add_rollback log_rollback
first_logged res index keyset dmlcode t e n = simp (add_rollback, t, e, n) refl

add_rollback-logged :
    (res : QResult) (index : ℤ) (keyset : KeySet) (dmlcode : ℕ) (rbs : List Rollback)
    → res.conn.in_trans ≡ true
    → HasLog res rbs
    → res.rb_count ≡ length rbs
    → (alloc : ℕ) × (add_rollback true res index keyset dmlcode
        ≡ log_rollback res alloc rbs (rollback_of index keyset dmlcode))
unfolding add_rollback log_rollback
add_rollback-logged res index keyset dmlcode rbs t (inr (absent, empty)) n =
    let zero_count : res.rb_count ≡ 0 = n ∙ ap length empty in
    (10, rw empty (first_logged res index keyset dmlcode t absent zero_count))
add_rollback-logged res index keyset dmlcode rbs t (inl e) n =
    elim (Bool-cases (leb res.rb_alloc res.rb_count)) [
      | inl full ↦ (res.rb_alloc * 2 % 2 ^ 16, ground (arith, t, e, full))
      | inr room ↦ (res.rb_alloc, ground (arith, t, e, room))
    ]

-- The place and the key of the new row.
abbrev pub place_of : QResult → ℤ
place_of res = pos 0 -ℤ pos (res.ad_count + 1)

abbrev pub key_of : QResult → KeySet → KeySet
key_of res added = record added { status = added_status res.conn.in_trans }

-- The result that `AddAdded` leaves, with the sizes of its arrays.
abbrev made : QResult → KeySet → List Rollback → ℕ → ℕ → QResult
made res keys rbs alloc rb_alloc = record res {
  conn = record (res.conn) { result_uncommitted = true };
  ad_alloc = alloc;
  ad_count = res.ad_count + 1;
  has_added_tuples = true;
  added_keyset = res.added_keyset ++ keys ∷ [];
  rb_alloc = rb_alloc;
  rb_count = (res.rb_count + 1) % 2 ^ 16;
  rollback = some (rbs ++ rollback_of (place_of res) keys sql_add ∷ []);
}

-- The same before the key is stored.
abbrev logged_only : QResult → KeySet → List Rollback → ℕ → QResult
logged_only res keys rbs rb_alloc =
    log_rollback (record res { ad_count = res.ad_count + 1 }) rb_alloc rbs
      (rollback_of (place_of res) keys sql_add)

add_added-made :
    (keyset_driven : Bool) (res : QResult) (index : ℤ) (added : KeySet) (rbs : List Rollback)
    → CanAddRow res rbs
    → (alloc : ℕ) × (rb_alloc : ℕ) × (add_added true true keyset_driven res index (some added)
        ≡ some (made res (key_of res added) rbs alloc rb_alloc))
unfolding add_added log_rollback
add_added-made keyset_driven res index added rbs can =
    let count : (res.ad_count + 1) % 2 ^ 32 ≡ res.ad_count + 1 =
      omega (arith, can.room, can.small) in
    let (rb_alloc, l) =
      add_rollback-logged (record res { ad_count = res.ad_count + 1 }) (place_of res)
        (key_of res added) sql_add rbs can.in_trans can.logged can.log_counted in
    let (alloc, g) =
      enlarge_added-grown keyset_driven (logged_only res (key_of res added) rbs rb_alloc)
        (res.ad_count + 1) res.ad_alloc can.tuples refl (omega (arith, can.room)) can.small in
    (alloc, rb_alloc, ground (arith, can.cursor, count, l, g, can.room))

remove_updated-Free :
    (res : QResult) (index : ℤ)
    → Free (pidx_of res.num_total_read index) (midx_of res.num_total_read index) res.updated
    → remove_updated res index ≡ res
unfolding remove_updated_after_the_key
remove_updated-Free res index f =
    let p = pidx_of res.num_total_read index in
    let m = midx_of res.num_total_read index in
    let kept = remove_after-none p m res.updated ∙ remove_matching-Free p m res.updated f in
    let n : res.up_count - (length res.updated - length res.updated) ≡ res.up_count = omega arith in
    ap
      (λ es. record res {
        updated = es;
        up_count = res.up_count - (length res.updated - length es);
      })
      kept
    ∙ ap (λ c. record res { up_count = c }) n

abbrev pub FreeDeleted : ℤ → ℤ → Option (List Entry) → Type 0
FreeDeleted p m none = Unit
FreeDeleted p m (some es) = Free p m es

remove_deleted-Free :
    (res : QResult) (index : ℤ) (o : Option (List Entry))
    → res.deleted ≡ o
    → FreeDeleted (pidx_of res.num_total_read index) (midx_of res.num_total_read index) o
    → ((remove_deleted res index).deleted ≡ res.deleted)
      × ((remove_deleted res index).updated ≡ res.updated)
      × ((remove_deleted res index).added_keyset ≡ res.added_keyset)
      × ((remove_deleted res index).ad_count ≡ res.ad_count)
      × ((remove_deleted res index).num_total_read ≡ res.num_total_read)
unfolding remove_deleted
remove_deleted-Free res index none e f = rw e (refl, refl, refl, refl, refl)
remove_deleted-Free res index (some es) e f =
    let p = pidx_of res.num_total_read index in
    let m = midx_of res.num_total_read index in
    rw e (ap some (remove_matching-Free p m es f), refl, refl, refl, refl)

remove_at-last :
    (xs : List KeySet) (k : KeySet) (n : ℕ) → n ≡ length xs → remove_at n (xs ++ k ∷ []) ≡ xs
remove_at-last [] k zero e = refl
remove_at-last [] k (suc n) e = absurd (omega arith)
remove_at-last (x ∷ xs) k zero e = absurd (omega arith)
remove_at-last (x ∷ xs) k (suc n) e = ap (◌∷◌ x) (remove_at-last xs k n (omega arith))

place_negative : (res : QResult) → place_of res ≡ negsuc res.ad_count
unfolding ◌-ℤ◌
place_negative res = ground arith

rmidx_last : (num_read n : ℕ) → rmidx_of num_read (negsuc n) ≡ pos n
unfolding ◌-ℤ◌
rmidx_last num_read n = ground arith

take_out-last :
    (res : QResult) (xs : List KeySet) (k : KeySet) (n : ℕ) (index : ℤ)
    → res.added_keyset ≡ xs ++ k ∷ []
    → n ≡ length xs
    → Free (pidx_of res.num_total_read index) (midx_of res.num_total_read index) res.updated
    → FreeDeleted (pidx_of res.num_total_read index) (midx_of res.num_total_read index) res.deleted
    → ((take_out res n index).added_keyset ≡ xs)
      × ((take_out res n index).ad_count ≡ res.ad_count - 1)
      × ((take_out res n index).updated ≡ res.updated)
      × ((take_out res n index).deleted ≡ res.deleted)
unfolding take_out
take_out-last res xs k n index a e u d =
    let rest = record res { added_keyset = remove_at n res.added_keyset } in
    let (rd, ru, ra, rc, rn) = remove_deleted-Free rest index res.deleted refl d in
    let same = remove_updated-Free (remove_deleted rest index) index (rw (rn, ru) u) in
    let gone = ap (remove_at n) a ∙ remove_at-last xs k n e in
    (
      ap (λ r. r.added_keyset) same ∙ ra ∙ gone,
      ap (λ r. r.ad_count - 1) same ∙ ap (λ c. c - 1) rc,
      ap (λ r. r.updated) same ∙ ru,
      ap (λ r. r.deleted) same ∙ rd,
    )

-- For a result with a cursor and with cached tuples of added rows, in a transaction, with fewer
-- than 2 ^ 15 rollback records or no array of them yet, with room for the counted added rows in
-- arrays of fewer than 2 ^ 30, and with memory granted: `AddAdded` ends and puts one record about
-- the new row, whose number is minus the count of added rows, behind the list for a rollback; and
-- `RemoveAdded` of that number gives the added rows and their count back as they were, and leaves
-- the lists of updated and of deleted rows alone, where no entry of these goes by the numbers of
-- the new row.
pub remove_added-add_added :
    (keyset_driven : Bool) (res : QResult) (index : ℤ) (added : KeySet) (rbs : List Rollback)
    → CanAddRow res rbs
    → Free
        (pidx_of res.num_total_read (place_of res))
        (midx_of res.num_total_read (place_of res))
        res.updated
    → FreeDeleted
        (pidx_of res.num_total_read (place_of res))
        (midx_of res.num_total_read (place_of res))
        res.deleted
    → (res' : QResult) × (res'' : QResult) × (add_added true true keyset_driven res index
          (some added)
        ≡ some res')
      × (res'.rollback ≡ some (rbs ++ rollback_of (place_of res) (key_of res added) sql_add ∷ []))
      × (remove_added res' (place_of res) ≡ some res'')
      × (res''.added_keyset ≡ res.added_keyset)
      × (res''.ad_count ≡ res.ad_count)
      × (res''.updated ≡ res.updated)
      × (res''.deleted ≡ res.deleted)
unfolding remove_added
remove_added-add_added keyset_driven res index added rbs can u d =
    let (alloc, rb_alloc, e) = add_added-made keyset_driven res index added rbs can in
    let keys = key_of res added in
    let after = made res keys rbs alloc rb_alloc in
    let (a, c, ru, rd) =
      take_out-last after res.added_keyset keys res.ad_count (place_of res) refl can.counted u d in
    let at =
      ap (rmidx_of res.num_total_read) (place_negative res)
      ∙ rmidx_last res.num_total_read res.ad_count in
    (
      after,
      take_out after res.ad_count (place_of res),
      e,
      refl,
      rw at (ground arith),
      a,
      c ∙ omega arith,
      ru,
      rd,
    )
