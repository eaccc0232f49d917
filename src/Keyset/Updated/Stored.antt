-- ===== src/Keyset/Updated/Stored.antt =====
-- The list of updated rows keeps within its arrays, and taking a row back undoes its update.
use open_gauss_connector_odb.Base.{
  ℕ, zero, suc, ◌+◌, ◌-◌, ◌*◌, ◌^◌, ◌<◌, ◌≤◌, ◌≡◌, refl, ap, ◌∙◌, inl, inr, ◌==◌, Bool, true, not,
  ◌||◌, List, [], ◌∷◌, ◌++◌, none, some, length, ltb, leb, if◌then◌else◌, arith, Bool-cases,
  length-append,
}
use open_gauss_connector_odb.Base.Int.{ℤ, pos, negsuc, to_i16-pos, mul_pos}
use open_gauss_connector_odb.Keyset.{KeySet, Entry, QResult}
use open_gauss_connector_odb.Keyset.Deleted.{matches, pidx_of, midx_of, remove_matching}
use open_gauss_connector_odb.Keyset.Deleted.Order.{Free, remove_matching-skip}
use open_gauss_connector_odb.Keyset.Updated.{
  doubled, enlarge_updated, updated_status, append_updated, mark_uncommitted, add_new, add_updated,
  remove_after, remove_updated_after_the_key, remove_updated,
}

-- The entries in use are counted, and the arrays have room for them.
pub record IsStored (res : QResult) : Type 0 where
  pub counted : res.up_count ≡ length res.updated
  pub room : res.up_count ≤ res.up_alloc

doubled-once :
    (fuel a n : ℕ)
    → 0 < a
    → a < 2 ^ 14
    → n ≤ a + 1
    → doubled (suc (suc fuel)) (pos a) (pos n) ≡ some (pos (if ltb a n then 2 * a else a))
unfolding doubled
doubled-once fuel a n h k l = ground (arith, mul_pos a 2, to_i16-pos (a * 2) (omega arith))

-- The size after `enlargeUpdated`.
abbrev new_alloc : ℕ → ℕ → ℕ
new_alloc a n = if a == 0 then 10 else if ltb a n then 2 * a else a

abbrev grown : Bool → QResult → ℕ → QResult
grown keyset_driven res n =
    if leb (new_alloc res.up_alloc n) res.up_alloc then res else record res {
      up_alloc = new_alloc res.up_alloc n;
      has_updated_tuples = res.has_updated_tuples || not keyset_driven;
    }

enlarge_updated-grown :
    (keyset_driven : Bool) (res : QResult) (n a : ℕ)
    → res.up_alloc ≡ a
    → n ≤ a + 1
    → a < 2 ^ 14
    → enlarge_updated true keyset_driven res n ≡ some (grown keyset_driven res n, true)
unfolding enlarge_updated
enlarge_updated-grown keyset_driven res n zero e h k = rw e (ground arith)
enlarge_updated-grown keyset_driven res n (suc a) e h k =
    ground (arith, e, to_i16-pos (suc a) (omega arith), doubled-once 14 (suc a) n (omega arith) k h)

pub remove_after-none :
    (p m : ℤ) (es : List Entry) → remove_after none p m es ≡ remove_matching p m es
unfolding remove_after remove_matching
remove_after-none p m [] = refl
remove_after-none p m (e ∷ []) = refl
remove_after-none p m (e ∷ x ∷ xs) =
    ground (arith, remove_after-none p m xs, remove_after-none p m (x ∷ xs))

remove_matching-append :
    (p m : ℤ) (e : Entry) (es : List Entry)
    → matches p m e ≡ true
    → Free p m es
    → remove_matching p m (es ++ e ∷ []) ≡ es
unfolding remove_matching
remove_matching-append p m e [] h f = rw h refl
remove_matching-append p m e (x ∷ xs) h (f, fs) =
    remove_matching-skip p m x (xs ++ e ∷ []) f ∙ ap (◌∷◌ x) (remove_matching-append p m e xs h fs)

-- Where rows can be added to the list: a cursor, and arrays that have room for the entries and can be
-- doubled.
pub record CanAdd (res : QResult) : Type 0 where
  pub cursor : res.has_cursor ≡ true
  pub stored : IsStored res
  pub small : res.up_alloc < 2 ^ 14

abbrev entry_of : QResult → ℤ → KeySet → Entry
entry_of res index keyset = record {
  index = index;
  key = record keyset { status = updated_status res.conn.in_trans keyset.status };
}

add_updated-in_trans :
    (keyset_driven : Bool) (res : QResult) (index : ℤ) (keyset : KeySet)
    → CanAdd res
    → res.conn.in_trans ≡ true
    → add_updated true keyset_driven res index keyset
      ≡ some (
          mark_uncommitted (
            append_updated
              (grown keyset_driven res (res.up_count + 1))
              index
              (entry_of res index keyset).key))
unfolding add_updated add_new
add_updated-in_trans keyset_driven res index keyset can t = ground (
  arith,
  t,
  can.cursor,
  can.stored.room,
  enlarge_updated-grown keyset_driven res (res.up_count + 1) res.up_alloc refl
      (omega (arith, can.stored.room)) can.small,
)

-- What `enlargeUpdated` leaves as it is, and the room that it makes.
grown_kept :
    (keyset_driven : Bool) (res : QResult) (n : ℕ)
    → ((grown keyset_driven res n).updated ≡ res.updated)
      × ((grown keyset_driven res n).up_count ≡ res.up_count)
      × ((grown keyset_driven res n).num_total_read ≡ res.num_total_read)
grown_kept keyset_driven res n = elim (Bool-cases (leb (new_alloc res.up_alloc n) res.up_alloc)) [
  | inl fits ↦ rw fits (refl, refl, refl)
  | inr grows ↦ rw grows (refl, refl, refl)
]

grown_room :
    (keyset_driven : Bool) (res : QResult) (n : ℕ)
    → n ≤ res.up_alloc + 1
    → n ≤ (grown keyset_driven res n).up_alloc
grown_room keyset_driven res n h = ground arith

-- The result that `AddUpdated` leaves in a transaction.
abbrev after_add : Bool → QResult → ℤ → KeySet → QResult
after_add keyset_driven res index keyset = mark_uncommitted (
    append_updated (grown keyset_driven res (res.up_count + 1)) index
      (entry_of res index keyset).key)

after_add_parts :
    (keyset_driven : Bool) (res : QResult) (index : ℤ) (keyset : KeySet)
    → ((after_add keyset_driven res index keyset).updated
        ≡ res.updated ++ entry_of res index keyset ∷ [])
      × ((after_add keyset_driven res index keyset).up_count ≡ res.up_count + 1)
      × ((after_add keyset_driven res index keyset).num_total_read ≡ res.num_total_read)
      × ((after_add keyset_driven res index keyset).up_alloc
          ≡ (grown keyset_driven res (res.up_count + 1)).up_alloc)
      × ((after_add keyset_driven res index keyset).conn.result_uncommitted ≡ true)
unfolding append_updated mark_uncommitted
after_add_parts keyset_driven res index keyset =
    let (u, c, n) = grown_kept keyset_driven res (res.up_count + 1) in
    (ap (λ es. es ++ entry_of res index keyset ∷ []) u, ap (λ k. k + 1) c, n, refl, refl)

-- For a result with a cursor, whose arrays have room for the counted rows and are of fewer than 2 ^ 14,
-- in a transaction and with memory granted, `AddUpdated` ends and puts the row with its new status behind
-- the rows of the list, the arrays have room for all of them, and the connection is told that there
-- is something to commit.
pub add_updated-IsStored :
    (keyset_driven : Bool) (res : QResult) (index : ℤ) (keyset : KeySet)
    → CanAdd res
    → res.conn.in_trans ≡ true
    → (res' : QResult) × (add_updated true keyset_driven res index keyset ≡ some res')
      × IsStored res'
      × (res'.updated ≡ res.updated ++ entry_of res index keyset ∷ [])
      × (res'.conn.result_uncommitted ≡ true)
add_updated-IsStored keyset_driven res index keyset can t =
    let (u, c, n, a, m) = after_add_parts keyset_driven res index keyset in
    let more = length-append res.updated (entry_of res index keyset ∷ []) in
    let room = grown_room keyset_driven res (res.up_count + 1) (omega (arith, can.stored.room)) in
    (
      after_add keyset_driven res index keyset,
      add_updated-in_trans keyset_driven res index keyset can t,
      record {
        counted = rw (u, c, more) (ap (λ k. k + 1) can.stored.counted);
        room = rw (c, a) room;
      },
      u,
      m,
    )

matches-own :
    (num_read : ℕ) (index : ℤ) (e : Entry)
    → e.index ≡ index
    → matches (pidx_of num_read index) (midx_of num_read index) e ≡ true
matches-own num_read (pos n) e at = ground (arith, at)
matches-own num_read (negsuc n) e at = ground (arith, at)

remove_updated-after :
    (res : QResult) (es : List Entry) (e : Entry) (index : ℤ)
    → res.updated ≡ es ++ e ∷ []
    → e.index ≡ index
    → Free (pidx_of res.num_total_read index) (midx_of res.num_total_read index) es
    → ((remove_updated res index).updated ≡ es)
      × ((remove_updated res index).up_count ≡ res.up_count - 1)
unfolding remove_updated_after_the_key
remove_updated-after res es e index u at f =
    let p = pidx_of res.num_total_read index in
    let m = midx_of res.num_total_read index in
    let gone : remove_after none p m res.updated ≡ es =
      remove_after-none p m res.updated
      ∙ ap (remove_matching p m) u
      ∙ remove_matching-append p m e es (matches-own res.num_total_read index e at) f in
    (gone, omega (arith, ap length gone, ap length u, length-append es (e ∷ [])))

-- Taking back an update made in a transaction: if no entry goes by the numbers of the row,
-- `RemoveUpdated` after `AddUpdated` of the same row gives the list and the count that there were
-- before, where the memory for the new entry is granted.
pub remove_updated-add_updated :
    (keyset_driven : Bool) (res res' : QResult) (index : ℤ) (keyset : KeySet)
    → CanAdd res
    → res.conn.in_trans ≡ true
    → Free (pidx_of res.num_total_read index) (midx_of res.num_total_read index) res.updated
    → add_updated true keyset_driven res index keyset ≡ some res'
    → ((remove_updated res' index).updated ≡ res.updated)
      × ((remove_updated res' index).up_count ≡ res.up_count)
remove_updated-add_updated keyset_driven res res' index keyset can t f e =
    let (u, c, n, a, m) = after_add_parts keyset_driven res index keyset in
    let made = add_updated-in_trans keyset_driven res index keyset can t in
    let same : after_add keyset_driven res index keyset ≡ res' = ground (arith, made, e) in
    let (gone, left) =
      remove_updated-after (after_add keyset_driven res index keyset) res.updated
        (entry_of res index keyset) index u refl (rw n f) in
    rw (← same) (gone, left ∙ omega (arith, c))
