-- ===== src/Keyset/Discard.antt =====
-- `DiscardRollback` (results.c), at the end of a transaction that has been committed: the pending
-- changes of the rows become final.
use Prim.Native.Nat.{bit_and}
use open_gauss_connector_odb.Base.{
  ℕ, zero, suc, ◌^◌, ◌<◌, ◌≡◌, refl, sym, ap, ◌∙◌, ◌⊎◌, inl, inr, ◌==◌, Bool, true, false, ◌&&◌,
  ◌||◌, List, [], ◌∷◌, Option, none, some, map, length, get_elem?, if◌then◌else◌, arith, Bool-cases,
}
use open_gauss_connector_odb.Base.Int.{ℤ, pos, negsuc, ◌-ℤ◌, ltb_ℤ, leb_ℤ, eqb_ℤ}
use open_gauss_connector_odb.Keyset.{KeySet, Entry, Rollback, QResult}
use open_gauss_connector_odb.Keyset.Status.{
  pending_bits, commit_status, commit_updated_status, discard_status, commit_status-agree,
  discard_status-discard_status, commit_key, commit_entry, commit_added, commit_deleted,
  commit_updated,
}

-- Where the keys that are kept lie in the result: `QR_has_valid_base`, `rowset_start` of the
-- statement, and `key_base`.
pub record Window : Type 0 where
  pub valid_base : Bool
  pub rowset_start : ℤ
  pub key_base : ℤ

-- `GIdx2KResIdx`
abbrev pub gidx_to_kres_idx : Window → ℤ → ℤ
gidx_to_kres_idx w gidx = gidx -ℤ (if w.valid_base then w.rowset_start -ℤ w.key_base else pos 0)

abbrev modify_at : {A : Type 0} → (A → A) → ℕ → List A → List A
modify_at f n [] = []
modify_at f zero (x ∷ xs) = f x ∷ xs
modify_at f (suc n) (x ∷ xs) = x ∷ modify_at f n xs

-- The body of the loop; the keyset holds the `num_cached_keys` keys.
unfoldable pub discard_one : Window → List KeySet → Rollback → List KeySet
discard_one w keyset rb =
    let kres_ridx = gidx_to_kres_idx w rb.index in
    if leb_ℤ (pos 0) rb.index && ltb_ℤ kres_ridx (pos (length keyset))
    then elim kres_ridx [
      | pos n ↦ modify_at (commit_key discard_status) n keyset
      | negsuc _ ↦ keyset
    ]
    else keyset

unfoldable pub discard_all : Window → List KeySet → List Rollback → List KeySet
discard_all w keyset [] = keyset
discard_all w keyset (rb ∷ rbs) = discard_all w (discard_one w keyset rb) rbs

-- `DiscardRollback`. While the array `rollback` is there it holds `rb_count` records.
unfoldable pub discard_rollback : Window → QResult → QResult
discard_rollback w res =
    if res.has_cursor
    then commit_deleted (commit_updated (commit_added res))
    else if res.rb_count == 0
    then res
    else elim res.rollback [
      | none ↦ res
      | some rbs ↦ record res {
        keyset = discard_all w res.keyset rbs;
        rollback = none;
        rb_count = 0;
        rb_alloc = 0;
      }
    ]

-- No row of the list has a pending bit.
abbrev pub AreFinal : List KeySet → Type 0
AreFinal [] = Unit
AreFinal (k ∷ ks) = (bit_and k.status pending_bits ≡ 0) × AreFinal ks

-- Every status is a UWORD.
abbrev pub AreWords : List KeySet → Type 0
AreWords [] = Unit
AreWords (k ∷ ks) = (k.status < 2 ^ 16) × AreWords ks

abbrev pub key_of : Entry → KeySet
key_of e = e.key

abbrev pub deleted_of : Option (List Entry) → List Entry
deleted_of none = []
deleted_of (some es) = es

AreFinal-commit : (ks : List KeySet) → AreWords ks → AreFinal (map (commit_key commit_status) ks)
AreFinal-commit [] a = tt
AreFinal-commit (k ∷ ks) (h, a) = ((commit_status-agree k.status h).2, AreFinal-commit ks a)

AreFinal-commit_entry :
    (es : List Entry)
    → AreWords (map key_of es)
    → AreFinal (map key_of (map (commit_entry commit_status) es))
AreFinal-commit_entry [] a = tt
AreFinal-commit_entry (e ∷ es) (h, a) =
    ((commit_status-agree e.key.status h).2, AreFinal-commit_entry es a)

commit_updated_final : (s : ℕ) → s < 2 ^ 16 → bit_and (commit_updated_status s) pending_bits ≡ 0
commit_updated_final s h =
    let (a, b, c) = commit_status-agree s h in ap (λ x. bit_and x pending_bits) (b ∙ sym a) ∙ c

AreFinal-commit_updated :
    (es : List Entry)
    → AreWords (map key_of es)
    → AreFinal (map key_of (map (commit_entry commit_updated_status) es))
AreFinal-commit_updated [] a = tt
AreFinal-commit_updated (e ∷ es) (h, a) =
    (commit_updated_final e.key.status h, AreFinal-commit_updated es a)

AreFinal-deleted :
    (o : Option (List Entry)) (r : QResult)
    → r.deleted ≡ o
    → AreWords (map key_of (deleted_of o))
    → AreFinal (map key_of (deleted_of (commit_deleted r).deleted))
unfolding commit_deleted
AreFinal-deleted none r e a = rw e tt
AreFinal-deleted (some es) r e a = rw e (AreFinal-commit_entry es a)

-- The result before the last of the three commits.
abbrev committed : QResult → QResult
committed res = record res {
  added_keyset = map (commit_key commit_status) res.added_keyset;
  updated = map (commit_entry commit_updated_status) res.updated;
}

discard_rollback-cursor :
    (w : Window) (res : QResult)
    → res.has_cursor ≡ true
    → discard_rollback w res ≡ commit_deleted (committed res)
unfolding discard_rollback commit_updated commit_added
discard_rollback-cursor w res c = rw c refl

commit_deleted-others :
    (o : Option (List Entry)) (r : QResult)
    → r.deleted ≡ o
    → ((commit_deleted r).added_keyset ≡ r.added_keyset) × ((commit_deleted r).updated ≡ r.updated)
unfolding commit_deleted
commit_deleted-others none r e = rw e (refl, refl)
commit_deleted-others (some es) r e = rw e (refl, refl)

-- For a result with a cursor, `DiscardRollback` leaves no pending bit in the status of a row that was
-- added, deleted or updated, where the statuses are UWORDs.
pub discard_rollback-AreFinal :
    (w : Window) (res : QResult)
    → res.has_cursor ≡ true
    → AreWords res.added_keyset
    → AreWords (map key_of (deleted_of res.deleted))
    → AreWords (map key_of res.updated)
    → AreFinal (discard_rollback w res).added_keyset
      × AreFinal (map key_of (deleted_of (discard_rollback w res).deleted))
      × AreFinal (map key_of (discard_rollback w res).updated)
discard_rollback-AreFinal w res c a d u =
    let (added, updated) = commit_deleted-others res.deleted (committed res) refl in
    rw (discard_rollback-cursor w res c, added, updated)
      (
        AreFinal-commit res.added_keyset a,
        AreFinal-deleted res.deleted (committed res) refl d,
        AreFinal-commit_updated res.updated u,
      )

-- The record is about row `n` of the keyset.
abbrev pub points : Window → ℕ → Rollback → Bool
points w n rb = leb_ℤ (pos 0) rb.index && eqb_ℤ (gidx_to_kres_idx w rb.index) (pos n)

abbrev pub pointed : Window → ℕ → List Rollback → Bool
pointed w n [] = false
pointed w n (rb ∷ rbs) = points w n rb || pointed w n rbs

get_elem?-length : (ks : List KeySet) (n : ℕ) {k : KeySet} → get_elem? ks n ≡ some k → n < length ks
get_elem?-length [] n e = absurd (ground (arith, e))
get_elem?-length (x ∷ ks) zero e = omega arith
get_elem?-length (x ∷ ks) (suc n) e = omega (arith, get_elem?-length ks n e)

get_elem?-modify_at :
    (f : KeySet → KeySet) (n m : ℕ) (ks : List KeySet) (k : KeySet)
    → get_elem? ks n ≡ some k
    → get_elem? (modify_at f m ks) n ≡ some (if m == n then f k else k)
get_elem?-modify_at f n m [] k e = absurd (ground (arith, e))
get_elem?-modify_at f zero zero (x ∷ ks) k e = ground (arith, e)
get_elem?-modify_at f (suc n) zero (x ∷ ks) k e = ground (arith, e)
get_elem?-modify_at f zero (suc m) (x ∷ ks) k e = ground (arith, e)
get_elem?-modify_at f (suc n) (suc m) (x ∷ ks) k e =
    ground (arith, get_elem?-modify_at f n m ks k e)

abbrev final_key : KeySet → KeySet
final_key = commit_key discard_status

get_elem?-discard_one :
    (w : Window) (ks : List KeySet) (rb : Rollback) (n : ℕ) (k : KeySet) (i : ℤ)
    → gidx_to_kres_idx w rb.index ≡ i
    → get_elem? ks n ≡ some k
    → get_elem? (discard_one w ks rb) n
      ≡ some (if leb_ℤ (pos 0) rb.index && eqb_ℤ i (pos n) then final_key k else k)
unfolding discard_one
get_elem?-discard_one w ks rb n k (pos m) at e =
    rw at (ground (arith, get_elem?-modify_at final_key n m ks k e, get_elem?-length ks n e))
get_elem?-discard_one w ks rb n k (negsuc m) at e = rw at (ground (arith, e))

final_key-twice : (k : KeySet) → k.status < 2 ^ 16 → final_key (final_key k) ≡ final_key k
final_key-twice k h = ap (λ s. record k { status = s }) (discard_status-discard_status k.status h).0

get_elem?-discard_all :
    (w : Window) (rbs : List Rollback) (ks : List KeySet) (n : ℕ) (k : KeySet)
    → k.status < 2 ^ 16
    → get_elem? ks n ≡ some k
    → get_elem? (discard_all w ks rbs) n ≡ some (if pointed w n rbs then final_key k else k)
unfolding discard_all
get_elem?-discard_all w [] ks n k h e = e
get_elem?-discard_all w (rb ∷ rbs) ks n k h e =
    let one = get_elem?-discard_one w ks rb n k (gidx_to_kres_idx w rb.index) refl e in
    elim (Bool-cases (points w n rb)) [
      | inl hit ↦
          let small = (discard_status-discard_status k.status h).1 in
          let rest =
            get_elem?-discard_all w rbs (discard_one w ks rb) n (final_key k) small
              (rw hit at one) in
          elim (Bool-cases (pointed w n rbs)) [
            | inl more ↦ rw hit (rw (more, final_key-twice k h) at rest)
            | inr last ↦ rw hit (rw last at rest)
          ]
      | inr miss ↦
          rw miss (get_elem?-discard_all w rbs (discard_one w ks rb) n k h (rw miss at one))
    ]

-- For a result with no cursor and a list of rollback records, `DiscardRollback` makes the pending bits
-- of those rows of the keyset final that a record is about, however many records that are, leaves
-- all other rows as they are, and gives a list that is not empty back.
discard_rollback-pointed :
    (w : Window) (res : QResult) (rbs : List Rollback) (n : ℕ) (k : KeySet)
    → res.has_cursor ≡ false
    → res.rollback ≡ some rbs
    → res.rb_count ≡ length rbs
    → get_elem? res.keyset n ≡ some k
    → k.status < 2 ^ 16
    → (get_elem? (discard_rollback w res).keyset n
        ≡ some (if pointed w n rbs then commit_key discard_status k else k))
      × ((rbs ≡ []) ⊎ ((discard_rollback w res).rollback ≡ none))
unfolding discard_rollback
discard_rollback-pointed w res [] n k c r l e h =
    let empty : (res.rb_count == 0) ≡ true = ground (arith, l) in rw (c, empty) (e, inl refl)
discard_rollback-pointed w res (rb ∷ rbs) n k c r l e h =
    let some_left : (res.rb_count == 0) ≡ false = ground (arith, l) in
    rw (c, some_left, r) (get_elem?-discard_all w (rb ∷ rbs) res.keyset n k h e, inr refl)
