-- ===== src/Keyset/Status.antt =====
-- The status bits of the rows that this driver has changed, and what `CommitAdded`,
-- `CommitDeleted`, `CommitUpdated` and `DiscardRollback` (results.c) make of them.
use Prim.Native.Nat.{bit_and, bit_or}
use open_gauss_connector_odb.Base.{
  ℕ, zero, suc, ◌+◌, ◌-◌, ◌*◌, ltb, ◌<◌, ◌≤◌, inl, inr, Bool-cases, ◌^◌, ◌≡◌, refl, ◌==◌, Bool,
  true, not, ◌&&◌, none, some, map, if◌then◌else◌, arith,
}
use open_gauss_connector_odb.Keyset.{
  KeySet, Entry, QResult, curs_self_adding, curs_self_deleting, curs_self_updating, curs_self_added,
  curs_self_deleted, curs_self_updated,
}

-- `status & ~mask` on a UWORD
abbrev pub clear : ℕ → ℕ → ℕ
clear mask status = bit_and status (0xffff - mask)

abbrev pub has : ℕ → ℕ → Bool
has mask status = not (bit_and status mask == 0)

-- One of the three tests of a commit: `from` becomes `to`.
unfoldable pub promote : ℕ → ℕ → ℕ → ℕ
promote from to status = if has from status then clear from (bit_or status to) else status

-- The loop body of `CommitAdded` and of `CommitDeleted`.
unfoldable pub commit_status : ℕ → ℕ
unfolding promote
commit_status status =
    promote curs_self_deleting curs_self_deleted (
      promote curs_self_updating curs_self_updated
        (promote curs_self_adding curs_self_added status))

-- One of the three tests of `CommitUpdated`, which clears before it sets.
unfoldable pub demote : ℕ → ℕ → ℕ → ℕ
demote from to status = if has from status then bit_or (clear from status) to else status

-- The loop body of `CommitUpdated`.
unfoldable pub commit_updated_status : ℕ → ℕ
unfolding demote
commit_updated_status status =
    demote curs_self_deleting curs_self_deleted
      (demote curs_self_adding curs_self_added (demote curs_self_updating curs_self_updated status))

abbrev pub pending_bits : ℕ
pending_bits = curs_self_deleting + curs_self_updating + curs_self_adding

-- What `DiscardRollback` does with the status of a row in the keyset.
unfoldable pub discard_status : ℕ → ℕ
discard_status status = bit_or (clear pending_bits status) (bit_and status pending_bits * 2 ^ 3)

-- A test of every status from 0 to `last`.
every_status : (ℕ → Bool) → ℕ → Bool
every_status good zero = good 0
every_status good (suc last) = every_status good last && good (suc last)

every_status-status :
    (good : ℕ → Bool) (last status : ℕ)
    → status ≤ last
    → every_status good last ≡ true
    → good status ≡ true
unfolding every_status
every_status-status good zero status in_range every = ground arith
every_status-status good (suc last) status in_range every = elim (Bool-cases (status == suc last)) [
  | inl top ↦ ground arith
  | inr lower ↦ every_status-status good last status (ground arith) (ground arith)
]

agree : ℕ → Bool
agree s =
    commit_status s == discard_status s
    && (commit_updated_status s == discard_status s && bit_and (commit_status s) pending_bits == 0)

settles : ℕ → Bool
settles s = discard_status (discard_status s) == discard_status s && ltb (discard_status s) (2 ^ 16)

settles_everywhere : every_status settles 0xffff ≡ true
unfolding every_status settles discard_status
settles_everywhere = refl

settles_parts : (a b : ℕ) → (a == b && ltb b (2 ^ 16)) ≡ true → (a ≡ b) × (b < 2 ^ 16)
settles_parts a b h = ground arith

-- A second commit of a status changes nothing.
pub discard_status-discard_status :
    (status : ℕ)
    → status < 2 ^ 16
    → (discard_status (discard_status status) ≡ discard_status status)
      × (discard_status status < 2 ^ 16)
unfolding settles
discard_status-discard_status s h =
    settles_parts (discard_status (discard_status s)) (discard_status s)
      (every_status-status settles 0xffff s (omega arith) settles_everywhere)

agree_everywhere : every_status agree 0xffff ≡ true
unfolding every_status agree commit_status commit_updated_status discard_status
agree_everywhere = refl

agree_parts :
    (a b c : ℕ)
    → (a == b && (c == b && bit_and a pending_bits == 0)) ≡ true
    → (a ≡ b) × (c ≡ b) × (bit_and a pending_bits ≡ 0)
agree_parts a b c h = ground arith

-- For every UWORD, the three ways in which a commit turns the pending bits of a row into final ones
-- agree: the tests of `CommitAdded` and `CommitDeleted`, those of `CommitUpdated`, and the shift of
-- `DiscardRollback`. No pending bit is left.
pub commit_status-agree :
    (status : ℕ)
    → status < 2 ^ 16
    → (commit_status status ≡ discard_status status)
      × (commit_updated_status status ≡ discard_status status)
      × (bit_and (commit_status status) pending_bits ≡ 0)
unfolding agree
commit_status-agree s h =
    agree_parts (commit_status s) (discard_status s) (commit_updated_status s)
      (every_status-status agree 0xffff s (omega arith) agree_everywhere)

abbrev pub commit_key : (ℕ → ℕ) → KeySet → KeySet
commit_key f k = record k { status = f k.status }

abbrev pub commit_entry : (ℕ → ℕ) → Entry → Entry
commit_entry f e = record e { key = commit_key f e.key }

unfoldable pub commit_added : QResult → QResult
commit_added res = record res { added_keyset = map (commit_key commit_status) res.added_keyset }

unfoldable pub commit_deleted : QResult → QResult
commit_deleted res = elim res.deleted [
  | none ↦ res
  | some es ↦ record res { deleted = some (map (commit_entry commit_status) es) }
]

unfoldable pub commit_updated : QResult → QResult
commit_updated res =
    if res.has_cursor
    then record res { updated = map (commit_entry commit_updated_status) res.updated }
    else res
