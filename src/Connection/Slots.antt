-- ===== src/Connection/Slots.antt =====
-- The statements of a connection: `CC_add_statement` and `CC_remove_statement` (connection.c).
pub mod Kept
use open_gauss_connector_odb.Base.{
  ℕ, zero, suc, ◌+◌, ◌-◌, ◌==◌, Bool, true, false, not, ◌&&◌, List, [], ◌∷◌, ◌++◌, Option, none,
  some, length, replicate, ltb, if◌then◌else◌,
}
use open_gauss_connector_odb.Base.Int.{ℤ, pos, to_i16, ltb_ℤ}

-- `stmts`, with as many slots as `num_stmts` says; a statement is a number, an empty slot is none.
abbrev pub Slots : Type 0
Slots = List (Option ℕ)

abbrev pub stmt_increment : ℕ
stmt_increment = 16

-- The first loop: the slots with the statement in the first empty one, if there is one.
unfoldable pub fill_slot : ℕ → Slots → Option Slots
fill_slot stmt [] = none
fill_slot stmt (none ∷ stmts) = some (some stmt ∷ stmts)
fill_slot stmt (some s ∷ stmts) = elim (fill_slot stmt stmts) [
  | none ↦ none
  | some rest ↦ some (some s ∷ rest)
]

-- `CC_add_statement`, where `realloc` gives memory or not: the slots, and the result; the statement
-- gets the connection where the result is true.
unfoldable pub cc_add_statement : Slots → ℕ → Bool → Slots × Bool
unfolding fill_slot
cc_add_statement stmts stmt realloc = elim (fill_slot stmt stmts) [
  | some filled ↦ (filled, true)
  | none ↦
      let new_num_stmts = to_i16 (pos (stmt_increment + length stmts)) in
      if ltb_ℤ (pos 0) new_num_stmts && realloc
      then (stmts ++ some stmt ∷ replicate (stmt_increment - 1) none, true)
      else (stmts, false)
]

-- Whether a slot holds the statement.
abbrev pub holds_stmt : ℕ → Option ℕ → Bool
holds_stmt stmt none = false
holds_stmt stmt (some s) = s == stmt

-- `CC_remove_statement`, of a statement that executes or not.
unfoldable pub cc_remove_statement : Slots → ℕ → Bool → Slots × Bool
cc_remove_statement [] stmt executing = ([], false)
cc_remove_statement (s ∷ stmts) stmt executing =
    let (rest, ret) = cc_remove_statement stmts stmt executing in
    if holds_stmt stmt s && not executing then (none ∷ stmts, true) else (s ∷ rest, ret)
