-- ===== src/ConnTable.antt =====
-- The table of connections (environ.c): `conns` and `conns_count`, which all environments share under
-- one lock, and the error of an environment. A connection goes by a number that stands for its
-- address; of its structure the fields `henv` and `status` are kept.
pub mod Registered
pub mod Sweep
use open_gauss_connector_odb.Base.{
  ℕ, zero, suc, ◌+◌, ◌-◌, ◌*◌, ◌==◌, Bool, true, false, not, ◌&&◌, List, [], ◌∷◌, ◌++◌, Option,
  none, some, length, replicate, ltb, leb, if◌then◌else◌,
}

-- `conns` is null when the list is empty.
pub record Table : Type 0 where
  pub conns : List (Option ℕ)
  pub henv : ℕ → ℕ
  pub executing : ℕ → Bool  -- `status == CONN_EXECUTING`

abbrev pub init_conn_count : ℕ
init_conn_count = 128

-- The first loop: the slots with `conn` put into the first free one, if there is one.
unfoldable pub put_first : ℕ → List (Option ℕ) → Option (List (Option ℕ))
put_first conn [] = none
put_first conn (none ∷ slots) = some (some conn ∷ slots)
put_first conn (some c ∷ slots) = elim (put_first conn slots) [
  | none ↦ none
  | some slots' ↦ some (some c ∷ slots')
]

abbrev pub set_henv : (ℕ → ℕ) → ℕ → ℕ → ℕ → ℕ
set_henv henv conn self c = if c == conn then self else henv c

-- The table twice as large, or of its first size.
unfoldable pub enlarged : ℕ → List (Option ℕ) → List (Option ℕ)
enlarged conn slots =
    let count = length slots in
    let alloc = if ltb 0 count then 2 * count else init_conn_count in
    slots ++ some conn ∷ replicate (alloc - count - 1) none

-- `EN_add_connection`; the flag says whether the reallocation, if there is one, succeeds.
unfoldable pub en_add_connection : Bool → Table → ℕ → ℕ → Table × Bool
en_add_connection granted t self conn = elim (put_first conn t.conns) [
  | some slots ↦ (record t { conns = slots; henv = set_henv t.henv conn self }, true)
  | none ↦
      if granted
      then (record t { conns = enlarged conn t.conns; henv = set_henv t.henv conn self }, true)
      else (t, false)
]

unfoldable pub clear_first : (ℕ → Bool) → ℕ → List (Option ℕ) → Option (List (Option ℕ))
clear_first executing conn [] = none
clear_first executing conn (none ∷ slots) = elim (clear_first executing conn slots) [
  | none ↦ none
  | some slots' ↦ some (none ∷ slots')
]
clear_first executing conn (some c ∷ slots) =
    let rest = clear_first executing conn slots in
    if c == conn && not (executing c)
    then some (none ∷ slots)
    else elim rest [ none ↦ none | some slots' ↦ some (some c ∷ slots') ]

-- `EN_remove_connection`
unfoldable pub en_remove_connection : Table → ℕ → Table × Bool
en_remove_connection t conn = elim (clear_first t.executing conn t.conns) [
  | none ↦ (t, false)
  | some slots ↦ (record t { conns = slots }, true)
]

-- The loop of `EN_Destructor` over the table: the slots, `nullcnt` and `rv`. `destroy` is what
-- `CC_Destructor` returns for a connection.
unfoldable pub sweep : (ℕ → Bool) → (ℕ → ℕ) → ℕ → List (Option ℕ) → List (Option ℕ) × ℕ × Bool
sweep destroy henv self [] = ([], 0, true)
sweep destroy henv self (none ∷ slots) =
    let (slots', nullcnt, rv) = sweep destroy henv self slots in (none ∷ slots', nullcnt + 1, rv)
sweep destroy henv self (some c ∷ slots) =
    let (slots', nullcnt, rv) = sweep destroy henv self slots in
    if henv c == self
    then (if destroy c
        then (none ∷ slots', nullcnt + 1, rv)
        else (some c ∷ slots', nullcnt + 1, false))
    else (some c ∷ slots', nullcnt, rv)

-- `EN_Destructor` of an environment that is not null.
unfoldable pub en_destructor : (ℕ → Bool) → Table → ℕ → Table × Bool
en_destructor destroy t self =
    let (slots, nullcnt, rv) = sweep destroy t.henv self t.conns in
    (record t { conns = if leb (length t.conns) nullcnt then [] else slots }, rv)

-- The error of an environment: `errormsg`, if not null, and `errornumber`.
pub record EnvError : Type 0 where
  pub errormsg : Option (List ℕ)
  pub errornumber : ℕ

-- `EN_get_error`
unfoldable pub en_get_error : EnvError → EnvError × Option (ℕ × List ℕ)
en_get_error self = elim self.errormsg [
  | none ↦ (self, none)
  | some msg ↦
      if self.errornumber == 0
      then (self, none)
      else (record { errormsg = none; errornumber = 0 }, some (self.errornumber, msg))
]
