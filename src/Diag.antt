-- ===== src/Diag.antt =====
-- Diagnostics (environ.c): error records, and `ER_ReturnError`, which hands a message out in pieces.
pub mod Pages
use open_gauss_connector_odb.Base.{
  ℕ, zero, suc, ◌+◌, ◌-◌, ◌/◌, ◌==◌, Bool, true, false, not, ◌&&◌, List, [], ◌∷◌, Option, none,
  some, length, take, drop, ltb, leb, if◌then◌else◌,
}
use open_gauss_connector_odb.Base.Int.{
  ℤ, pos, negsuc, ◌+ℤ◌, ◌-ℤ◌, ◌*ℤ◌, ltb_ℤ, leb_ℤ, eqb_ℤ, to_i16,
}

-- `PG_ErrorInfo` (psqlodbc.h), its message without the terminating null. The fields that
-- `ER_ReturnError` neither reads nor writes are left out.
pub record ErrorInfo : Type 0 where
  pub status : ℤ
  pub errorsize : ℤ  -- Int2
  pub recsize : ℤ  -- Int2
  pub errorpos : ℤ  -- Int2
  pub sqlstate : List ℕ
  pub message : List ℕ

-- `ER_Constructor`, for a message that is not null and memory granted; `DESC_OK` is 0.
unfoldable pub er_constructor : ℤ → List ℕ → Option ErrorInfo
er_constructor errnumber msg =
    if eqb_ℤ errnumber (pos 0)
    then none
    else some (record {
      status = errnumber;
      errorsize = to_i16 (pos (length msg));
      recsize = negsuc 0;
      errorpos = pos 0;
      sqlstate = [];
      message = msg;
    })

-- `ER_Dup`, with memory granted.
pub er_dup : Option ErrorInfo → Option ErrorInfo
er_dup none = none
er_dup (some self) = some self

pub data Ret : Type 0 where
  success success_with_info : Ret

-- What a call gives back: nothing more to read, or the return code, `*pcbErrorMsg`, and what is
-- written to `szErrorMsg`, if anything. `fault` stands for a division by zero or for a copy from
-- outside the message.
pub data Diagnosis : Type 0 where
  fault no_data_found : Diagnosis
  diagnosis : Ret → ℤ → Option (List ℕ) → Diagnosis

abbrev pub drvmngrdiv : ℕ
drvmngrdiv = 511

-- The quotient of C, rounded towards 0.
abbrev quot : ℤ → ℤ → Option ℤ
quot (pos a) (pos b) = if b == 0 then none else some (pos (a / b))
quot (pos a) (negsuc b) = some (pos 0 -ℤ pos (a / suc b))
quot (negsuc a) (pos b) = if b == 0 then none else some (pos 0 -ℤ pos (suc a / b))
quot (negsuc a) (negsuc b) = some (pos (suc a / suc b))

-- `recsize` after its first lines, which apply the size of the request.
unfoldable pub new_recsize : ErrorInfo → ℤ → ℤ → ℤ
new_recsize error rec_number max =
    if ltb_ℤ error.recsize (pos 0)
    then (if ltb_ℤ (pos 0) max then to_i16 (max -ℤ pos 1) else pos drvmngrdiv)
    else if eqb_ℤ rec_number (pos 1) && ltb_ℤ (pos 0) max
    then to_i16 (max -ℤ pos 1)
    else error.recsize

-- A negative record number stands for the next record.
unfoldable pub record_number : ErrorInfo → ℤ → ℤ → Option ℤ
record_number error recsize rec_number =
    if ltb_ℤ rec_number (pos 0)
    then (if eqb_ℤ error.errorpos (pos 0)
        then some (pos 1)
        else elim (quot (error.errorpos -ℤ pos 1) recsize) [
          | none ↦ none
          | some q ↦ some (to_i16 (pos 2 +ℤ q))
        ])
    else some rec_number

-- `memcpy` of `n` bytes from `start` on.
unfoldable pub copy : List ℕ → ℤ → ℤ → Option (List ℕ)
copy msg (pos start) (pos n) =
    if leb (start + n) (length msg) then some (take n (drop start msg)) else none
copy msg _ _ = none

-- `wrtlen` from what is left of the message.
unfoldable pub written_length : Bool → ℤ → ℤ → ℤ → ℤ → ℤ
written_length partial_ok max recsize left pcblen =
    let wrtlen =
      if eqb_ℤ max (pos 0)
      then pos 0
      else if leb_ℤ max left
      then (if partial_ok
          then max -ℤ pos 1
          else if leb_ℤ max recsize
          then max -ℤ pos 1
          else recsize)
      else left in
    if ltb_ℤ pcblen wrtlen then pcblen else wrtlen

-- The part behind the computation of `stapos`.
unfoldable pub answer : ErrorInfo → ℤ → ℤ → Bool → ℤ → Bool → Diagnosis
answer error recsize stapos has_buffer max partial_ok =
    let msglen = to_i16 (pos (length error.message)) in
    let left = to_i16 (msglen -ℤ stapos) in
    let pcblen = if ltb_ℤ recsize left then recsize else left in
    let wrtlen = written_length partial_ok max recsize left pcblen in
    let ret = if ltb_ℤ wrtlen pcblen then success_with_info else success in
    if ltb_ℤ msglen stapos
    then no_data_found
    else if has_buffer && ltb_ℤ (pos 0) max
    then elim (copy error.message stapos wrtlen) [
      | none ↦ fault
      | some bytes ↦ diagnosis ret pcblen (some bytes)
    ]
    else diagnosis ret pcblen none

-- `ER_ReturnError`: the record after the call, and what the call gives back. `RecNumber` is an
-- `SQLSMALLINT`, of 16 bits.
unfoldable pub er_return_error :
    Option ErrorInfo → ℤ → Bool → ℤ → Bool → Option ErrorInfo × Diagnosis
er_return_error none rec_number has_buffer max partial_ok = (none, no_data_found)
er_return_error (some error) rec_number has_buffer max partial_ok =
    let number = to_i16 rec_number in
    let recsize = new_recsize error number max in
    (
      some (record error { recsize = recsize }),
      elim (record_number error recsize number) [
        | none ↦ fault
        | some n ↦ answer error recsize (to_i16 ((n -ℤ pos 1) *ℤ recsize)) has_buffer max partial_ok
      ],
    )
