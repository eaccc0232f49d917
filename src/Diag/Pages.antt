-- ===== src/Diag/Pages.antt =====
-- The pieces that `ER_ReturnError` hands out make up the message.
use open_gauss_connector_odb.Base.{
  ◌⊎◌, inl, inr, ℕ, zero, suc, ◌+◌, ◌-◌, ◌*◌, ◌^◌, ◌<◌, ◌≤◌, ◌≡◌, refl, ap, ◌∙◌, Bool, true, List,
  [], ◌∷◌, ◌++◌, Option, none, some, length, take, drop, leb, leb→le, if◌then◌else◌, arith,
  Bool-cases, length-take, length-drop, take-append-drop, take-length-take, drop-drop,
}
use open_gauss_connector_odb.Base.Int.{ℤ, pos, negsuc, ltb_ℤ, to_i16-pos, mul_pos, sub_pos}
use open_gauss_connector_odb.Diag.{
  ErrorInfo, success, Diagnosis, fault, no_data_found, diagnosis, new_recsize, record_number, copy,
  written_length, answer, er_constructor, er_return_error,
}

module _ (error : ErrorInfo) (r : ℕ) where
  written_length_lem :
      (left : ℕ) (partial_ok : Bool)
      → written_length partial_ok
          (pos (suc r))
          (pos r)
          (pos left)
          (if ltb_ℤ (pos r) (pos left) then pos r else pos left)
        ≡ (if ltb_ℤ (pos r) (pos left) then pos r else pos left)
  unfolding written_length
  written_length_lem left partial_ok = ground (arith, sub_pos (suc r) 1)

  -- One piece: up to `r` bytes of the message from `start` on.
  abbrev piece : ℕ → List ℕ
  piece start = take r (drop start error.message)

  pcblen_lem :
      (start : ℕ)
      → (if ltb_ℤ (pos r) (pos (length error.message - start))
          then pos r
          else pos (length error.message - start))
        ≡ pos (length (piece start))
  pcblen_lem start =
      ground (arith, length-take r (drop start error.message), length-drop start error.message)

  copy-piece :
      (start : ℕ)
      → start ≤ length error.message
      → copy error.message (pos start) (pos (length (piece start))) ≡ some (piece start)
  unfolding copy
  copy-piece start h = ground (
    arith,
    take-length-take r (drop start error.message),
    length-take r (drop start error.message),
    length-drop start error.message,
  )

  answer-inside :
      (start : ℕ) (partial_ok : Bool)
      → length error.message < 2 ^ 15
      → start ≤ length error.message
      → answer error (pos r) (pos start) true (pos (suc r)) partial_ok
        ≡ diagnosis success (pos (length (piece start))) (some (piece start))
  unfolding answer
  answer-inside start partial_ok m s = ground (
    arith,
    to_i16-pos (length error.message) m,
    sub_pos (length error.message) start s,
    to_i16-pos (length error.message - start) (omega arith),
    written_length_lem (length error.message - start) partial_ok,
    pcblen_lem start,
    copy-piece start s,
  )

  -- A request behind the end of the message.
  answer-outside :
      (start : ℕ) (partial_ok : Bool)
      → length error.message < 2 ^ 15
      → length error.message < start
      → answer error (pos r) (pos start) true (pos (suc r)) partial_ok ≡ no_data_found
  unfolding answer
  answer-outside start partial_ok m s = ground (arith, to_i16-pos (length error.message) m)

-- The record as it is once a piece of `r` bytes has been asked for.
abbrev pub sized : ErrorInfo → ℕ → ErrorInfo
sized error r = record error { recsize = pos r }

-- The size of the pieces: the first request decides on it, or the one for record 1.
er_return_error-answer :
    (error : ErrorInfo) (k r : ℕ) (partial_ok : Bool)
    → suc k < 2 ^ 15
    → k * r < 2 ^ 15
    → r < 2 ^ 15
    → (error.recsize ≡ negsuc 0) ⊎ (error.recsize ≡ pos r)
    → er_return_error (some error) (pos (suc k)) true (pos (suc r)) partial_ok
      ≡ (some (sized error r), answer error (pos r) (pos (k * r)) true (pos (suc r)) partial_ok)
unfolding er_return_error new_recsize record_number
er_return_error-answer error k r partial_ok number h small fresh = ground (
  arith,
  sub_pos (suc r) 1,
  to_i16-pos (suc k) number,
  to_i16-pos r small,
  sub_pos (suc k) 1,
  mul_pos k r,
  to_i16-pos (k * r) h,
)

-- A piece, and what is fetched behind it; `none` if a call fails or gives no text.
abbrev collect : Diagnosis → Option (List ℕ) → Option (List ℕ)
collect fault rest = none
collect no_data_found rest = some []
collect (diagnosis ret pcb none) rest = none
collect (diagnosis ret pcb (some bytes)) none = none
collect (diagnosis ret pcb (some bytes)) (some more) = some (bytes ++ more)

-- Records `k + 1`, `k + 2`, … are fetched into a buffer of `max` bytes until there is no more.
unfoldable pub fetch_all : ℕ → ErrorInfo → ℕ → ℕ → Bool → Option (List ℕ)
fetch_all zero error k max partial_ok = none
fetch_all (suc fuel) error k max partial_ok =
    let result = er_return_error (some error) (pos (suc k)) true (pos max) partial_ok in
    elim (result.0) [
      | none ↦ none
      | some error' ↦ collect result.1 (fetch_all fuel error' (suc k) max partial_ok)
    ]

drop-piece :
    (k r : ℕ) (msg : List ℕ) → take r (drop (k * r) msg) ++ drop (suc k * r) msg ≡ drop (k * r) msg
drop-piece k r msg =
    let next : suc k * r ≡ k * r + r = omega arith in
    rw (next, ← drop-drop r (k * r) msg) (take-append-drop r (drop (k * r) msg))

drop-all : {A : Type 0} (n : ℕ) (xs : List A) → length xs ≤ n → drop n xs ≡ []
drop-all zero [] h = refl
drop-all zero (x ∷ xs) h = absurd (omega arith)
drop-all (suc n) [] h = refl
drop-all (suc n) (x ∷ xs) h = drop-all n xs (omega arith)

module _ (r : ℕ) (partial_ok : Bool) where
  fetch_all-inside :
      (fuel : ℕ) (error : ErrorInfo) (k : ℕ)
      → suc k < 2 ^ 15
      → k * r ≤ length error.message
      → length error.message < 2 ^ 15
      → r < 2 ^ 15
      → (error.recsize ≡ negsuc 0) ⊎ (error.recsize ≡ pos r)
      → fetch_all fuel (sized error r) (suc k) (suc r) partial_ok
        ≡ some (drop (suc k * r) error.message)
      → fetch_all (suc fuel) error k (suc r) partial_ok ≡ some (drop (k * r) error.message)
  unfolding fetch_all
  fetch_all-inside fuel error k number h m small fresh rest = ground (
    arith,
    er_return_error-answer error k r partial_ok number (omega arith) small fresh,
    answer-inside error r (k * r) partial_ok m h,
    rest,
    drop-piece k r error.message,
  )

  fetch_all-outside :
      (fuel : ℕ) (error : ErrorInfo) (k : ℕ)
      → suc k < 2 ^ 15
      → length error.message < k * r
      → length error.message < 2 ^ 15
      → k * r < 2 ^ 15
      → r < 2 ^ 15
      → (error.recsize ≡ negsuc 0) ⊎ (error.recsize ≡ pos r)
      → fetch_all (suc fuel) error k (suc r) partial_ok ≡ some (drop (k * r) error.message)
  unfolding fetch_all
  fetch_all-outside fuel error k number h m small small' fresh = ground (
    arith,
    er_return_error-answer error k r partial_ok number small small' fresh,
    answer-outside error r (k * r) partial_ok m h,
    drop-all (k * r) error.message (omega arith),
  )

  -- No more records than bytes, and one.
  suc_le : (k n : ℕ) → 1 ≤ r → k * r ≤ n + r → suc k ≤ n + 2
  suc_le zero n one h = omega arith
  suc_le (suc k) n one h =
      let inside : k * r ≤ n = omega arith in omega (arith, le_times k n one inside)
    where
      le_times : (k n : ℕ) → 1 ≤ r → k * r ≤ n → k ≤ n
      le_times k n one h = grind arith

  fetch_all-from :
      (fuel : ℕ) (error : ErrorInfo) (k : ℕ)
      → 1 ≤ r
      → k * r ≤ length error.message + r
      → length error.message + r < (k + fuel) * r
      → length error.message + r + 1 < 2 ^ 15
      → (error.recsize ≡ negsuc 0) ⊎ (error.recsize ≡ pos r)
      → fetch_all fuel error k (suc r) partial_ok ≡ some (drop (k * r) error.message)
  fetch_all-from zero error k one h f m fresh = absurd (grind arith)
  fetch_all-from (suc fuel) error k one h f m fresh =
      let number : suc k < 2 ^ 15 = omega (arith, suc_le k (length error.message) one h) in
      elim (Bool-cases (leb (k * r) (length error.message))) [
        | inl inside ↦
            let le = leb→le _ _ inside in
            fetch_all-inside fuel error k number le (omega arith) (omega arith) fresh (
              fetch_all-from fuel (sized error r) (suc k) one (omega arith) (omega arith) m
                (inr refl))
        | inr outside ↦
            fetch_all-outside fuel error k number (ground arith) (omega arith) (omega arith)
              (omega arith) fresh
      ]

er_constructor-fresh :
    (errnumber : ℤ) (msg : List ℕ) {error : ErrorInfo}
    → er_constructor errnumber msg ≡ some error
    → (error.recsize ≡ negsuc 0) × (error.message ≡ msg)
unfolding er_constructor
er_constructor-fresh errnumber msg e = ground arith

-- The records of an error that `ER_Constructor` has made, fetched one after the other into a buffer
-- of `r + 1` bytes, r from 1 on, make up its message, where `length msg + r + 1` is below 2 ^ 15, so
-- that neither a position nor a record number leaves the 16 bits of its type: no call fails, and
-- `length msg + 2` calls are enough to see the end.
pub fetch_all-er_constructor :
    (errnumber : ℤ) (msg : List ℕ) (error : ErrorInfo) (r : ℕ) (partial_ok : Bool)
    → er_constructor errnumber msg ≡ some error
    → 1 ≤ r
    → length msg + r + 1 < 2 ^ 15
    → fetch_all (length msg + 2) error 0 (suc r) partial_ok ≡ some msg
fetch_all-er_constructor errnumber msg error r partial_ok e one m =
    let (fresh, same) = er_constructor-fresh errnumber msg e in
    let start : 0 * r ≡ 0 = omega arith in
    (rw start at (
      fetch_all-from r partial_ok (length msg + 2) error 0 one (omega arith)
        (rw same (enough (length msg) r one)) (rw same m) (inl fresh)))
    ∙ ap some same
  where
    enough : (n r : ℕ) → 1 ≤ r → n + r < (0 + (n + 2)) * r
    enough n r one = grind arith
