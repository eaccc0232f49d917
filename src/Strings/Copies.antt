-- ===== src/Strings/Copies.antt =====
-- Copies of strings: what is copied, and what is read.
use mathlib.Core.List.{append-nil}
use open_gauss_connector_odb.Base.{
  ℕ, zero, suc, ◌+◌, ◌-◌, ◌≤◌, ◌<◌, ◌≡◌, refl, sym, ap, ◌∙◌, inl, inr, ◌⊎◌, ◌==◌, Bool, false, List,
  [], ◌∷◌, ◌++◌, Option, none, some, length, take, replicate, ltb, leb, if◌then◌else◌, arith,
  Bool-cases,
}
use open_gauss_connector_odb.Base.Int.{pos}
use open_gauss_connector_odb.Encoding.Walk.{NonNull}
use open_gauss_connector_odb.Strings.{
  sql_nts, strlen, copy_loop, strncpy_null, made, Made, string_of, made_of, make_string, my_trim,
  cat_loop, strlcat,
}

strlen-terminated : (cs tail : List ℕ) → NonNull cs → strlen (cs ++ 0 ∷ tail) ≡ some (length cs)
unfolding strlen
strlen-terminated [] tail nn = refl
strlen-terminated (c ∷ cs) tail (p, nn) = rw (strlen-terminated cs tail nn) (ground arith)

-- The loop copies a string as far as there is room, and stops at the null or behind that.
copy_loop-take :
    (cs tail : List ℕ) (room : ℕ)
    → NonNull cs
    → (stop : ℕ) × (copy_loop (cs ++ 0 ∷ tail) room ≡ some (take room cs, stop))
      × ((stop ≡ 0) → length (take room cs) ≡ length cs)
unfolding copy_loop
copy_loop-take [] tail zero nn = (0, refl, λ e. refl)
copy_loop-take [] tail (suc room) nn = (0, refl, λ e. refl)
copy_loop-take (c ∷ cs) tail zero (p, nn) = (c, refl, λ e. absurd (omega arith))
copy_loop-take (c ∷ cs) tail (suc room) (p, nn) =
    let (stop, copied, whole) = copy_loop-take cs tail room nn in
    (stop, rw copied (ground arith), λ e. ap suc (whole e))

-- `strncpy_null` copies a string as far as there is room for it and a null, and gives its length,
-- also where it was cut.
strncpy_null-take :
    (cs tail : List ℕ) (room : ℕ)
    → NonNull cs
    → strncpy_null (cs ++ 0 ∷ tail) (suc room) ≡ some (take room cs, length cs)
unfolding strncpy_null
strncpy_null-take cs tail room nn =
    let (stop, copied, whole) = copy_loop-take cs tail room nn in
    elim (Bool-cases (stop == 0)) [
      | inl e ↦
          let n = whole (ground arith) in
          rw (strncpy_null, copied, e) (ap (λ k. some (take room cs, k)) n)
      | inr e ↦ rw (strncpy_null, copied, e, strlen-terminated cs tail nn) refl
    ]

-- The room that `make_string` leaves for the characters of a string of a given length.
abbrev pub room_of : Option ℕ → ℕ → ℕ
room_of none length = length
room_of (some bufsize) length = if ltb length bufsize then length else bufsize - 1

string_of-take :
    (cs tail : List ℕ) (len : ℕ)
    → NonNull cs
    → string_of (cs ++ 0 ∷ tail) len ≡ some (made (take (len - 1) cs))
unfolding string_of strncpy_null
string_of-take cs tail zero nn = refl
string_of-take cs tail (suc room) nn =
    let back : suc room - 1 ≡ room = omega arith in
    rw (string_of, strncpy_null-take cs tail room nn, back) refl

made_of-take :
    (cs tail : List ℕ) (buf : Option ℕ) (n : ℕ)
    → NonNull cs
    → made_of (cs ++ 0 ∷ tail) buf n ≡ some (made (take (room_of buf n) cs))
unfolding made_of
made_of-take cs tail none n nn =
    let back : suc n - 1 ≡ n = omega arith in string_of-take cs tail (suc n) nn ∙ rw back refl
made_of-take cs tail (some bufsize) n nn = elim (Bool-cases (ltb n bufsize)) [
  | inl e ↦
      let back : suc n - 1 ≡ n = omega arith in rw (e, string_of-take cs tail (suc n) nn, back) refl
  | inr e ↦ rw (e, string_of-take cs tail bufsize nn) refl
]

-- Of a string that a null ends, `make_string` takes the characters up to the given length, or all of
-- them where the length is SQL_NTS, and for a buffer of the caller as many as leave room for a null.
make_string-take :
    (cs tail : List ℕ) (buf : Option ℕ) (n : ℕ)
    → NonNull cs
    → (make_string (some (cs ++ 0 ∷ tail)) (pos n) buf ≡ some (made (take (room_of buf n) cs)))
      × (make_string (some (cs ++ 0 ∷ tail)) sql_nts buf
          ≡ some (made (take (room_of buf (length cs)) cs)))
unfolding make_string
make_string-take cs tail buf n nn = (
  made_of-take cs tail buf n nn,
  rw (make_string, strlen-terminated cs tail nn) (made_of-take cs tail buf (length cs) nn),
)

strlen-unterminated : (cs : List ℕ) → NonNull cs → strlen cs ≡ none
unfolding strlen
strlen-unterminated [] nn = refl
strlen-unterminated (c ∷ cs) (p, nn) = rw (strlen-unterminated cs nn) (ground arith)

-- The loop stops at no null where there is none.
copy_loop-stop :
    (cs : List ℕ) (room : ℕ)
    → NonNull cs
    → (copy_loop cs room ≡ none)
      ⊎ ((copied : List ℕ) × (stop : ℕ) × (copy_loop cs room ≡ some (copied, stop)) × (0 < stop))
unfolding copy_loop
copy_loop-stop [] room nn = inl refl
copy_loop-stop (c ∷ cs) zero (p, nn) = inr ([], c, refl, p)
copy_loop-stop (c ∷ cs) (suc room) (p, nn) =
    let nonzero : (c == 0) ≡ false = ground arith in
    elim (copy_loop-stop cs room nn) [
      | inl e ↦ inl (rw (nonzero, e) refl)
      | inr (copied, stop, e, q) ↦ inr (c ∷ copied, stop, rw (nonzero, e) refl, q)
    ]

strncpy_null-unterminated :
    (cs : List ℕ) (room : ℕ) → NonNull cs → strncpy_null cs (suc room) ≡ none
unfolding strncpy_null
strncpy_null-unterminated cs room nn = elim (copy_loop-stop cs room nn) [
  | inl e ↦ rw (strncpy_null, e) refl
  | inr (copied, stop, e, q) ↦
      let nonzero : (stop == 0) ≡ false = ground arith in
      rw (strncpy_null, e, nonzero, strlen-unterminated cs nn) refl
]

-- A read behind the memory, but for a buffer of no bytes, to which nothing is copied.
abbrev pub unterminated : Option ℕ → Option Made
unterminated none = none
unterminated (some zero) = some (made [])
unterminated (some (suc bufsize)) = none

empty_buffer : (cs : List ℕ) (n : ℕ) → made_of cs (some 0) n ≡ some (made [])
unfolding made_of string_of strncpy_null
empty_buffer cs n = ground arith

made_of-unterminated :
    (cs : List ℕ) (buf : Option ℕ) (n : ℕ) → NonNull cs → made_of cs buf n ≡ unterminated buf
unfolding made_of string_of
made_of-unterminated cs none n nn = rw (made_of, string_of, strncpy_null-unterminated cs n nn) refl
made_of-unterminated cs (some zero) n nn = empty_buffer cs n
made_of-unterminated cs (some (suc room)) n nn = elim (Bool-cases (ltb n (suc room))) [
  | inl e ↦ rw (made_of, e, string_of, strncpy_null-unterminated cs n nn) refl
  | inr e ↦ rw (made_of, e, string_of, strncpy_null-unterminated cs room nn) refl
]

-- Of memory without a null `make_string` reads behind the end, whatever the length that it is given,
-- also one within the memory, and for SQL_NTS. The one exception is a length with a buffer of the
-- caller that has no bytes: then nothing is read or copied.
pub make_string-unterminated :
    (cs : List ℕ) (n : ℕ) (buf : Option ℕ)
    → NonNull cs
    → (make_string (some cs) (pos n) buf ≡ unterminated buf)
      × (make_string (some cs) sql_nts buf ≡ none)
unfolding make_string
make_string-unterminated cs n buf nn =
    (made_of-unterminated cs buf n nn, rw (make_string, strlen-unterminated cs nn) refl)

abbrev pub ends_blank : List ℕ → Bool
ends_blank [] = false
ends_blank (c ∷ []) = c == b' '
ends_blank (c ∷ d ∷ s) = ends_blank (d ∷ s)

Trims : List ℕ → List ℕ → Type 0
Trims s trimmed = (n : ℕ) × (trimmed ++ replicate n b' ' ≡ s) × (ends_blank trimmed ≡ false)

Trims-step :
    (c : ℕ) (s trimmed : List ℕ)
    → Trims s trimmed
    → Trims (c ∷ s) (elim trimmed [ [] ↦ if c == b' ' then [] else c ∷ [] | d ∷ ds ↦ c ∷ d ∷ ds ])
unfolding Trims
Trims-step c s [] (n, whole, ends) = elim (Bool-cases (c == b' ')) [
  | inl e ↦
      let blank : c ≡ b' ' = ground arith in
      rw (e, sym blank) (suc n, rw (sym whole, sym blank) refl, refl)
  | inr e ↦ rw e (n, ap (◌∷◌ c) whole, e)
]
Trims-step c s (d ∷ ds) (n, whole, ends) = (n, ap (◌∷◌ c) whole, ends)

-- `my_trim` takes away blanks at the end, and leaves none there.
my_trim-blanks :
    (s : List ℕ) → (n : ℕ) × (my_trim s ++ replicate n b' ' ≡ s) × (ends_blank (my_trim s) ≡ false)
unfolding my_trim Trims
my_trim-blanks [] = (0, refl, refl)
my_trim-blanks (c ∷ s) = Trims-step c s (my_trim s) (my_trim-blanks s)

sub_none : (n : ℕ) → n - 0 ≡ n
sub_none n = omega arith

take-append-more :
    (n : ℕ) (xs ys : List ℕ) → length xs ≤ n → take n (xs ++ ys) ≡ xs ++ take (n - length xs) ys
take-append-more n [] ys h = rw (sub_none n) refl
take-append-more zero (x ∷ xs) ys h = absurd (omega arith)
take-append-more (suc n) (x ∷ xs) ys h =
    let same : suc n - suc (length xs) ≡ n - length xs = omega arith in
    rw (same, take-append-more n xs ys (omega arith)) refl

cat_loop-take : (src : List ℕ) (room : ℕ) → (cat_loop src room).0 ≡ take room src
unfolding cat_loop
cat_loop-take src zero = refl
cat_loop-take [] (suc room) = refl
cat_loop-take (c ∷ src) (suc room) = ap (◌∷◌ c) (cat_loop-take src room)

cat_loop-length :
    (src : List ℕ) (room : ℕ)
    → length ((cat_loop src room).0) + length ((cat_loop src room).1) ≡ length src
unfolding cat_loop
cat_loop-length src zero = omega arith
cat_loop-length [] (suc room) = omega arith
cat_loop-length (c ∷ src) (suc room) = omega (arith, cat_loop-length src room)

-- `strlcat` leaves as many characters of the two strings as there is room for, with a null behind
-- them, and gives the length of the whole.
strlcat-take :
    (dst src : List ℕ) (size : ℕ)
    → length dst < size
    → strlcat dst src size ≡ (take (size - 1) (dst ++ src), length dst + length src)
unfolding strlcat
strlcat-take dst src size h =
    let room = size - 1 - length dst in
    let whole = take-append-more (size - 1) dst src (omega arith) in
    elim (Bool-cases (leb (size - 1) (length dst))) [
      | inl e ↦
          let full : room ≡ 0 = ground arith in
          rw (e, whole, full) (ap (λ d. (d, length dst + length src)) (sym (append-nil dst)))
      | inr e ↦
          let sum : length dst + length ((cat_loop src room).0) + length ((cat_loop src room).1)
              ≡ length dst + length src =
            omega (arith, cat_loop-length src room) in
          rw (e, whole, sum)
            (ap (λ p. (dst ++ p, length dst + length src)) (cat_loop-take src room))
    ]
