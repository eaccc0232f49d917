-- ===== src/Unicode/Wide.antt =====
-- The conversions between UTF-32 and UTF-16 (`ucs4_to_ucs2_lf` and `ucs2_to_ucs4`, win_unicode.c). The
-- source takes the bytes of a little-endian machine apart; here they are digits of the number.
use open_gauss_connector_odb.Base.{
  ℕ, zero, suc, ◌+◌, ◌-◌, ◌*◌, ◌/◌, ◌%◌, ◌^◌, ◌<◌, ◌≤◌, ◌≡◌, ◌≢◌, refl, ap, ◌∙◌, inl, inr, ◌==◌,
  Bool, true, false, not, ◌&&◌, List, [], ◌∷◌, ◌++◌, Option, none, some, length, take, ltb,
  if◌then◌else◌, arith, ltb→lt, Bool-cases, take-length,
}
use mathlib.Core.List.{append_assoc}
use open_gauss_connector_odb.Base.Int.{ℤ, pos, negsuc}
use open_gauss_connector_odb.Unicode.{before_null, is_surrog1}
use open_gauss_connector_odb.Unicode.Decode.{line_feed, carriage_return}
use open_gauss_connector_odb.Unicode.RoundTrip.{with_cr}

-- Byte `i` of an integer, and a SQLWCHAR of two bytes.
abbrev byte : ℕ → ℕ → ℕ
byte i w = w / 256 ^ i % 256

abbrev wchar : ℕ → ℕ → ℕ
wchar low high = low + high * 256

-- The two units of a code above 0xffff, `sqlwdt[1]--` being the subtraction of 2 ^ 16.
unfoldable pub surrogates_of : ℕ → List ℕ
surrogates_of w =
    let c = w - 2 ^ 16 in
    wchar (byte 1 c / 4 + byte 2 c % 4 * 64) (0xd8 + byte 2 c / 4 % 4)
    ∷ wchar (byte 0 c) (0xdc + byte 1 c % 4)
    ∷ []

-- The loop of `ucs4_to_ucs2_lf`: what it would write into a buffer without end. `prev` is the low
-- byte of the code before, 0 at the start.
unfoldable pub ucs4_to_ucs2_loop : Bool → ℕ → List ℕ → List ℕ
ucs4_to_ucs2_loop lfconv prev [] = []
ucs4_to_ucs2_loop lfconv prev (w ∷ ws) =
    let rest = ucs4_to_ucs2_loop lfconv (byte 0 w) ws in
    if w == 0
    then []
    else if w / 2 ^ 16 == 0
    then (if lfconv && byte 0 w == line_feed && not (prev == carriage_return)
        then carriage_return ∷ w ∷ rest
        else w ∷ rest)
    else surrogates_of w ++ rest

-- The code of a first half `w` and the unit `v` behind it.
unfoldable pub code_of : ℕ → ℕ → ℕ
code_of w v =
    byte 0 v
    + (byte 1 v % 4 + byte 0 w % 64 * 4) * 2 ^ 8
    + (byte 0 w / 64 + byte 1 w % 4 * 4 + 1) * 2 ^ 16

abbrev push : ℕ → Option (List ℕ) → Option (List ℕ)
push w rest = elim rest [ none ↦ none | some ws ↦ some (w ∷ ws) ]

-- The loop of `ucs2_to_ucs4` over the memory, with `left` units before `ilen`. A first half takes the
-- unit behind it for the second without looking at it, also behind `ilen`; `none` stands for a read
-- behind the memory.
unfoldable pub ucs2_to_ucs4_loop : ℕ → List ℕ → Option (List ℕ)
ucs2_to_ucs4_loop zero mem = some []
ucs2_to_ucs4_loop (suc left) [] = none
ucs2_to_ucs4_loop (suc left) (w ∷ []) =
    let rest = ucs2_to_ucs4_loop left [] in
    if w == 0 then some [] else if is_surrog1 w then none else push w rest
ucs2_to_ucs4_loop (suc left) (w ∷ v ∷ mem) =
    let behind_one = ucs2_to_ucs4_loop left (v ∷ mem) in
    let behind_two = ucs2_to_ucs4_loop (left - 1) mem in
    if w == 0
    then some []
    else if is_surrog1 w
    then push (code_of w v) behind_two
    else push w behind_one

-- The units written into a buffer of `bufcount` units.
abbrev pub fill : ℕ → List ℕ → List ℕ
fill bufcount out = if ltb (length out) bufcount then out ++ 0 ∷ [] else take bufcount out

-- `ucs4_to_ucs2_lf` of a string with at least `ilen` units: the number returned and the buffer. A
-- negative `ilen` stands for a terminated string.
unfoldable pub ucs4_to_ucs2_lf : List ℕ → ℤ → ℕ → Bool → ℕ × List ℕ
ucs4_to_ucs2_lf str (pos n) bufcount lfconv =
    let out = ucs4_to_ucs2_loop lfconv 0 (take n str) in (length out, fill bufcount out)
ucs4_to_ucs2_lf str (negsuc _) bufcount lfconv =
    let out = ucs4_to_ucs2_loop lfconv 0 (before_null str) in (length out, fill bufcount out)

abbrev filled : ℕ → Option (List ℕ) → Option (ℕ × List ℕ)
filled bufcount none = none
filled bufcount (some out) = some (length out, fill bufcount out)

-- `ucs2_to_ucs4`, of the memory at `ucs2str`
unfoldable pub ucs2_to_ucs4 : List ℕ → ℤ → ℕ → Option (ℕ × List ℕ)
ucs2_to_ucs4 mem (pos n) bufcount = filled bufcount (ucs2_to_ucs4_loop n mem)
ucs2_to_ucs4 mem (negsuc _) bufcount =
    filled bufcount (ucs2_to_ucs4_loop (length (before_null mem)) mem)

-- Codes that are no first half of a pair, up to the last that a pair stands for.
abbrev pub AreCodes : List ℕ → Type 0
AreCodes [] = Unit
AreCodes (w ∷ ws) = (0 < w) × (w < 0x110000) × (is_surrog1 w ≡ false) × AreCodes ws

ucs2_to_ucs4_loop-single :
    (left w : ℕ) (rest : List ℕ)
    → 0 < w
    → is_surrog1 w ≡ false
    → ucs2_to_ucs4_loop (suc left) (w ∷ rest) ≡ push w (ucs2_to_ucs4_loop left rest)
unfolding ucs2_to_ucs4_loop
ucs2_to_ucs4_loop-single left w [] h s = ground arith
ucs2_to_ucs4_loop-single left w (v ∷ rest) h s = ground arith

ucs2_to_ucs4_loop-pair :
    (left w v : ℕ) (rest : List ℕ)
    → (w == 0) ≡ false
    → is_surrog1 w ≡ true
    → ucs2_to_ucs4_loop (suc (suc left)) (w ∷ v ∷ rest)
      ≡ push (code_of w v) (ucs2_to_ucs4_loop left rest)
unfolding ucs2_to_ucs4_loop
ucs2_to_ucs4_loop-pair left w v rest z s =
    let back : suc left - 1 ≡ left = omega arith in
    rw (z, s) (ap (λ n. push (code_of w v) (ucs2_to_ucs4_loop n rest)) back)

abbrev first_half : ℕ → ℕ
first_half w =
    let c = w - 2 ^ 16 in wchar (byte 1 c / 4 + byte 2 c % 4 * 64) (0xd8 + byte 2 c / 4 % 4)

abbrev second_half : ℕ → ℕ
second_half w = let c = w - 2 ^ 16 in wchar (byte 0 c) (0xdc + byte 1 c % 4)

code_of-halves : (w : ℕ) → 2 ^ 16 ≤ w → w < 0x110000 → code_of (first_half w) (second_half w) ≡ w
unfolding code_of
code_of-halves w h k = omega arith

ucs2_to_ucs4_loop-surrogates_of :
    (left w : ℕ) (rest : List ℕ)
    → 2 ^ 16 ≤ w
    → w < 0x110000
    → ucs2_to_ucs4_loop (suc (suc left)) (surrogates_of w ++ rest)
      ≡ push w (ucs2_to_ucs4_loop left rest)
unfolding surrogates_of
ucs2_to_ucs4_loop-surrogates_of left w rest h k =
    ucs2_to_ucs4_loop-pair left (first_half w) (second_half w) rest (ground arith) (ground arith)
    ∙ ap (λ c. push c (ucs2_to_ucs4_loop left rest)) (code_of-halves w h k)

ucs4_to_ucs2_loop-low :
    (prev w : ℕ) (ws : List ℕ)
    → 0 < w
    → w < 2 ^ 16
    → ucs4_to_ucs2_loop false prev (w ∷ ws) ≡ w ∷ ucs4_to_ucs2_loop false (byte 0 w) ws
unfolding ucs4_to_ucs2_loop
ucs4_to_ucs2_loop-low prev w ws h k = ground arith

ucs4_to_ucs2_loop-high :
    (prev w : ℕ) (ws : List ℕ)
    → 2 ^ 16 ≤ w
    → ucs4_to_ucs2_loop false prev (w ∷ ws)
      ≡ surrogates_of w ++ ucs4_to_ucs2_loop false (byte 0 w) ws
unfolding ucs4_to_ucs2_loop
ucs4_to_ucs2_loop-high prev w ws h = ground arith

length-surrogates_of :
    (w : ℕ) (rest : List ℕ) → length (surrogates_of w ++ rest) ≡ suc (suc (length rest))
unfolding surrogates_of
length-surrogates_of w rest = refl

loops_undo :
    (ws : List ℕ) (prev : ℕ) (junk : List ℕ)
    → AreCodes ws
    → ucs2_to_ucs4_loop
        (length (ucs4_to_ucs2_loop false prev ws))
        (ucs4_to_ucs2_loop false prev ws ++ junk)
      ≡ some ws
unfolding ucs4_to_ucs2_loop ucs2_to_ucs4_loop
loops_undo [] prev junk c = refl
loops_undo (w ∷ ws) prev junk (h, k, s, c) =
    let rest = ucs4_to_ucs2_loop false (byte 0 w) ws in
    elim (Bool-cases (ltb w (2 ^ 16))) [
      | inl low ↦ rw (
        ucs4_to_ucs2_loop-low prev w ws h (ltb→lt _ _ low),
        ucs2_to_ucs4_loop-single (length rest) w (rest ++ junk) h s,
        loops_undo ws (byte 0 w) junk c,
      )
      | inr high ↦ rw (
        ucs4_to_ucs2_loop-high prev w ws (ground arith),
        length-surrogates_of w rest,
        append_assoc (surrogates_of w) rest junk,
        ucs2_to_ucs4_loop-surrogates_of (length rest) w (rest ++ junk) (ground arith) k,
        loops_undo ws (byte 0 w) junk c,
      )
    ]

fill-room :
    (out : List ℕ) (bufcount : ℕ) → length out < bufcount → fill bufcount out ≡ out ++ 0 ∷ []
fill-room out bufcount h = ground arith

pair_eq : {m n : ℕ} {xs ys : List ℕ} → ◌≡◌ {A = ℕ × List ℕ} (m, xs) (n, ys) → (m ≡ n) × (xs ≡ ys)
pair_eq e = (ap (λ p. p.0) e, ap (λ p. p.1) e)

-- UTF-32 that is turned into UTF-16 without line feed conversion comes back: for codes that are no
-- first half of a pair, and buffers with room for them, `ucs2_to_ucs4` of what `ucs4_to_ucs2_lf` has
-- written gives the same codes and their number.
pub ucs2_to_ucs4-ucs4_to_ucs2_lf :
    (ws : List ℕ) (bufcount bufcount' n : ℕ) (out : List ℕ)
    → AreCodes ws
    → ucs4_to_ucs2_lf ws (pos (length ws)) bufcount false ≡ (n, out)
    → n < bufcount
    → length ws < bufcount'
    → ucs2_to_ucs4 out (pos n) bufcount' ≡ some (length ws, ws ++ 0 ∷ [])
unfolding ucs4_to_ucs2_lf ucs2_to_ucs4
ucs2_to_ucs4-ucs4_to_ucs2_lf ws bufcount bufcount' n out c e room room' =
    let (len, written) = pair_eq (rw (take-length ws) at e) in
    let body = ucs4_to_ucs2_loop false 0 ws in
    let fits : fill bufcount body ≡ body ++ 0 ∷ [] = fill-room body bufcount (rw len room) in
    rw (← written, fits, ← len, loops_undo ws 0 (0 ∷ []) c)
      (ap (λ x. some (length ws, x)) (fill-room ws bufcount' room'))

-- Line feed conversion in `ucs4_to_ucs2_lf` looks at the low byte only: a code of another character
-- whose low byte is that of a line feed gets a carriage return before it.
ucs4_to_ucs2_lf-line_feed :
    (w bufcount : ℕ)
    → w < 2 ^ 16
    → w % 256 ≡ line_feed
    → w ≢ line_feed
    → 2 < bufcount
    → ucs4_to_ucs2_lf (w ∷ []) (pos 1) bufcount true
      ≢ (length (with_cr true 0 (w ∷ [])), fill bufcount (with_cr true 0 (w ∷ [])))
unfolding ucs4_to_ucs2_lf ucs4_to_ucs2_loop
ucs4_to_ucs2_lf-line_feed w bufcount h l ne room = ground arith
