-- ===== src/Unicode/RoundTrip.antt =====
-- UTF-8 made from wide strings reads back: `utf8_to_ucs2_lf` after `ucs2_to_utf8`, and
-- `utf8_to_ucs4_lf` after `ucs4_to_utf8`.
use mathlib.Core.List.{append-nil}
use mathlib.Core.Path.{subst}
use open_gauss_connector_odb.Base.{
  ℕ, zero, suc, ◌+◌, ◌-◌, ◌/◌, ◌%◌, ◌^◌, ◌<◌, ◌≤◌, ◌≡◌, refl, sym, ap, ◌∙◌, ◌⊎◌, inl, inr, ◌==◌,
  Bool, false, not, ◌&&◌, List, [], ◌∷◌, ◌++◌, Option, none, some, length, take, drop, ltb,
  if◌then◌else◌, arith, ltb→lt, Bool-cases, length-append, take-length,
}
use open_gauss_connector_odb.Base.Int.{pos}
use open_gauss_connector_odb.Unicode.{
  code_bytes, bytes2, bytes3, bytes4, bytes_of_pair, ucs2_loop, prepend, converted_of, Converted,
  converted, in_int, ucs2_to_utf8,
}
use open_gauss_connector_odb.Unicode.Decode.{
  Width, ucs2, ucs4, code, round, line_feed, carriage_return, done, decode, units4, cleanup,
  utf8_to_wide_lf,
}

-- What line feed conversion makes of a string that stands behind the unit `prev`: a line feed gets a
-- carriage return before it, unless one is there.
abbrev pub with_cr : Bool → ℕ → List ℕ → List ℕ
with_cr lfconv prev [] = []
with_cr lfconv prev (w ∷ ws) =
    (if lfconv && w == line_feed && not (prev == carriage_return)
      then carriage_return ∷ w ∷ []
      else w ∷ [])
    ++ with_cr lfconv w ws

-- Only a carriage return before the string matters.
pub with_cr-other :
    (lfconv : Bool) (a b : ℕ) (ws : List ℕ)
    → (a == carriage_return) ≡ (b == carriage_return)
    → with_cr lfconv a ws ≡ with_cr lfconv b ws
with_cr-other lfconv a b [] h = refl
with_cr-other lfconv a b (w ∷ ws) h = rw h

pub with_cr_plain :
    (lfconv : Bool) (prev w : ℕ) (ws : List ℕ)
    → 0x80 ≤ w
    → with_cr lfconv prev (w ∷ ws) ≡ w ∷ with_cr lfconv w ws
with_cr_plain lfconv prev w ws h = ground arith

with_cr_off : (prev : ℕ) (ws : List ℕ) → with_cr false prev ws ≡ ws
with_cr_off prev [] = refl
with_cr_off prev (w ∷ ws) = ap (◌∷◌ w) (with_cr_off w ws)

module _ (width : Width) (lfconv errcheck : Bool) where
  -- One round over the bytes of a code, with `left` bytes behind it.
  round-ascii :
      (w prev left : ℕ) (mem : List ℕ)
      → 0 < w
      → w < 0x80
      → round width lfconv errcheck prev (suc left) (w ∷ mem)
        ≡ code
            (if lfconv && w == line_feed && not (prev == carriage_return)
              then carriage_return ∷ w ∷ []
              else w ∷ [])
            1
            w
  unfolding round
  round-ascii w prev left mem h k = ground arith

  round-bytes2 :
      (w prev left : ℕ) (mem : List ℕ)
      → 0x80 ≤ w
      → w < 0x800
      → round width lfconv errcheck prev (suc (suc left)) (bytes2 w ++ mem)
        ≡ code (w ∷ []) 2 (0x80 + w % 64)
  unfolding round bytes2
  round-bytes2 w prev left mem h k = ground arith

  round-bytes3 :
      (w prev left : ℕ) (mem : List ℕ)
      → 0x800 ≤ w
      → w < 2 ^ 16
      → round width lfconv errcheck prev (suc (suc (suc left))) (bytes3 w ++ mem)
        ≡ code (w ∷ []) 3 (0x80 + w % 64)
  unfolding round bytes3
  round-bytes3 w prev left mem h k = ground arith

module _ (lfconv errcheck : Bool) where
  round-bytes_of_pair :
      (w v prev left : ℕ) (mem : List ℕ)
      → w / 1024 ≡ 54
      → v / 1024 ≡ 55
      → round ucs2 lfconv errcheck prev (suc (suc (suc (suc left)))) (bytes_of_pair w v ++ mem)
        ≡ code (w ∷ v ∷ []) 4 (0x80 + v % 1024 % 64)
  unfolding round bytes_of_pair units4
  round-bytes_of_pair w v prev left mem h k = ground arith

  pub round-bytes4 :
      (w prev left : ℕ) (mem : List ℕ)
      → 2 ^ 16 ≤ w
      → w < 2 ^ 21
      → round ucs4 lfconv errcheck prev (suc (suc (suc (suc left)))) (bytes4 w ++ mem)
        ≡ code (w ∷ []) 4 (0x80 + w % 64)
  unfolding round bytes4 units4
  round-bytes4 w prev left mem h k = ground arith

-- The units of a string: none is the terminating null.
abbrev pub AreUnits : ℕ → List ℕ → Type 0
AreUnits bound [] = Unit
AreUnits bound (w ∷ ws) = (0 < w) × (w < bound) × AreUnits bound ws

module _ (width : Width) (lfconv errcheck : Bool) where
  -- One round, and the loop behind it.
  pub decode-code :
      (fuel prev left left' : ℕ) (mem us : List ℕ) (size last : ℕ) {ws : List ℕ}
      → round width lfconv errcheck prev left mem ≡ code us size last
      → left - size ≡ left'
      → decode width lfconv errcheck fuel last left' (drop size mem) ≡ done ws
      → decode width lfconv errcheck (suc fuel) prev left mem ≡ done (us ++ ws)
  unfolding decode
  decode-code fuel prev left left' mem us size last r e d = rw (r, decode) (rw (e, d))

  pub decode-code_bytes :
      (fuel prev w : ℕ) (tolower : ℕ → ℕ) (bs junk ws : List ℕ)
      → 0 < w
      → w < 2 ^ 16
      → ((last : ℕ)
          → decode width lfconv errcheck fuel last (length bs) (bs ++ junk)
            ≡ done (with_cr lfconv last ws))
      → decode width lfconv errcheck
          (suc fuel)
          prev
          (length (code_bytes tolower false w ++ bs))
          (code_bytes tolower false w ++ bs ++ junk)
        ≡ done (with_cr lfconv prev (w ∷ ws))
  unfolding code_bytes bytes2 bytes3
  decode-code_bytes fuel prev w tolower bs junk ws h k d = elim (Bool-cases (ltb w 0x80)) [
    | inl one ↦ rw one (
        decode-code fuel prev _ (length bs) (w ∷ bs ++ junk) _ 1 w
          (round-ascii width lfconv errcheck w prev (length bs) (bs ++ junk) h (ltb→lt _ _ one))
          (omega arith) (d w))
    | inr more ↦ elim (Bool-cases (ltb w 0x800)) [
      | inl two ↦
          rw (more, two)
            (decode-code fuel prev _ (length bs) (bytes2 w ++ bs ++ junk) (w ∷ []) 2 (0x80 + w % 64)
                (round-bytes2 width lfconv errcheck w prev (length bs) (bs ++ junk) (ground arith)
                  (ltb→lt _ _ two))
                (omega arith) (behind (0x80 + w % 64) more (ground arith))
              ∙ ap done (sym (with_cr_plain lfconv prev w ws (ground arith))))
      | inr three ↦
          rw (more, three)
            (decode-code fuel prev _ (length bs) (bytes3 w ++ bs ++ junk) (w ∷ []) 3 (0x80 + w % 64)
                (round-bytes3 width lfconv errcheck w prev (length bs) (bs ++ junk) (ground arith)
                  k)
                (omega arith) (behind (0x80 + w % 64) more (ground arith))
              ∙ ap done (sym (with_cr_plain lfconv prev w ws (ground arith))))
    ]
  ]
    where
      behind :
          (last : ℕ)
          → ltb w 0x80 ≡ false
          → 0x80 ≤ last
          → decode width lfconv errcheck fuel last (length bs) (bs ++ junk)
            ≡ done (with_cr lfconv w ws)
      behind last more high = d last ∙ ap done (with_cr-other lfconv last w ws (ground arith))

-- The bytes that `ucs2_to_utf8` makes of a string without lowering it, as a relation.
module _ (tolower : ℕ → ℕ) where
  pub data Encodes : List ℕ → List ℕ → Type 0 where
    end : Encodes [] []
    single :
        {w : ℕ} {ws bs : List ℕ}
        → 0 < w
        → w < 2 ^ 16
        → Encodes ws bs
        → Encodes (w ∷ ws) (code_bytes tolower false w ++ bs)
    pair :
        {w v : ℕ} {ws bs : List ℕ}
        → w / 1024 ≡ 54
        → v / 1024 ≡ 55
        → Encodes ws bs
        → Encodes (w ∷ v ∷ ws) (bytes_of_pair w v ++ bs)

  prepend-eq-some :
      (p : List ℕ) (o : Option (List ℕ)) {bs : List ℕ}
      → prepend p o ≡ some bs
      → (r : List ℕ) × (o ≡ some r) × (p ++ r ≡ bs)
  prepend-eq-some p none h = cc
  prepend-eq-some p (some r) h = (r, refl, cc)

  ucs2_loop-nil : {bs : List ℕ} → ucs2_loop tolower false [] ≡ some bs → [] ≡ bs
  unfolding ucs2_loop
  ucs2_loop-nil e = cc

  ucs2_loop-last :
      (w : ℕ) {bs : List ℕ}
      → 0 < w
      → ucs2_loop tolower false (w ∷ []) ≡ some bs
      → code_bytes tolower false w ≡ bs
  unfolding ucs2_loop
  ucs2_loop-last w h e = ground arith

  -- How the loop goes on at a unit that is not the last.
  ucs2_loop-more :
      (w v : ℕ) (ws : List ℕ) {bs : List ℕ}
      → 0 < w
      → ucs2_loop tolower false (w ∷ v ∷ ws) ≡ some bs
      → (prepend (code_bytes tolower false w) (ucs2_loop tolower false (v ∷ ws)) ≡ some bs)
        ⊎ ((w / 1024 ≡ 54)
            × (v / 1024 ≡ 55)
            × (prepend (bytes_of_pair w v) (ucs2_loop tolower false ws) ≡ some bs))
  unfolding ucs2_loop
  ucs2_loop-more w v ws h e = ground arith

  pub ucs2_loop-Encodes :
      (ws : List ℕ) {bs : List ℕ}
      → AreUnits (2 ^ 16) ws
      → ucs2_loop tolower false ws ≡ some bs
      → Encodes ws bs
  ucs2_loop-Encodes [] u e = subst (Encodes []) (ucs2_loop-nil e) end
  ucs2_loop-Encodes (w ∷ []) (h, k, u) e =
      subst (Encodes (w ∷ [])) (append-nil (code_bytes tolower false w) ∙ ucs2_loop-last w h e)
        (single h k end)
  ucs2_loop-Encodes (w ∷ v ∷ ws) (h, k, (h', k', u)) e = elim (ucs2_loop-more w v ws h e) [
    | inl one ↦
        let (r, e', p) = prepend-eq-some (code_bytes tolower false w) _ one in
        subst (Encodes (w ∷ v ∷ ws)) p (single h k (ucs2_loop-Encodes (v ∷ ws) (h', k', u) e'))
    | inr (a, b, two) ↦
        let (r, e', p) = prepend-eq-some (bytes_of_pair w v) _ two in
        subst (Encodes (w ∷ v ∷ ws)) p (pair a b (ucs2_loop-Encodes ws u e'))
  ]

  pub length-code_bytes : (w : ℕ) → 1 ≤ length (code_bytes tolower false w)
  unfolding code_bytes bytes2 bytes3
  length-code_bytes w = ground arith

  decode-Encodes :
      (lfconv errcheck : Bool) {ws bs : List ℕ}
      → Encodes ws bs
      → (fuel prev : ℕ) (junk : List ℕ) → length bs ≤ fuel
      → decode ucs2 lfconv errcheck fuel prev (length bs) (bs ++ junk)
        ≡ done (with_cr lfconv prev ws)
  unfolding decode round bytes_of_pair
  decode-Encodes lfconv errcheck end zero prev junk f = refl
  decode-Encodes lfconv errcheck end (suc fuel) prev junk f = refl
  decode-Encodes lfconv errcheck (single {w} {ws} {bs} h k r) zero prev junk f =
      absurd (omega (arith, length-append (code_bytes tolower false w) bs, length-code_bytes w))
  decode-Encodes lfconv errcheck (single {w} {ws} {bs} h k r) (suc fuel) prev junk f =
      decode-code_bytes ucs2 lfconv errcheck fuel prev w tolower bs junk ws h k (λ last.
        decode-Encodes lfconv errcheck r fuel last junk
          (omega (arith, length-append (code_bytes tolower false w) bs, length-code_bytes w)))
  decode-Encodes lfconv errcheck (pair {w} {v} {ws} {bs} a b r) zero prev junk f =
      absurd (omega arith)
  decode-Encodes lfconv errcheck (pair {w} {v} {ws} {bs} a b r) (suc fuel) prev junk f =
      let last = 0x80 + v % 1024 % 64 in
      decode-code ucs2 lfconv errcheck fuel prev (suc (suc (suc (suc (length bs))))) (length bs)
        (bytes_of_pair w v ++ bs ++ junk) (w ∷ v ∷ []) 4 last
        (round-bytes_of_pair lfconv errcheck w v prev (length bs) (bs ++ junk) a b) (omega arith)
        (decode-Encodes lfconv errcheck r fuel last junk (omega arith)
          ∙ ap done (with_cr-other lfconv last v ws (ground arith)))
      ∙ ap done (
          ap (λ x. w ∷ x) (sym (with_cr_plain lfconv w v ws (omega arith)))
          ∙ sym (with_cr_plain lfconv prev w (v ∷ ws) (omega arith)))

  pub converted_of-eq :
      (o : Option (List ℕ)) {bs : List ℕ} {olen : ℕ}
      → converted_of o ≡ converted bs olen
      → (o ≡ some bs) × (olen ≡ length bs)
  converted_of-eq none e = cc
  converted_of-eq (some r) e = ground arith

-- The case of a conversion whose `int`s keep their range.
pub in_int-eq :
    (len : ℕ) (outcome : Converted) {bs : List ℕ} {olen : ℕ}
    → in_int len outcome ≡ converted bs olen
    → outcome ≡ converted bs olen
in_int-eq len outcome e = ground arith

-- A string of SQLWCHARs that `ucs2_to_utf8` converts without lowering it reads back by
-- `utf8_to_ucs2_lf`, checked or not, as the same string, but for the carriage return that line feed
-- conversion, if asked for, puts before each line feed that has none. With room for it the buffer
-- gets all that and a terminating null; with less room it gets as many units as fit. The full
-- length is returned in both cases, also where less was copied.
pub utf8_to_wide_lf-ucs2_to_utf8 :
    (tolower : ℕ → ℕ) (ws bs : List ℕ) (olen bufcount : ℕ) (lfconv errcheck : Bool)
    → AreUnits (2 ^ 16) ws
    → ucs2_to_utf8 tolower (some ws) (pos (length ws)) false ≡ converted bs olen
    → utf8_to_wide_lf ucs2 (some (bs ++ 0 ∷ [])) (pos olen) lfconv bufcount errcheck
      ≡ some (record {
        rtn = length (with_cr lfconv 0 ws);
        buffer =
            if ltb (length (with_cr lfconv 0 ws)) bufcount
            then with_cr lfconv 0 ws ++ 0 ∷ []
            else take bufcount (with_cr lfconv 0 ws);
      })
unfolding ucs2_to_utf8 utf8_to_wide_lf cleanup
utf8_to_wide_lf-ucs2_to_utf8 tolower ws bs olen bufcount lfconv errcheck u e =
    let (made, len) =
      converted_of-eq tolower (ucs2_loop tolower false (take (length ws) ws)) (in_int-eq _ _ e) in
    let enc = ucs2_loop-Encodes tolower ws u (rw (take-length ws) at made) in
    rw (len, decode-Encodes tolower lfconv errcheck enc (length bs) 0 (0 ∷ []) (omega arith))
