-- ===== src/Unicode/RoundTrip4.antt =====
-- `utf8_to_ucs4_lf` reads back what `ucs4_to_utf8` has made.
use open_gauss_connector_odb.Base.{
  ℕ, zero, suc, ◌+◌, ◌%◌, ◌^◌, ◌<◌, ◌≤◌, ◌≡◌, refl, sym, ap, ◌∙◌, inl, inr, Bool, false, List, [],
  ◌∷◌, ◌++◌, some, length, take, ltb, if◌then◌else◌, arith, ltb→lt, Bool-cases, length-append,
  take-length,
}
use open_gauss_connector_odb.Base.Int.{pos}
use open_gauss_connector_odb.Unicode.{code_bytes, bytes4, ucs4_loop, ucs4_to_utf8, converted}
use open_gauss_connector_odb.Unicode.Decode.{ucs4, done, decode, round, cleanup, utf8_to_wide_lf}
use open_gauss_connector_odb.Unicode.RoundTrip.{
  AreUnits, with_cr, with_cr-other, with_cr_plain, decode-code, decode-code_bytes, round-bytes4,
  length-code_bytes, in_int-eq,
}

module _ (tolower : ℕ → ℕ) (lfconv errcheck : Bool) where
  decode-bytes4 :
      (fuel prev w : ℕ) (bs junk ws : List ℕ)
      → 2 ^ 16 ≤ w
      → w < 2 ^ 21
      → ((last : ℕ)
          → decode ucs4 lfconv errcheck fuel last (length bs) (bs ++ junk)
            ≡ done (with_cr lfconv last ws))
      → decode ucs4 lfconv errcheck
          (suc fuel)
          prev
          (length (bytes4 w ++ bs))
          (bytes4 w ++ bs ++ junk)
        ≡ done (with_cr lfconv prev (w ∷ ws))
  unfolding bytes4
  decode-bytes4 fuel prev w bs junk ws h k d =
      let last = 0x80 + w % 64 in
      decode-code ucs4 lfconv errcheck fuel prev (suc (suc (suc (suc (length bs))))) (length bs)
        (bytes4 w ++ bs ++ junk) (w ∷ []) 4 last
        (round-bytes4 lfconv errcheck w prev (length bs) (bs ++ junk) h k) (omega arith)
        (d last ∙ ap done (with_cr-other lfconv last w ws (ground arith)))
      ∙ ap done (sym (with_cr_plain lfconv prev w ws (omega arith)))

  ucs4_loop-low :
      (w : ℕ) (ws : List ℕ)
      → 0 < w
      → w < 2 ^ 16
      → ucs4_loop tolower false (w ∷ ws) ≡ code_bytes tolower false w ++ ucs4_loop tolower false ws
  unfolding ucs4_loop
  ucs4_loop-low w ws h k = ground arith

  ucs4_loop-high :
      (w : ℕ) (ws : List ℕ)
      → 2 ^ 16 ≤ w
      → ucs4_loop tolower false (w ∷ ws) ≡ bytes4 w ++ ucs4_loop tolower false ws
  unfolding ucs4_loop
  ucs4_loop-high w ws h = ground arith

  ucs4_loop_pos :
      (w : ℕ) (ws : List ℕ)
      → 0 < w
      → suc (length (ucs4_loop tolower false ws)) ≤ length (ucs4_loop tolower false (w ∷ ws))
  unfolding bytes4
  ucs4_loop_pos w ws h = elim (Bool-cases (ltb w (2 ^ 16))) [
    | inl low ↦ rw (ucs4_loop-low w ws h (ltb→lt _ _ low)) (
        omega (
          arith,
          length-append (code_bytes tolower false w) (ucs4_loop tolower false ws),
          length-code_bytes tolower w,
        ))
    | inr high ↦ rw (ucs4_loop-high w ws (ground arith)) (omega arith)
  ]

  decode-ucs4_loop :
      (ws : List ℕ) (fuel prev : ℕ) (junk : List ℕ)
      → AreUnits (2 ^ 21) ws
      → length (ucs4_loop tolower false ws) ≤ fuel
      → decode ucs4 lfconv errcheck fuel prev
          (length (ucs4_loop tolower false ws))
          (ucs4_loop tolower false ws ++ junk)
        ≡ done (with_cr lfconv prev ws)
  unfolding ucs4_loop decode round
  decode-ucs4_loop [] zero prev junk u f = refl
  decode-ucs4_loop [] (suc fuel) prev junk u f = refl
  decode-ucs4_loop (w ∷ ws) zero prev junk (h, k, u) f =
      absurd (omega (arith, ucs4_loop_pos w ws h))
  decode-ucs4_loop (w ∷ ws) (suc fuel) prev junk (h, k, u) f =
      let bs = ucs4_loop tolower false ws in
      let fits : length bs ≤ fuel = omega (arith, ucs4_loop_pos w ws h) in
      let rest = λ (last : ℕ). decode-ucs4_loop ws fuel last junk u fits in
      elim (Bool-cases (ltb w (2 ^ 16))) [
        | inl low ↦
            let lt = ltb→lt w (2 ^ 16) low in
            rw (ucs4_loop-low w ws h lt)
              (decode-code_bytes ucs4 lfconv errcheck fuel prev w tolower bs junk ws h lt rest)
        | inr high ↦
            rw (ucs4_loop-high w ws (ground arith))
              (decode-bytes4 fuel prev w bs junk ws (ground arith) k rest)
      ]

converted_eq :
    {xs bs : List ℕ} {m olen : ℕ} → converted xs m ≡ converted bs olen → (xs ≡ bs) × (m ≡ olen)
converted_eq e = ground arith

-- A string of UInt4s of at most 21 bits that `ucs4_to_utf8` converts without lowering it reads back
-- by `utf8_to_ucs4_lf`, checked or not, with the carriage returns that line feed conversion asks
-- for: the whole with a terminating null where the buffer has room, else as many units as fit. The
-- full length is returned in both cases.
utf8_to_wide_lf-ucs4_to_utf8 :
    (tolower : ℕ → ℕ) (ws bs : List ℕ) (olen bufcount : ℕ) (lfconv errcheck : Bool)
    → AreUnits (2 ^ 21) ws
    → ucs4_to_utf8 tolower (some ws) (pos (length ws)) false ≡ converted bs olen
    → utf8_to_wide_lf ucs4 (some (bs ++ 0 ∷ [])) (pos olen) lfconv bufcount errcheck
      ≡ some (record {
        rtn = length (with_cr lfconv 0 ws);
        buffer =
            if ltb (length (with_cr lfconv 0 ws)) bufcount
            then with_cr lfconv 0 ws ++ 0 ∷ []
            else take bufcount (with_cr lfconv 0 ws);
      })
unfolding ucs4_to_utf8 utf8_to_wide_lf cleanup
utf8_to_wide_lf-ucs4_to_utf8 tolower ws bs olen bufcount lfconv errcheck u e =
    let bytes = ucs4_loop tolower false (take (length ws) ws) in
    let (same, len) =
      converted_eq {xs = bytes} {m = length bytes}
        (in_int-eq (length bytes) (converted bytes (length bytes)) e) in
    let made = rw (take-length ws) at same in
    let read =
      decode-ucs4_loop tolower lfconv errcheck ws (length (ucs4_loop tolower false ws)) 0 (0 ∷ []) u
        (omega arith) in
    rw (← len, ← made, take-length ws, read)
