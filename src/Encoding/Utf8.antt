-- ===== src/Encoding/Utf8.antt =====
-- The status of bytes in UTF-8.
use open_gauss_connector_odb.Base.{
  ℕ, suc, ◌+◌, ◌-◌, ◌*◌, ◌/◌, ◌%◌, ◌^◌, take, take-length, ◌<◌, ◌≤◌, ◌≡◌, sym, inl, inr, ◌==◌,
  false, List, [], ◌∷◌, ◌++◌, some, length, ltb, arith, ltb→lt, Bool-cases,
}
use open_gauss_connector_odb.Base.Int.{pos}
use open_gauss_connector_odb.Encoding.{utf8, pg_cs_stat, encoded_str_constr}
use open_gauss_connector_odb.Unicode.{
  ucs2_to_utf8, ucs2_loop, converted, code_bytes, bytes2, bytes3, bytes_of_pair,
}
use open_gauss_connector_odb.Unicode.RoundTrip.{
  AreUnits, converted_of-eq, in_int-eq, ucs2_loop-Encodes, Encodes, end, single, pair,
}
use open_gauss_connector_odb.Encoding.Walk.{scan, walk, NonNull, walk-scan}

-- The status is 0 at the bytes below 0x80, and at no other.
abbrev pub Marks : List ℕ → List ℕ → Type 0
Marks [] [] = Unit
Marks (b ∷ bs) (s ∷ ss) = ((s == 0) ≡ ltb b 0x80) × Marks bs ss
Marks _ _ = ⊥

-- After the bytes of a code the machine is ready for the next.
utf8_ascii : (stat c : ℕ) → stat < 2 → c < 0x80 → pg_cs_stat stat c utf8 ≡ 0
unfolding pg_cs_stat
utf8_ascii stat c h k = ground arith

utf8_lead3 : (stat c : ℕ) → stat < 2 → 0xe0 ≤ c → c < 0xf0 → pg_cs_stat stat c utf8 ≡ 3
unfolding pg_cs_stat
utf8_lead3 stat c h k l = ground arith

utf8_lead4 : (stat c : ℕ) → stat < 2 → 0xf0 ≤ c → c < 0xf8 → pg_cs_stat stat c utf8 ≡ 4
unfolding pg_cs_stat
utf8_lead4 stat c h k l = ground arith

utf8_lead2 : (stat c : ℕ) → stat < 2 → 0xc0 ≤ c → c < 0xe0 → pg_cs_stat stat c utf8 ≡ 2
unfolding pg_cs_stat
utf8_lead2 stat c h k l = ground arith

utf8_next : (stat c : ℕ) → 2 ≤ stat → 0x80 ≤ c → pg_cs_stat stat c utf8 ≡ stat - 1
unfolding pg_cs_stat
utf8_next stat c h k = ground arith

high : (c : ℕ) → 0x80 ≤ c → false ≡ ltb c 0x80
high c h = ground arith

module _ (rest : List ℕ) (ready : (stat : ℕ) → stat < 2 → Marks rest (scan utf8 stat rest)) where
  Marks-bytes2 :
      (stat w : ℕ) → stat < 2 → Marks (bytes2 w ++ rest) (scan utf8 stat (bytes2 w ++ rest))
  unfolding bytes2
  Marks-bytes2 stat w h =
      let a = 0xc0 + w / 64 % 32 in
      let b = 0x80 + w % 64 in
      rw
        (utf8_lead2 stat a h (omega arith) (omega arith), utf8_next 2 b (omega arith) (omega arith))
        (high a (omega arith), (high b (omega arith), ready 1 (omega arith)))

  Marks-bytes3 :
      (stat w : ℕ) → stat < 2 → Marks (bytes3 w ++ rest) (scan utf8 stat (bytes3 w ++ rest))
  unfolding bytes3
  Marks-bytes3 stat w h =
      let a = 0xe0 + w / 4096 % 16 in
      let b = 0x80 + w / 64 % 64 in
      let c = 0x80 + w % 64 in
      rw
        (
          utf8_lead3 stat a h (omega arith) (omega arith),
          utf8_next 3 b (omega arith) (omega arith),
          utf8_next 2 c (omega arith) (omega arith),
        )
        (
          high a (omega arith),
          (high b (omega arith), (high c (omega arith), ready 1 (omega arith))),
        )

  Marks-bytes_of_pair :
      (stat w v : ℕ)
      → stat < 2
      → Marks (bytes_of_pair w v ++ rest) (scan utf8 stat (bytes_of_pair w v ++ rest))
  unfolding bytes_of_pair
  Marks-bytes_of_pair stat w v h =
      let s = w % 1024 + 0x40 in
      let t = v % 1024 in
      let a = 0xf0 + s / 256 % 8 in
      let b = 0x80 + s / 4 % 64 in
      let c = 0x80 + s % 4 * 16 + t / 64 % 16 in
      let d = 0x80 + t % 64 in
      rw
        (
          utf8_lead4 stat a h (omega arith) (omega arith),
          utf8_next 4 b (omega arith) (omega arith),
          utf8_next 3 c (omega arith) (omega arith),
          utf8_next 2 d (omega arith) (omega arith),
        )
        (
          high a (omega arith),
          (
            high b (omega arith),
            (high c (omega arith), (high d (omega arith), ready 1 (omega arith))),
          ),
        )

  Marks-code_bytes :
      (tolower : ℕ → ℕ) (stat w : ℕ)
      → stat < 2
      → Marks
          (code_bytes tolower false w ++ rest)
          (scan utf8 stat (code_bytes tolower false w ++ rest))
  unfolding code_bytes
  Marks-code_bytes tolower stat w h = elim (Bool-cases (ltb w 0x80)) [
    | inl one ↦ rw (one, utf8_ascii stat w h (ltb→lt _ _ one)) (sym one, ready 0 (omega arith))
    | inr more ↦ elim (Bool-cases (ltb w 0x800)) [
      | inl two ↦ rw (more, two) (Marks-bytes2 stat w h)
      | inr three ↦ rw (more, three) (Marks-bytes3 stat w h)
    ]
  ]

scan-Marks :
    (tolower : ℕ → ℕ) {ws bs : List ℕ}
    → Encodes tolower ws bs
    → (stat : ℕ) → stat < 2
    → Marks bs (scan utf8 stat bs)
scan-Marks tolower end stat h = tt
scan-Marks tolower (single {w} {ws} {bs} p q r) stat h =
    Marks-code_bytes bs (scan-Marks tolower r) tolower stat w h
scan-Marks tolower (pair {w} {v} {ws} {bs} a b r) stat h =
    Marks-bytes_of_pair bs (scan-Marks tolower r) stat w v h

NonNull-append : (p bs : List ℕ) → NonNull p → NonNull bs → NonNull (p ++ bs)
NonNull-append [] bs h n = n
NonNull-append (x ∷ p) bs (h, hs) n = (h, NonNull-append p bs hs n)

NonNull-code_bytes : (tolower : ℕ → ℕ) (w : ℕ) → 0 < w → NonNull (code_bytes tolower false w)
unfolding code_bytes bytes2 bytes3
NonNull-code_bytes tolower w h = ground arith

NonNull-bytes_of_pair : (w v : ℕ) → NonNull (bytes_of_pair w v)
unfolding bytes_of_pair
NonNull-bytes_of_pair w v = omega arith

NonNull-Encodes : (tolower : ℕ → ℕ) {ws bs : List ℕ} → Encodes tolower ws bs → NonNull bs
NonNull-Encodes tolower end = tt
NonNull-Encodes tolower (single {w} {ws} {bs} p q r) =
    NonNull-append _ bs (NonNull-code_bytes tolower w p) (NonNull-Encodes tolower r)
NonNull-Encodes tolower (pair {w} {v} {ws} {bs} a b r) =
    NonNull-append _ bs (NonNull-bytes_of_pair w v) (NonNull-Encodes tolower r)

-- The walk over what `ucs2_to_utf8` makes of a string of SQLWCHARs without lowering it ends at its
-- null byte, and gives status 0 at the bytes below 0x80 and another status at all bytes of longer
-- codes.
pub walk-ucs2_to_utf8 :
    (tolower : ℕ → ℕ) (ws bs : List ℕ) (olen : ℕ)
    → AreUnits (2 ^ 16) ws
    → ucs2_to_utf8 tolower (some ws) (pos (length ws)) false ≡ converted bs olen
    → (ss : List ℕ) × (walk (suc (length bs)) (encoded_str_constr utf8 (bs ++ 0 ∷ [])) ≡ some ss)
      × Marks bs ss
unfolding ucs2_to_utf8
walk-ucs2_to_utf8 tolower ws bs olen u e =
    let (made, len) =
      converted_of-eq tolower (ucs2_loop tolower false (take (length ws) ws)) (in_int-eq _ _ e) in
    let r = ucs2_loop-Encodes tolower ws u (rw (take-length ws) at made) in
    (
      scan utf8 0 bs,
      walk-scan utf8 bs (NonNull-Encodes tolower r),
      scan-Marks tolower r 0 (omega arith),
    )
