-- ===== src/Encoding/TwoBytes.antt =====
-- The status of bytes in the character sets with codes of two bytes at most.
use open_gauss_connector_odb.Base.{
  Bool, true, false, leb, ◌&&◌, ◌||◌, ℕ, suc, ◌<◌, ◌≡◌, refl, ap, ◌∙◌, List, [], ◌∷◌, ◌++◌, some,
  length, arith,
}
use open_gauss_connector_odb.Encoding.{
  CharacterSet, sjis, shift_jis_2004, big5, gbk, uhc, euc_cn, euc_kr, pg_mb_maxlen, pg_cs_stat,
  encoded_str_constr,
}
use open_gauss_connector_odb.Encoding.Walk.{scan, walk, NonNull, walk-scan}

-- Sets with codes of two bytes at most.
module _ (set : CharacterSet) (two : pg_mb_maxlen set ≡ 2) where
  pub trail_stat : (c : ℕ) → 0 < c → pg_cs_stat 2 c set ≡ 1
  unfolding pg_cs_stat pg_mb_maxlen
  trail_stat c h = ground arith

  pub start_stat : (stat c : ℕ) → stat < 2 → 0 < c → pg_cs_stat stat c set ≡ pg_cs_stat 0 c set
  unfolding pg_cs_stat pg_mb_maxlen
  start_stat stat c s h = ground arith

-- The bytes that begin a code of two bytes, as the definitions of the character sets have them.
abbrev pub leads : CharacterSet → ℕ → Bool
leads sjis c = leb 0x81 c && leb c 0x9f || leb 0xe0 c && leb c 0xfc
leads shift_jis_2004 c = leb 0x81 c && leb c 0x9f || leb 0xe0 c && leb c 0xfc
leads big5 c = leb 0xa1 c && leb c 0xf9
leads gbk c = leb 0x81 c && leb c 0xfe
leads uhc c = leb 0x81 c && leb c 0xfe
leads euc_cn c = leb 0xa1 c && leb c 0xfe
leads euc_kr c = leb 0xa1 c && leb c 0xfe
leads _ c = false

-- The bytes that are characters of their own: ASCII, and in Shift JIS the half-width katakana.
abbrev pub stands_alone : CharacterSet → ℕ → Bool
stands_alone sjis c = leb 1 c && leb c 0x7f || leb 0xa1 c && leb c 0xdf
stands_alone shift_jis_2004 c = leb 1 c && leb c 0x7f || leb 0xa1 c && leb c 0xdf
stands_alone _ c = leb 1 c && leb c 0x7f

pub lead_nonnull : (set : CharacterSet) (c : ℕ) → leads set c ≡ true → 0 < c
lead_nonnull set c h = ground arith

pub alone_nonnull : (set : CharacterSet) (c : ℕ) → stands_alone set c ≡ true → 0 < c
alone_nonnull set c h = ground arith

pub lead_stat : (set : CharacterSet) (c : ℕ) → leads set c ≡ true → pg_cs_stat 0 c set ≡ 2
unfolding pg_cs_stat
lead_stat set c h = ground arith

pub alone_stat :
    (set : CharacterSet) (stat c : ℕ)
    → pg_mb_maxlen set ≡ 2
    → stat < 2
    → stands_alone set c ≡ true
    → pg_cs_stat stat c set ≡ 0
unfolding pg_cs_stat pg_mb_maxlen
alone_stat set stat c two s h = ground arith

-- A text in such a set, with the status that each byte ought to get: 0 for a character that stands
-- for itself, 2 and 1 for the bytes of a code of two bytes, whatever the second byte is.
pub data Text (set : CharacterSet) : List ℕ → List ℕ → Type 0 where
  finished : Text set [] []
  plain :
      {c : ℕ} {bs ss : List ℕ}
      → stands_alone set c ≡ true
      → Text set bs ss
      → Text set (c ∷ bs) (0 ∷ ss)
  wide :
      {a b : ℕ} {bs ss : List ℕ}
      → leads set a ≡ true
      → 0 < b
      → Text set bs ss
      → Text set (a ∷ b ∷ bs) (2 ∷ 1 ∷ ss)

scan-Text :
    (set : CharacterSet)
    → pg_mb_maxlen set ≡ 2
    → (stat : ℕ) {bs ss : List ℕ} → stat < 2
    → Text set bs ss
    → scan set stat bs ≡ ss
scan-Text set two stat h finished = refl
scan-Text set two stat h (plain {c} p t) =
    rw (alone_stat set stat c two h p) (ap (◌∷◌ 0) (scan-Text set two 0 (omega arith) t))
scan-Text set two stat h (wide {a} {b} l q t) =
    rw
      (
        start_stat set two stat a h (lead_nonnull set a l),
        lead_stat set a l,
        trail_stat set two b q,
      )
      (ap (λ x. 2 ∷ 1 ∷ x) (scan-Text set two 1 (omega arith) t))

NonNull-Text : {set : CharacterSet} {bs ss : List ℕ} → Text set bs ss → NonNull bs
NonNull-Text finished = tt
NonNull-Text {set} (plain {c} p t) = (alone_nonnull set c p, NonNull-Text t)
NonNull-Text {set} (wide {a} l q t) = (lead_nonnull set a l, (q, NonNull-Text t))

-- In a character set with codes of two bytes at most, the walk from the start of a text ends at its
-- null byte and gives status 0 at each character that stands for itself, and 2 and 1 at the bytes of
-- a code of two bytes, also where the second byte is that of a quote or a backslash. A text is made
-- of ASCII characters, the half-width katakana of Shift JIS, and codes whose first byte is from 0x81
-- to 0x9f or 0xe0 to 0xfc (Shift JIS), 0xa1 to 0xf9 (Big5), 0x81 to 0xfe (GBK, UHC) or 0xa1 to 0xfe
-- (EUC_CN, EUC_KR); of Johab it has ASCII only.
pub walk-Text :
    (set : CharacterSet) (bs ss : List ℕ)
    → pg_mb_maxlen set ≡ 2
    → Text set bs ss
    → walk (suc (length bs)) (encoded_str_constr set (bs ++ 0 ∷ [])) ≡ some ss
walk-Text set bs ss two t =
    walk-scan set bs (NonNull-Text t) ∙ ap some (scan-Text set two 0 (omega arith) t)
