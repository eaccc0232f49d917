-- ===== src/Unicode/Decode.antt =====
-- `utf8_to_ucs2_lf` and `utf8_to_ucs4_lf` (win_unicode.c), which differ in the 4 byte codes only.
use open_gauss_connector_odb.Base.{
  ℕ, zero, suc, ◌+◌, ◌-◌, ◌*◌, ◌/◌, ◌%◌, ◌^◌, ◌==◌, Bool, not, ◌&&◌, ◌||◌, List, [], ◌∷◌, ◌++◌,
  Option, none, some, length, take, drop, ltb, leb, if◌then◌else◌,
}
use open_gauss_connector_odb.Base.Int.{ℤ, pos, negsuc}
use open_gauss_connector_odb.Unicode.{before_null, surrogate_adjust}

pub data Width : Type 0 where
  ucs2 ucs4 : Width

-- One round of the loop: the end, an invalid code, a read behind the memory, or the units of a code
-- with its size and its last byte, which is `str[-1]` of the next round.
pub data Round : Type 0 where
  stop invalid overread : Round
  code : (units : List ℕ) (size last : ℕ) → Round

abbrev pub line_feed : ℕ
line_feed = 0x0a

abbrev pub carriage_return : ℕ
carriage_return = 0x0d

-- `wcode` of the 4 byte codes.
unfoldable pub units4 : Width → ℕ → ℕ → ℕ → ℕ → List ℕ
units4 ucs2 a b c d =
    (0xd800 + a % 8 * 2 ^ 8 + b % 64 * 2 ^ 2 + c / 16 % 4 - surrogate_adjust)
    ∷ (0xdc00 + c % 16 * 2 ^ 6 + d % 64)
    ∷ []
units4 ucs4 a b c d = (a % 8 * 2 ^ 18 + b % 64 * 2 ^ 12 + c % 64 * 2 ^ 6 + d % 64) ∷ []

-- The branches for codes of 2, 3 and 4 bytes. `left` counts the bytes behind the first that `ilen`
-- admits; a byte has its top bit clear if it is below 0x80.
unfoldable pub code2 : Bool → ℕ → ℕ → List ℕ → Round
code2 errcheck left a (b ∷ _) =
    if errcheck && (ltb left 1 || ltb b 0x80)
    then invalid
    else code ((a % 32 * 2 ^ 6 + b % 64) ∷ []) 2 b
code2 errcheck left a [] = if errcheck && ltb left 1 then invalid else overread

unfoldable pub code3 : Bool → ℕ → ℕ → List ℕ → Round
code3 errcheck left a (b ∷ c ∷ _) =
    if errcheck && (ltb left 2 || ltb b 0x80 || ltb c 0x80)
    then invalid
    else code ((a % 16 * 2 ^ 12 + b % 64 * 2 ^ 6 + c % 64) ∷ []) 3 c
code3 errcheck left a _ = if errcheck && ltb left 2 then invalid else overread

unfoldable pub code4 : Width → Bool → ℕ → ℕ → List ℕ → Round
code4 width errcheck left a (b ∷ c ∷ d ∷ _) =
    if errcheck && (ltb left 3 || ltb b 0x80 || ltb c 0x80 || ltb d 0x80)
    then invalid
    else code (units4 width a b c d) 4 d
code4 width errcheck left a _ = if errcheck && ltb left 3 then invalid else overread

-- The loop body at `str`, with `left` bytes before `ilen` and the byte before, 0 at the start.
unfoldable pub round : Width → Bool → Bool → ℕ → ℕ → List ℕ → Round
unfolding code2 code3 code4
round width lfconv errcheck prev zero mem = stop
round width lfconv errcheck prev (suc left) [] = overread
round width lfconv errcheck prev (suc left) (a ∷ mem) =
    if a == 0
    then stop
    else if ltb a 0x80
    then code
        (if lfconv && a == line_feed && not (prev == carriage_return)
          then carriage_return ∷ a ∷ []
          else a ∷ [])
        1 a
    else if leb 0xf8 a
    then invalid
    else if leb 0xf0 a
    then code4 width errcheck left a mem
    else if leb 0xe0 a
    then code3 errcheck left a mem
    else if leb 0xc0 a
    then code2 errcheck left a mem
    else invalid

pub data Decoded : Type 0 where
  bad over : Decoded
  done : List ℕ → Decoded

abbrev pub prepend_units : List ℕ → Decoded → Decoded
prepend_units us bad = bad
prepend_units us over = over
prepend_units us (done ws) = done (us ++ ws)

-- The loop. A round takes one byte at least, so `left` rounds are enough.
unfoldable pub decode : Width → Bool → Bool → ℕ → ℕ → ℕ → List ℕ → Decoded
decode width lfconv errcheck zero prev left mem = done []
decode width lfconv errcheck (suc fuel) prev left mem =
    elim (round width lfconv errcheck prev left mem) [
      | stop ↦ done []
      | invalid ↦ bad
      | overread ↦ over
      | code us size last ↦
          prepend_units us (decode width lfconv errcheck fuel last (left - size) (drop size mem))
    ]

-- What a call writes, up to and with the terminating null if there is room for it, and the number
-- returned, a SQLULEN.
pub record Written : Type 0 where
  pub rtn : ℕ
  pub buffer : List ℕ

abbrev pub minus_one : ℕ
minus_one = 2 ^ 64 - 1

-- The code behind `cleanup`. After an invalid code the buffer holds the empty string.
unfoldable pub cleanup : Bool → ℕ → Decoded → Option Written
cleanup errcheck bufcount over = none
cleanup errcheck bufcount bad = some (record {
  rtn = if errcheck then minus_one else 0;
  buffer = if ltb 0 bufcount then 0 ∷ [] else [];
})
cleanup errcheck bufcount (done ws) = some (record {
  rtn = length ws;
  buffer = if ltb (length ws) bufcount then ws ++ 0 ∷ [] else take bufcount ws;
})

-- `utf8_to_ucs2_lf` and `utf8_to_ucs4_lf`: the memory at `utf8str` or null, and a buffer of
-- `bufcount` units, 0 where the pointer is null. `none` stands for a read behind the memory.
unfoldable pub utf8_to_wide_lf : Width → Option (List ℕ) → ℤ → Bool → ℕ → Bool → Option Written
utf8_to_wide_lf width none ilen lfconv bufcount errcheck = some (record { rtn = 0; buffer = [] })
utf8_to_wide_lf width (some mem) (pos n) lfconv bufcount errcheck =
    cleanup errcheck bufcount (decode width lfconv errcheck n 0 n mem)
utf8_to_wide_lf width (some mem) (negsuc _) lfconv bufcount errcheck =
    let n = length (before_null mem) in
    cleanup errcheck bufcount (decode width lfconv errcheck n 0 n mem)
