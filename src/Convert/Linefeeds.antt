-- ===== src/Convert/Linefeeds.antt =====
-- `convert_linefeeds` (convert.c): line feeds of a text from the server become line breaks of two
-- characters.
use open_gauss_connector_odb.Base.{
  ℕ, suc, ◌+◌, ◌-◌, ◌<◌, ◌≤◌, ◌≡◌, refl, ap, inl, inr, ◌==◌, Bool, true, false, ◌&&◌, List, [], ◌∷◌,
  Option, none, some, length, ltb, if◌then◌else◌, arith, Bool-cases,
}
use open_gauss_connector_odb.Unicode.Decode.{line_feed, carriage_return}

-- What is put, and whether a line feed was changed.
abbrev pub Lines : Type 0
Lines = List ℕ × Bool

abbrev pub put_one : ℕ → Lines → Lines
put_one c (cs, changed) = (c ∷ cs, changed)

abbrev pub put_break : Lines → Lines
put_break (cs, changed) = (carriage_return ∷ line_feed ∷ cs, true)

-- The loop, with the character before, if there is one, and the number of characters put.
unfoldable pub linefeed_loop : Bool → ℕ → ℕ → Bool → List ℕ → Lines
linefeed_loop convlf max out after_return [] = ([], false)
linefeed_loop convlf max out after_return (c ∷ si) =
    let one = linefeed_loop convlf max (suc out) (c == carriage_return) si in
    let two = linefeed_loop convlf max (suc (suc out)) (c == carriage_return) si in
    if ltb out (max - 1)
    then if convlf && (c == line_feed)
      then if after_return then put_one c one else put_break two
      else put_one c one
    else ([], false)

-- `convert_linefeeds`, of the characters before the null: those that are put before the null, whose
-- number is the result, and the flag. `changed` says whether there is a place for the flag; `none` is
-- the write to a null pointer.
unfoldable pub convert_linefeeds : List ℕ → ℕ → Bool → Bool → Option Lines
unfolding linefeed_loop
convert_linefeeds si max convlf changed =
    let max' = if max == 0 then 0xffffffff else max in
    if changed then some (linefeed_loop convlf max' 0 false si) else none

-- The whole text with its line breaks.
abbrev pub with_breaks : Bool → Bool → List ℕ → Lines
with_breaks convlf after_return [] = ([], false)
with_breaks convlf after_return (c ∷ si) =
    let rest = with_breaks convlf (c == carriage_return) si in
    if convlf && (c == line_feed)
    then if after_return then put_one c rest else put_break rest
    else put_one c rest

-- A step of the loop, for what it puts behind one character and behind a line break.
abbrev step_of : Bool → Bool → ℕ → Lines → Lines → Lines
step_of feed after_return c one two =
    if feed then if after_return then put_one c one else put_break two else put_one c one

step_of-eq :
    (feed after_return : Bool) (c max out : ℕ) (one two rest : Lines)
    → out + length ((step_of feed after_return c rest rest).0) < max
    → (suc out + length (rest.0) < max → one ≡ rest)
    → (suc (suc out) + length (rest.0) < max → two ≡ rest)
    → (out < max - 1)
      × (step_of feed after_return c one two ≡ step_of feed after_return c rest rest)
step_of-eq false after_return c max out one two rest h e f =
    (omega arith, ap (put_one c) (e (omega arith)))
step_of-eq true true c max out one two rest h e f = (omega arith, ap (put_one c) (e (omega arith)))
step_of-eq true false c max out one two rest h e f = (omega arith, ap put_break (f (omega arith)))

length-step_of :
    (feed after_return : Bool) (c max out : ℕ) (one two : Lines)
    → suc out + length (one.0) ≤ max
    → suc (suc out) + length (two.0) ≤ max
    → out + length ((step_of feed after_return c one two).0) ≤ max
length-step_of false after_return c max out one two h k = omega arith
length-step_of true true c max out one two h k = omega arith
length-step_of true false c max out one two h k = omega arith

-- With room for the whole text and a null, the loop puts the whole text.
linefeed_loop-whole :
    (convlf : Bool) (max out : ℕ) (after_return : Bool) (si : List ℕ)
    → out + length ((with_breaks convlf after_return si).0) < max
    → linefeed_loop convlf max out after_return si ≡ with_breaks convlf after_return si
unfolding linefeed_loop
linefeed_loop-whole convlf max out after_return [] h = refl
linefeed_loop-whole convlf max out after_return (c ∷ si) h =
    let next = c == carriage_return in
    let (room, same) =
      step_of-eq (convlf && (c == line_feed)) after_return c max out
        (linefeed_loop convlf max (suc out) next si)
        (linefeed_loop convlf max (suc (suc out)) next si) (with_breaks convlf next si) h
        (linefeed_loop-whole convlf max (suc out) next si)
        (linefeed_loop-whole convlf max (suc (suc out)) next si) in
    let more : ltb out (max - 1) ≡ true = ground arith in rw (linefeed_loop, more) same

-- In any room the loop puts one character too many at most.
length-linefeed_loop :
    (convlf : Bool) (max out : ℕ) (after_return : Bool) (si : List ℕ)
    → out ≤ max
    → out + length ((linefeed_loop convlf max out after_return si).0) ≤ max
unfolding linefeed_loop
length-linefeed_loop convlf max out after_return [] h = omega arith
length-linefeed_loop convlf max out after_return (c ∷ si) h =
    let next = c == carriage_return in
    elim (Bool-cases (ltb out (max - 1))) [
      | inr e ↦ rw (linefeed_loop, e) (omega arith)
      | inl e ↦
          let room : out < max - 1 = ground arith in
          rw (linefeed_loop, e)
            (length-step_of (convlf && (c == line_feed)) after_return c max out
              (linefeed_loop convlf max (suc out) next si)
              (linefeed_loop convlf max (suc (suc out)) next si)
              (length-linefeed_loop convlf max (suc out) next si (omega arith))
              (length-linefeed_loop convlf max (suc (suc out)) next si (omega arith)))
    ]

-- A first call without a limit tells the length of the whole text with its line breaks, for texts
-- of less than 2^32 - 1 characters; a second call with room for this and a null puts the same text,
-- with the same flag; and in less room the text with its null takes one character more than there is
-- room for at most.
convert_linefeeds-twice :
    (si : List ℕ) (max : ℕ) (convlf : Bool)
    → length ((with_breaks convlf false si).0) < 0xffffffff
    → 0 < max
    → (text : List ℕ) × (flag : Bool) × (short : List ℕ) × (short_flag : Bool) × (convert_linefeeds
          si 0 convlf true
        ≡ some (text, flag))
      × (convert_linefeeds si (suc (length text)) convlf true ≡ some (text, flag))
      × (convert_linefeeds si max convlf true ≡ some (short, short_flag))
      × (length short ≤ max)
unfolding convert_linefeeds
convert_linefeeds-twice si max convlf few some_room =
    let whole = with_breaks convlf false si in
    let short = linefeed_loop convlf max 0 false si in
    let given : (max == 0) ≡ false = ground arith in
    let filled : (suc (length (whole.0)) == 0) ≡ false = ground arith in
    let bound : 0 + length (short.0) ≤ max =
      length-linefeed_loop convlf max 0 false si (omega arith) in
    (
      whole.0,
      whole.1,
      short.0,
      short.1,
      ap some (linefeed_loop-whole convlf 0xffffffff 0 false si (omega arith)),
      rw (convert_linefeeds, filled)
          (ap some (linefeed_loop-whole convlf (suc (length (whole.0))) 0 false si (omega arith))),
      rw (convert_linefeeds, given) refl,
      omega arith,
    )
