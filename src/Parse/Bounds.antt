-- ===== src/Parse/Bounds.antt =====
-- `getNextToken`: the room that a token takes, and how far the string is read.
use open_gauss_connector_odb.Base.{
  ℕ, zero, suc, ◌-◌, ◌≤◌, ◌<◌, ◌≡◌, refl, ◌==◌, ◌||◌, Bool, true, false, List, [], ◌∷◌, length,
  drop, length-drop, leb, arith, Bool-cases, inl, inr,
}
use open_gauss_connector_odb.Encoding.{CharacterSet, pg_cs_stat}
use open_gauss_connector_odb.Convert.Literal.{literal_quote}
use open_gauss_connector_odb.Convert.Numeric.{isspace, skip_space}
use open_gauss_connector_odb.Parse.{
  dollar_quote, identifier_quote, dollar_quoting, literal_quoting, identifier_quoting,
  skip_delimiters, Quoting, tag_end, quoted_loop, behind_quote, number_loop, word_loop, tag_length,
  Taken, take_dollar_quote, take_literal, take_identifier, take_number, take_token, literal_escape,
  NextToken, no_room, no_token, next_token, delim_of, token_at, get_next_token,
}

-- What a loop puts and leaves, from `n` bytes with `room`.
InBounds : ℕ → ℕ → List ℕ × List ℕ → Type 0
InBounds room n (token, rest) = (length token ≤ room) × (length rest ≤ n)

word_loop-InBounds :
    (set : CharacterSet) (room stat : ℕ) (text : List ℕ)
    → InBounds room (length text) (word_loop set room stat text)
unfolding InBounds word_loop
word_loop-InBounds set room stat [] = (omega arith, omega arith)
word_loop-InBounds set zero stat (c ∷ text) = (omega arith, omega arith)
word_loop-InBounds set (suc room) stat (c ∷ text) =
    let (a, b) = word_loop-InBounds set room (pg_cs_stat stat c set) text in
    (ground (arith, a), ground (arith, b))

number_loop-InBounds :
    (room : ℕ) (text : List ℕ) → InBounds room (length text) (number_loop room text)
unfolding InBounds number_loop
number_loop-InBounds room [] = (omega arith, omega arith)
number_loop-InBounds zero (c ∷ text) = (omega arith, omega arith)
number_loop-InBounds (suc room) (c ∷ text) =
    let (a, b) = number_loop-InBounds room text in (ground (arith, a), ground (arith, b))

QuotedInBounds : ℕ → ℕ → List ℕ × (List ℕ × ℕ) → Type 0
QuotedInBounds room n (token, (rest, tchar)) = (length token ≤ room) × (length rest ≤ n)

tag_end-QuotedInBounds :
    (q : Quoting) (pos room : ℕ) (text : List ℕ)
    → QuotedInBounds room (length text) (tag_end q pos text)
unfolding QuotedInBounds tag_end
tag_end-QuotedInBounds q pos room text =
    (omega arith, omega (arith, length-drop (length q.tag - 1) text))

quoted_loop-QuotedInBounds :
    (q : Quoting) (room : ℕ) (in_escape : Bool) (stat pos : ℕ) (text : List ℕ)
    → QuotedInBounds room (length text) (quoted_loop q room in_escape stat pos text)
unfolding QuotedInBounds quoted_loop
quoted_loop-QuotedInBounds q room in_escape stat pos [] = (omega arith, omega arith)
quoted_loop-QuotedInBounds q zero in_escape stat pos (c ∷ text) = (omega arith, omega arith)
quoted_loop-QuotedInBounds q (suc room) in_escape stat pos (c ∷ []) =
    let (a, b) = tag_end-QuotedInBounds q pos (suc room) (c ∷ []) in
    (ground (arith, a), ground (arith, b))
quoted_loop-QuotedInBounds q (suc room) in_escape stat pos (c ∷ d ∷ text) =
    let stat' = pg_cs_stat stat c q.ccsc in
    let (a, b) = tag_end-QuotedInBounds q pos (suc room) (c ∷ d ∷ text) in
    let (a1, b1) = quoted_loop-QuotedInBounds q room in_escape stat' (suc pos) (d ∷ text) in
    let (a2, b2) = quoted_loop-QuotedInBounds q room false stat' (suc pos) (d ∷ text) in
    let (a3, b3) =
      quoted_loop-QuotedInBounds q room false (pg_cs_stat stat' d q.ccsc) (suc (suc pos)) text in
    let (a4, b4) = quoted_loop-QuotedInBounds q (suc room) false stat' (suc pos) (d ∷ text) in
    let (a5, b5) = quoted_loop-QuotedInBounds q (suc room) true stat' (suc pos) (d ∷ text) in
    (ground (arith, a, a1, a2, a3, a4, a5), ground (arith, b, b1, b2, b3, b4, b5))

-- A token takes room for `smax` bytes, and leaves less than `n` of the string.
TakenInBounds : ℕ → ℕ → Taken → Type 0
TakenInBounds smax n t = (length t.token ≤ smax) × (length t.rest ≤ n)

behind_quote-InBounds :
    (qc room n : ℕ) (found : List ℕ × (List ℕ × ℕ))
    → QuotedInBounds room n found
    → InBounds room n (behind_quote qc found)
unfolding QuotedInBounds InBounds behind_quote
behind_quote-InBounds qc room n (token, (rest, tchar)) (a, b) =
    (a, ground (arith, b, length-drop 1 rest))

take_dollar_quote-InBounds :
    (set : CharacterSet) (smax : ℕ) (text : List ℕ)
    → TakenInBounds smax (length text) (take_dollar_quote set smax text)
unfolding TakenInBounds InBounds QuotedInBounds take_dollar_quote
take_dollar_quote-InBounds set smax text =
    let left = drop (tag_length text - 1) text in
    let q = dollar_quoting set text in
    let found = quoted_loop q smax false 0 (tag_length text) left in
    let (a, b) =
      behind_quote-InBounds dollar_quote smax (length left) found
        (quoted_loop-QuotedInBounds q smax false 0 (tag_length text) left) in
    (a, omega (arith, b, length-drop (tag_length text - 1) text))

take_literal-InBounds :
    (set : CharacterSet) (escape smax : ℕ) (text : List ℕ)
    → TakenInBounds smax (length text) (take_literal set escape smax text)
unfolding TakenInBounds InBounds take_literal
take_literal-InBounds set escape smax text =
    behind_quote-InBounds literal_quote _ _ _
      (quoted_loop-QuotedInBounds (literal_quoting set escape) smax false 0 1 text)

take_identifier-InBounds :
    (set : CharacterSet) (smax : ℕ) (text : List ℕ)
    → TakenInBounds smax (length text) (take_identifier set smax text)
unfolding TakenInBounds InBounds take_identifier
take_identifier-InBounds set smax text =
    behind_quote-InBounds identifier_quote _ _ _
      (quoted_loop-QuotedInBounds (identifier_quoting set) smax false 0 1 text)

take_number-InBounds :
    (smax c : ℕ) (text : List ℕ)
    → 1 ≤ smax
    → TakenInBounds smax (length text) (take_number smax c text)
unfolding TakenInBounds InBounds take_number
take_number-InBounds smax c text h =
    let (a, b) = number_loop-InBounds (smax - 1) text in (omega (arith, a), omega (arith, b))

take_token-InBounds :
    (set : CharacterSet) (escape_ch smax before c : ℕ) (text : List ℕ)
    → 1 ≤ smax
    → (isspace c || c == b',') ≡ false
    → TakenInBounds smax (length text) (take_token set escape_ch smax before c text)
unfolding TakenInBounds InBounds take_token
take_token-InBounds set escape_ch smax before c text h start =
    let (a, b) = word_loop-InBounds set (smax - 1) (pg_cs_stat 0 c set) text in
    let (a1, b1) = take_dollar_quote-InBounds set smax text in
    let (a2, b2) = take_literal-InBounds set (literal_escape escape_ch before) smax text in
    let (a3, b3) = take_identifier-InBounds set smax text in
    let (a4, b4) = take_number-InBounds smax c text h in
    (ground (arith, a, a1, a2, a3, a4), ground (arith, b, b1, b2, b3, b4))

-- What the loop over delimiters leaves is no longer, and begins with no delimiter.
StartsToken : List ℕ → Type 0
StartsToken [] = Unit
StartsToken (c ∷ text) = (isspace c || c == b',') ≡ false

skip_delimiters-StartsToken :
    (before : ℕ) (s : List ℕ)
    → StartsToken (skip_delimiters before s).1 × (length (skip_delimiters before s).1 ≤ length s)
unfolding StartsToken skip_delimiters
skip_delimiters-StartsToken before [] = (tt, omega arith)
skip_delimiters-StartsToken before (c ∷ text) = elim (Bool-cases (isspace c || c == b',')) [
  | inl e ↦ let (a, b) = skip_delimiters-StartsToken c text in rw e (a, omega (arith, b))
  | inr e ↦ rw e (e, omega arith)
]

-- What blanks are followed by is no longer, and begins with no blank.
abbrev pub NoBlank : List ℕ → Type 0
NoBlank [] = Unit
NoBlank (c ∷ text) = isspace c ≡ false

skip_space-NoBlank : (s : List ℕ) → NoBlank (skip_space s) × (length (skip_space s) ≤ length s)
unfolding skip_space
skip_space-NoBlank [] = (tt, omega arith)
skip_space-NoBlank (c ∷ text) = elim (Bool-cases (isspace c)) [
  | inl e ↦ let (a, b) = skip_space-NoBlank text in rw e (a, omega (arith, b))
  | inr e ↦ rw e (e, omega arith)
]

pub skip_space-skip_space : (s : List ℕ) → skip_space (skip_space s) ≡ skip_space s
unfolding skip_space
skip_space-skip_space [] = refl
skip_space-skip_space (c ∷ text) = elim (Bool-cases (isspace c)) [
  | inl e ↦ rw e (skip_space-skip_space text)
  | inr e ↦ rw (e, e) refl
]

-- What the result of `getNextToken` says.
abbrev pub AreDelimiters : List ℕ → Type 0
AreDelimiters [] = Unit
AreDelimiters (c ∷ s) = ((isspace c || c == b',') ≡ true) × AreDelimiters s

abbrev pub IsNextToken : ℕ → List ℕ → NextToken → Type 0
IsNextToken smax s no_room = smax ≤ 1
IsNextToken smax s no_token = (1 < smax) × AreDelimiters s
IsNextToken smax s (next_token t delim) =
    (length t.token < smax)
    × (length t.rest < length s)
    × NoBlank t.rest
    × (delim ≡ delim_of t.rest)

skip_delimiters-AreDelimiters :
    (before : ℕ) (s : List ℕ) → (skip_delimiters before s).1 ≡ [] → AreDelimiters s
unfolding skip_delimiters
skip_delimiters-AreDelimiters before [] e = tt
skip_delimiters-AreDelimiters before (c ∷ s) e = elim (Bool-cases (isspace c || c == b',')) [
  | inl d ↦ (d, skip_delimiters-AreDelimiters c s (rw d at e))
  | inr d ↦ absurd (ground arith)
]

token_at-IsNextToken :
    (set : CharacterSet) (escape_ch smax : ℕ) (s : List ℕ) (place : ℕ × List ℕ)
    → 1 ≤ smax
    → StartsToken place.1
    → length place.1 ≤ length s
    → (place.1 ≡ [] → AreDelimiters s)
    → IsNextToken (suc smax) s (token_at set escape_ch smax place)
unfolding StartsToken TakenInBounds token_at
token_at-IsNextToken set escape_ch smax s (before, []) h start shorter all = (omega arith, all refl)
token_at-IsNextToken set escape_ch smax s (before, c ∷ text) h start shorter all =
    let (a, b) = take_token-InBounds set escape_ch smax before c text h start in
    let taken = take_token set escape_ch smax before c text in
    let (n, m) = skip_space-NoBlank taken.rest in
    rw (skip_space-skip_space taken.rest) (omega (arith, a), omega (arith, b, m), n, refl)

-- In every character set and for every escape character, `getNextToken` puts fewer than `smax` bytes,
-- so that the null behind them is within the buffer; and where it returns a pointer, that points
-- behind at least one byte of the string, to no blank, and the delimiter is a null at the end, a
-- comma before a comma and a blank otherwise. It refuses just a buffer of at most one byte.
pub get_next_token-IsNextToken :
    (set : CharacterSet) (escape_ch smax before : ℕ) (s : List ℕ)
    → IsNextToken smax s (get_next_token set escape_ch smax before s)
unfolding get_next_token
get_next_token-IsNextToken set escape_ch smax before s = elim (Bool-cases (leb smax 1)) [
  | inl e ↦ rw e (ground arith)
  | inr e ↦
      let back : suc (smax - 1) ≡ smax = ground arith in
      let (start, shorter) = skip_delimiters-StartsToken before s in
      let found =
        token_at-IsNextToken set escape_ch (smax - 1) s (skip_delimiters before s) (ground arith)
          start shorter (skip_delimiters-AreDelimiters before s) in
      rw e (rw back at found)
]
