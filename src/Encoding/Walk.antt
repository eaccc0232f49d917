-- ===== src/Encoding/Walk.antt =====
-- The walk through a string with `encoded_nextchar`, and the status at each byte.
use open_gauss_connector_odb.Base.{
  ℕ, zero, suc, ◌<◌, ◌≡◌, refl, ◌==◌, List, [], ◌∷◌, ◌++◌, Option, none, some, length,
  if◌then◌else◌, arith, get_elem?,
}
use open_gauss_connector_odb.Base.Int.{pos}
use open_gauss_connector_odb.Encoding.{
  CharacterSet, pg_cs_stat, EncodedStr, encoded_str_constr, encoded_nextchar,
}

-- `ENCODE_STATUS` after each byte, from a given status on.
abbrev pub scan : CharacterSet → ℕ → List ℕ → List ℕ
scan set stat [] = []
scan set stat (b ∷ bs) = pg_cs_stat stat b set ∷ scan set (pg_cs_stat stat b set) bs

-- The walk through a string that the driver makes with `encoded_nextchar` up to the null byte, with
-- `ENCODE_STATUS` at each byte.
unfoldable pub walk : ℕ → EncodedStr → Option (List ℕ)
walk zero e = none
walk (suc fuel) e = elim (encoded_nextchar e) [
  | none ↦ none
  | some (e', chr) ↦
      let rest = walk fuel e' in
      if chr == 0 then some [] else elim rest [ none ↦ none | some ss ↦ some (e'.ccst ∷ ss) ]
]

abbrev pub NonNull : List ℕ → Type 0
NonNull [] = Unit
NonNull (b ∷ bs) = (0 < b) × NonNull bs

abbrev at_byte : CharacterSet → List ℕ → ℕ → ℕ → EncodedStr
at_byte set mem n stat = record { ccsc = set; encstr = mem; pos = pos n; ccst = stat }

-- From index `n` on the memory holds these bytes and the terminating null.
abbrev At : List ℕ → ℕ → List ℕ → Type 0
At mem n [] = get_elem? mem n ≡ some 0
At mem n (c ∷ cs) = (get_elem? mem n ≡ some c) × At mem (suc n) cs

At-cons : (x : ℕ) (mem : List ℕ) (n : ℕ) (cs : List ℕ) → At mem n cs → At (x ∷ mem) (suc n) cs
At-cons x mem n [] a = a
At-cons x mem n (c ∷ cs) (e, a) = (e, At-cons x mem (suc n) cs a)

At-start : (cs : List ℕ) → At (cs ++ 0 ∷ []) 0 cs
At-start [] = refl
At-start (c ∷ cs) = (refl, At-cons c (cs ++ 0 ∷ []) 0 cs (At-start cs))

encoded_nextchar-at_byte :
    (set : CharacterSet) (mem : List ℕ) (n stat b c : ℕ)
    → 0 < b
    → get_elem? mem n ≡ some b
    → get_elem? mem (suc n) ≡ some c
    → encoded_nextchar (at_byte set mem n stat)
      ≡ some (at_byte set mem (suc n) (pg_cs_stat stat c set), c)
unfolding encoded_nextchar
encoded_nextchar-at_byte set mem n stat b c h e f = ground arith

walk-at_byte :
    (set : CharacterSet) (mem : List ℕ) (n b : ℕ) (bs : List ℕ) (stat fuel : ℕ)
    → 0 < b
    → get_elem? mem n ≡ some b
    → At mem (suc n) bs
    → NonNull bs
    → length bs < fuel
    → walk fuel (at_byte set mem n stat) ≡ some (scan set stat bs)
unfolding walk encoded_nextchar
walk-at_byte set mem n b bs stat zero h e a nn f = absurd (omega arith)
walk-at_byte set mem n b [] stat (suc fuel) h e a nn f =
    rw (encoded_nextchar-at_byte set mem n stat b 0 h e a)
walk-at_byte set mem n b (c ∷ bs) stat (suc fuel) h e (a, as') (p, nn) f =
    rw
      (
        encoded_nextchar-at_byte set mem n stat b c h e a,
        walk-at_byte set mem (suc n) c bs (pg_cs_stat stat c set) fuel p a as' nn (omega arith),
      )
      (ground arith)

pub walk-scan :
    (set : CharacterSet) (bs : List ℕ)
    → NonNull bs
    → walk (suc (length bs)) (encoded_str_constr set (bs ++ 0 ∷ [])) ≡ some (scan set 0 bs)
unfolding walk encoded_str_constr encoded_nextchar
walk-scan set [] nn = refl
walk-scan set (c ∷ bs) (p, nn) =
    rw
      (walk-at_byte set (c ∷ bs ++ 0 ∷ []) 0 c bs (pg_cs_stat 0 c set) (suc (length bs)) p refl
        (At-start (c ∷ bs)).1 nn (omega arith))
      (ground arith)
