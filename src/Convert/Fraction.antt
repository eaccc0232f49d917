-- ===== src/Convert/Fraction.antt =====
-- `effective_fraction` (convert.c): the fraction of a second without its last zeros.
use native.Mathlib.Nat.{pow-succ'}
use open_gauss_connector_odb.Base.{
  ℕ, zero, suc, ◌*◌, ◌/◌, ◌%◌, ◌^◌, ◌<◌, ◌≤◌, ◌≡◌, ◌≢◌, ◌⊎◌, refl, ◌∙◌, inl, inr, ◌==◌, Option,
  none, some, if◌then◌else◌, arith, Bool-cases,
}
use open_gauss_connector_odb.Base.Int.{ℤ, pos, ◌-ℤ◌, -ℤ_parts, eq_of_parts}

-- The loop, for a number of rounds at most: the fraction, and the width. `none` says that there were
-- more rounds.
unfoldable pub fraction_loop : ℕ → ℕ → ℤ → Option (ℕ × ℤ)
fraction_loop zero fraction width = none
fraction_loop (suc fuel) fraction width =
    let rest = fraction_loop fuel (fraction / 10) (width -ℤ pos 1) in
    if fraction % 10 == 0 then rest else some (fraction, width)

-- `effective_fraction`
unfoldable pub effective_fraction : ℕ → ℕ → Option (ℕ × ℤ)
unfolding fraction_loop
effective_fraction fuel fraction = fraction_loop fuel fraction (pos 9)

-- The fraction with `k` zeros taken away.
abbrev pub IsShortened : ℕ → ℕ → ℤ → ℕ × ℤ → Type 0
IsShortened fraction k width (short, width') =
    (short * 10 ^ k ≡ fraction) × (short % 10 ≢ 0) × (width' ≡ width -ℤ pos k)

minus_none : (w : ℤ) → w ≡ w -ℤ pos 0
minus_none w = eq_of_parts w (w -ℤ pos 0) (omega (arith, -ℤ_parts w (pos 0)))

minus_one_more : (w : ℤ) (k : ℕ) → w -ℤ pos 1 -ℤ pos k ≡ w -ℤ pos (suc k)
minus_one_more w k =
    eq_of_parts (w -ℤ pos 1 -ℤ pos k) (w -ℤ pos (suc k))
      (omega (arith, -ℤ_parts w (pos 1), -ℤ_parts (w -ℤ pos 1) (pos k), -ℤ_parts w (pos (suc k))))

IsShortened-suc :
    (fraction k s : ℕ) (width w : ℤ)
    → fraction % 10 ≡ 0
    → IsShortened (fraction / 10) k (width -ℤ pos 1) (s, w)
    → IsShortened fraction (suc k) width (s, w)
IsShortened-suc fraction k s width w z (whole, last, wide) =
    let product : s * 10 ^ suc k ≡ 10 * (s * 10 ^ k) = rw (pow-succ' 10 k) (grind arith) in
    (product ∙ rw whole (omega arith), last, wide ∙ minus_one_more width k)

fraction_loop-IsShortened :
    (fuel fraction : ℕ) (width : ℤ)
    → 0 < fraction
    → fraction ≤ fuel
    → (k : ℕ) × (r : ℕ × ℤ) × (fraction_loop fuel fraction width ≡ some r)
      × IsShortened fraction k width r
unfolding fraction_loop
fraction_loop-IsShortened zero fraction width p h = absurd (omega arith)
fraction_loop-IsShortened (suc fuel) fraction width p h = elim (Bool-cases (fraction % 10 == 0)) [
  | inr e ↦ (
    0,
    (fraction, width),
    rw (fraction_loop, e) refl,
    (omega arith, ground arith, minus_none width),
  )
  | inl e ↦
      let (k, r, made, short) =
        fraction_loop-IsShortened fuel (fraction / 10) (width -ℤ pos 1) (ground arith)
          (ground arith) in
      (
        suc k,
        r,
        rw (fraction_loop, e) made,
        IsShortened-suc fraction k (r.0) width (r.1) (ground arith) short,
      )
]

fraction_loop-zero : (fuel : ℕ) (width : ℤ) → fraction_loop fuel 0 width ≡ none
unfolding fraction_loop
fraction_loop-zero zero width = refl
fraction_loop-zero (suc fuel) width = fraction_loop-zero fuel (width -ℤ pos 1)

-- For a fraction other than 0 the loop ends, within as many rounds as the fraction says: it takes
-- away all zeros at the end, and the width is 9 less their number. For the fraction 0 it does not end
-- after any number of rounds.
effective_fraction-IsShortened :
    (fraction fuel : ℕ)
    → fraction ≤ fuel
    → ((fraction ≡ 0) × (effective_fraction fuel fraction ≡ none))
      ⊎ ((k : ℕ) × (r : ℕ × ℤ) × (effective_fraction fuel fraction ≡ some r)
          × IsShortened fraction k (pos 9) r)
unfolding effective_fraction
effective_fraction-IsShortened zero fuel h = inl (refl, fraction_loop-zero fuel (pos 9))
effective_fraction-IsShortened (suc fraction) fuel h =
    inr (fraction_loop-IsShortened fuel (suc fraction) (pos 9) (omega arith) h)
