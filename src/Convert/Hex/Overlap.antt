-- ===== src/Convert/Hex/Overlap.antt =====
-- `pg_bin2hex` where the source and the target share memory.
use open_gauss_connector_odb.Base.{
  ℕ, zero, suc, ◌+◌, ◌-◌, ◌*◌, ◌/◌, ◌%◌, ◌≤◌, ◌<◌, ◌≡◌, ◌⊎◌, inl, inr, ◌∙◌, refl, sym, ◌&&◌, none,
  some, ltb, leb, arith, Bool-cases,
}
use open_gauss_connector_odb.Convert.Hex.{
  hextbl, Memory, write, put_pair, put_pair_back, forward_digits, backward_digits, pg_bin2hex,
}

write-same : (mem : Memory) (a v : ℕ) → write mem a v a ≡ v
write-same mem a v = ground arith

write-other : (mem : Memory) (a v b : ℕ) → (b < a) ⊎ (a < b) → write mem a v b ≡ mem b
write-other mem a v b h = ground arith

le-cases : (k n : ℕ) → (k < n) ⊎ (n ≤ k)
le-cases k n = omega arith

-- Where the digits of a byte go, and that nothing else is written.
put_pair-outside :
    (mem : Memory) (dst chr a : ℕ) → (a < dst) ⊎ (suc dst < a) → put_pair mem dst chr a ≡ mem a
put_pair-outside mem dst chr a h = ground arith

put_pair_back-outside :
    (mem : Memory) (dst chr a : ℕ) → (a < dst) ⊎ (suc dst < a) → put_pair_back mem dst chr a ≡ mem a
put_pair_back-outside mem dst chr a h = ground arith

put_pair-digits :
    (mem : Memory) (dst chr : ℕ)
    → (put_pair mem dst chr dst ≡ hextbl (chr / 16))
      × (put_pair mem dst chr (suc dst) ≡ hextbl (chr % 16))
put_pair-digits mem dst chr = (ground arith, ground arith)

put_pair_back-digits :
    (mem : Memory) (dst chr : ℕ)
    → (put_pair_back mem dst chr dst ≡ hextbl (chr / 16))
      × (put_pair_back mem dst chr (suc dst) ≡ hextbl (chr % 16))
put_pair_back-digits mem dst chr = (ground arith, ground arith)

-- The loops write nowhere but where the digits go.
forward_digits-outside :
    (mem : Memory) (src dst count a : ℕ)
    → (a < dst) ⊎ (dst + 2 * count ≤ a)
    → forward_digits mem src dst count a ≡ mem a
unfolding forward_digits
forward_digits-outside mem src dst zero a h = refl
forward_digits-outside mem src dst (suc count) a h =
    forward_digits-outside (put_pair mem dst (mem src)) (suc src) (suc (suc dst)) count a
      (omega arith)
    ∙ put_pair-outside mem dst (mem src) a (omega arith)

backward_digits-outside :
    (mem : Memory) (src dst count a : ℕ)
    → (a < dst) ⊎ (dst + 2 * count ≤ a)
    → backward_digits mem src dst count a ≡ mem a
unfolding backward_digits
backward_digits-outside mem src dst zero a h = refl
backward_digits-outside mem src dst (suc count) a h =
    backward_digits-outside (put_pair_back mem (dst + 2 * count) (mem (src + count))) src dst count
      a (omega arith)
    ∙ put_pair_back-outside mem (dst + 2 * count) (mem (src + count)) a (omega arith)

-- The digits of the byte that was at `s` are at `d`.
abbrev pub Digits : Memory → Memory → ℕ → ℕ → Type 0
Digits mem done s d = (done d ≡ hextbl (mem s / 16)) × (done (suc d) ≡ hextbl (mem s % 16))

-- From the front: what is yet to be read is not written, where the target starts far enough before
-- the source, or behind it.
forward_digits-Digits :
    (mem : Memory) (src dst count k s d : ℕ)
    → k < count
    → (dst + 2 * count ≤ src + count + 1) ⊎ (src + count ≤ dst)
    → s ≡ src + k
    → d ≡ dst + 2 * k
    → Digits mem (forward_digits mem src dst count) s d
unfolding forward_digits
forward_digits-Digits mem src dst zero k s d h far e f = absurd (omega arith)
forward_digits-Digits mem src dst (suc count) zero s d h far e f =
    let put = put_pair mem dst (mem src) in
    let (first, second) = put_pair-digits mem dst (mem src) in
    let outside = forward_digits-outside put (suc src) (suc (suc dst)) count in
    let s_start : s ≡ src = omega arith in
    let d_start : d ≡ dst = omega arith in
    rw (s_start, d_start)
      (outside dst (omega arith) ∙ first, outside (suc dst) (omega arith) ∙ second)
forward_digits-Digits mem src dst (suc count) (suc k) s d h far e f =
    rw (sym (put_pair-outside mem dst (mem src) s (omega arith))) (
      forward_digits-Digits (put_pair mem dst (mem src)) (suc src) (suc (suc dst)) count k s d
        (omega arith) (omega arith) (omega arith) (omega arith))

-- From the back: what is yet to be read lies before the digits, where the target starts at the
-- source or behind it.
backward_digits-Digits :
    (mem : Memory) (src dst count k s d : ℕ)
    → k < count
    → src ≤ dst
    → s ≡ src + k
    → d ≡ dst + 2 * k
    → Digits mem (backward_digits mem src dst count) s d
unfolding backward_digits
backward_digits-Digits mem src dst zero k s d h far e f = absurd (omega arith)
backward_digits-Digits mem src dst (suc count) k s d h far e f =
    let put = put_pair_back mem (dst + 2 * count) (mem (src + count)) in
    elim (le-cases k count) [
      | inl l ↦
          rw (sym (put_pair_back-outside mem (dst + 2 * count) (mem (src + count)) s (omega arith)))
            (backward_digits-Digits put src dst count k s d l far e f)
      | inr l ↦
          let (first, second) = put_pair_back-digits mem (dst + 2 * count) (mem (src + count)) in
          let outside = backward_digits-outside put src dst count in
          let s_end : s ≡ src + count = omega arith in
          let d_end : d ≡ dst + 2 * count = omega arith in
          rw (s_end, d_end)
            (
              outside (dst + 2 * count) (omega arith) ∙ first,
              outside (suc (dst + 2 * count)) (omega arith) ∙ second,
            )
    ]

-- The digits of all bytes, a null, and nothing else.
abbrev pub HasDigits : Memory → ℕ → ℕ → ℕ → Memory → Type 0
HasDigits mem src dst length done =
    ((k : ℕ) → k < length → Digits mem done (src + k) (dst + 2 * k))
    × (done (dst + 2 * length) ≡ 0)
    × ((a : ℕ) → (a < dst) ⊎ (dst + 2 * length < a) → done a ≡ mem a)

HasDigits-terminated :
    (mem made : Memory) (src dst length : ℕ)
    → ((k : ℕ) → k < length → Digits mem made (src + k) (dst + 2 * k))
    → ((a : ℕ) → (a < dst) ⊎ (dst + 2 * length ≤ a) → made a ≡ mem a)
    → HasDigits mem src dst length (write made (dst + 2 * length) 0)
HasDigits-terminated mem made src dst length digits outside =
    let at_end = dst + 2 * length in
    (
      λ k h.
          let (first, second) = digits k h in
          (
            write-other made at_end 0 (dst + 2 * k) (omega arith) ∙ first,
            write-other made at_end 0 (suc (dst + 2 * k)) (omega arith) ∙ second,
          ),
      write-same made at_end 0,
      λ a h. write-other made at_end 0 a (omega arith) ∙ outside a (omega arith),
    )

-- Where `pg_bin2hex` does not refuse, the digits of each byte that was at the source stand in their
-- place at the target, also where the two overlap, a null follows them, and nothing else is written;
-- it refuses only a target that starts before the source and whose digits would reach it.
pub pg_bin2hex-HasDigits :
    (mem : Memory) (src dst length : ℕ)
    → 0 < length
    → ((pg_bin2hex mem src dst length ≡ none) × (dst < src) × (src + length + 1 < dst + 2 * length))
      ⊎ ((done : Memory) × (pg_bin2hex mem src dst length ≡ some done)
          × HasDigits mem src dst length done)
unfolding pg_bin2hex
pg_bin2hex-HasDigits mem src dst length p =
    elim (Bool-cases (ltb dst src && ltb (src + length - 1) (dst + 2 * (length - 1)))) [
      | inl e ↦ inl (rw e, ground arith, ground arith)
      | inr e ↦ elim (Bool-cases (leb src dst && ltb dst (src + length))) [
        | inl f ↦
            let made = backward_digits mem src dst length in
            let behind : src ≤ dst = ground arith in
            inr (
              write made (dst + 2 * length) 0,
              rw (e, f),
              HasDigits-terminated mem made src dst length
                  (λ k h.
                    backward_digits-Digits mem src dst length k (src + k) (dst + 2 * k) h behind
                      refl refl)
                  (backward_digits-outside mem src dst length),
            )
        | inr f ↦
            let made = forward_digits mem src dst length in
            let far : (dst + 2 * length ≤ src + length + 1) ⊎ (src + length ≤ dst) = ground arith in
            inr (
              write made (dst + 2 * length) 0,
              rw (e, f),
              HasDigits-terminated mem made src dst length
                  (λ k h.
                    forward_digits-Digits mem src dst length k (src + k) (dst + 2 * k) h far refl
                      refl)
                  (forward_digits-outside mem src dst length),
            )
      ]
    ]
