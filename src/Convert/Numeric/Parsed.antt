-- ===== src/Convert/Numeric/Parsed.antt =====
-- What `parse_to_numeric_struct` reads.
use native.Mathlib.Nat.{pow-succ'}
use open_gauss_connector_odb.Base.{
  ℕ, suc, ◌+◌, ◌-◌, ◌*◌, ◌/◌, ◌%◌, ◌^◌, ◌<◌, ◌≤◌, ◌≡◌, refl, ap, ◌∙◌, inl, inr, ◌==◌, Bool, true,
  false, not, ◌||◌, List, [], ◌∷◌, length, replicate, leb, arith, Bool-cases,
}
use open_gauss_connector_odb.Convert.Binary.RoundTrip.{AreBytes}
use open_gauss_connector_odb.Convert.Numeric.{times10, to_binary}

-- The number that bytes stand for, the least significant one first.
abbrev pub value : List ℕ → ℕ
value [] = 0
value (b ∷ bs) = b + 256 * value bs

-- The number that digits stand for, the most significant one first, behind a number read before.
abbrev pub decimal_from : ℕ → List ℕ → ℕ
decimal_from n [] = n
decimal_from n (c ∷ cs) = decimal_from (n * 10 + (c - b'0')) cs

shift :
    (low rest out power b v carry t : ℕ)
    → rest + out * power ≡ v * 10 + t
    → low + 256 * t ≡ b * 10 + carry
    → low + 256 * rest + out * (256 * power) ≡ (b + 256 * v) * 10 + carry
shift low rest out power b v carry t e f =
    let swapped : out * (256 * power) ≡ 256 * (out * power) = grind arith in
    rw swapped (omega arith)

times10-value :
    (carry : ℕ) (bs : List ℕ)
    → value ((times10 carry bs).0) + (times10 carry bs).1 * 256 ^ length bs ≡ value bs * 10 + carry
unfolding times10
times10-value carry [] = omega arith
times10-value carry (b ∷ bs) =
    let t = (b * 10 + carry) / 256 in
    let ih = times10-value t bs in
    let out = (times10 t bs).1 in
    let power : 256 ^ suc (length bs) ≡ 256 * 256 ^ length bs = pow-succ' 256 (length bs) in
    rw power (
      shift ((b * 10 + carry) % 256) (value ((times10 t bs).0)) out (256 ^ length bs) b (value bs)
        carry t ih (omega arith))

times10-length : (carry : ℕ) (bs : List ℕ) → length ((times10 carry bs).0) ≡ length bs
unfolding times10
times10-length carry [] = refl
times10-length carry (b ∷ bs) = ap suc (times10-length ((b * 10 + carry) / 256) bs)

AreBytes-times10 : (carry : ℕ) (bs : List ℕ) → AreBytes ((times10 carry bs).0)
unfolding times10
AreBytes-times10 carry [] = tt
AreBytes-times10 carry (b ∷ bs) = (omega arith, AreBytes-times10 ((b * 10 + carry) / 256) bs)

value-bound : (bs : List ℕ) → AreBytes bs → value bs < 256 ^ length bs
value-bound [] u = omega arith
value-bound (b ∷ bs) (h, u) = rw (pow-succ' 256 (length bs)) (omega (arith, value-bound bs u))

-- With as many bytes as the number has, the bytes are those of the product modulo their range, and
-- there is a carry just where it does not fit.
times10-wraps :
    (carry : ℕ) (bs : List ℕ)
    → length bs ≡ 16
    → (value ((times10 carry bs).0) ≡ (value bs * 10 + carry) % 2 ^ 128)
      × (not ((times10 carry bs).1 == 0) ≡ leb (2 ^ 128) (value bs * 10 + carry))
times10-wraps carry bs size =
    let vs = (times10 carry bs).0 in
    let out = (times10 carry bs).1 in
    let n : length vs ≡ 16 = times10-length carry bs ∙ size in
    let low : value vs < 256 ^ 16 = rw n at (value-bound vs (AreBytes-times10 carry bs)) in
    let whole : value vs + out * 256 ^ 16 ≡ value bs * 10 + carry =
      rw size at (times10-value carry bs) in
    (omega arith, ground arith)

decimal_from-grows : (n : ℕ) (cs : List ℕ) → n ≤ decimal_from n cs
decimal_from-grows n [] = omega arith
decimal_from-grows n (c ∷ cs) = omega (arith, decimal_from-grows (n * 10 + (c - b'0')) cs)

-- The bytes that are left of the number `n`, and whether some of it is lost.
Holds : ℕ → List ℕ → Bool → Type 0
Holds n val overflow =
    (length val ≡ 16) × (value val ≡ n % 2 ^ 128) × (2 ^ 128 ≤ n → overflow ≡ true)

||-left : (a b : Bool) → a ≡ true → (a || b) ≡ true
||-left a b h = ground arith

||-right : (a b : Bool) → b ≡ true → (a || b) ≡ true
||-right a b h = ground arith

Holds-step :
    (n c : ℕ) (val : List ℕ) (overflow : Bool)
    → Holds n val overflow
    → Holds (n * 10 + c) ((times10 c val).0) (overflow || not ((times10 c val).1 == 0))
unfolding Holds
Holds-step n c val overflow (size, same, lost) =
    let (low, high) = times10-wraps c val size in
    let either : 2 ^ 128 ≤ n * 10 + c → (overflow || not ((times10 c val).1 == 0)) ≡ true = λ h.
      elim (Bool-cases (leb (2 ^ 128) n)) [
        | inl e ↦ ||-left overflow _ (lost (ground arith))
        | inr e ↦ ||-right overflow _ (high ∙ ground arith)
      ] in
    (times10-length c val ∙ size, omega arith, λ h. either h)

to_binary-Holds :
    (n : ℕ) (val : List ℕ) (overflow : Bool) (calv : List ℕ)
    → Holds n val overflow
    → Holds
        (decimal_from n calv)
        ((to_binary val overflow calv).0)
        ((to_binary val overflow calv).1)
unfolding to_binary
to_binary-Holds n val overflow [] h = h
to_binary-Holds n val overflow (c ∷ calv) h =
    let d = c - b'0' in
    to_binary-Holds (n * 10 + d) ((times10 d val).0) (overflow || not ((times10 d val).1 == 0)) calv
      (Holds-step n d val overflow h)

-- The flag is raised for no other reason.
to_binary-quiet :
    (n : ℕ) (val : List ℕ) (calv : List ℕ)
    → length val ≡ 16
    → value val ≡ n
    → decimal_from n calv < 2 ^ 128
    → (to_binary val false calv).1 ≡ false
unfolding to_binary
to_binary-quiet n val [] size same h = refl
to_binary-quiet n val (c ∷ calv) size same h =
    let d = c - b'0' in
    let (low, high) = times10-wraps d val size in
    let less = decimal_from-grows (n * 10 + d) calv in
    let none_lost : not ((times10 d val).1 == 0) ≡ false = high ∙ rw same (ground arith) in
    rw (to_binary, none_lost)
      (to_binary-quiet (n * 10 + d) ((times10 d val).0) calv (times10-length d val ∙ size)
        (omega arith) h)

-- The result of the loop: the digits modulo the range of the bytes, with the flag where they do not
-- fit.
pub to_binary-decimal :
    (calv : List ℕ)
    → (length ((to_binary (replicate 16 0) false calv).0) ≡ 16)
      × (value ((to_binary (replicate 16 0) false calv).0) ≡ decimal_from 0 calv % 2 ^ 128)
      × ((to_binary (replicate 16 0) false calv).1 ≡ leb (2 ^ 128) (decimal_from 0 calv))
unfolding Holds
to_binary-decimal calv =
    let (size, low, lost) =
      to_binary-Holds 0 (replicate 16 0) false calv (refl, refl, λ h. absurd (omega arith)) in
    let flag : (to_binary (replicate 16 0) false calv).1 ≡ leb (2 ^ 128) (decimal_from 0 calv) =
      elim (Bool-cases (leb (2 ^ 128) (decimal_from 0 calv))) [
        | inl e ↦ rw e (lost (ground arith))
        | inr e ↦ rw e (to_binary-quiet 0 (replicate 16 0) calv refl refl (ground arith))
      ] in
    (size, low, flag)
