-- ===== src/Convert/Hex.antt =====
-- Bytes as hexadecimal digits: `pg_bin2hex`, in memory that source and target may share, and
-- `pg_hex2bin` (convert.c).
pub mod Overlap
use open_gauss_connector_odb.Base.{
  ℕ, zero, suc, ◌+◌, ◌-◌, ◌*◌, ◌/◌, ◌%◌, ◌==◌, Bool, true, false, ◌&&◌, List, [], ◌∷◌, Option, none,
  some, ltb, leb, if◌then◌else◌,
}

-- `hextbl`
abbrev pub hextbl : ℕ → ℕ
hextbl d = if ltb d 10 then b'0' + d else b'A' + (d - 10)

-- The digits of bytes, as they are put into another buffer.
abbrev pub hex_digits : List ℕ → List ℕ
hex_digits [] = []
hex_digits (chr ∷ bs) = hextbl (chr / 16) ∷ hextbl (chr % 16) ∷ hex_digits bs

-- The value of a digit, in the low 8 bits of an `int`; the character that is no digit is not found
-- out.
abbrev pub hex_value : ℕ → ℕ
hex_value chr =
    if leb b'a' chr && leb chr b'f'
    then chr - b'a' + 10
    else if leb b'A' chr && leb chr b'F'
    then chr - b'A' + 10
    else (chr + 208) % 256

-- `pg_hex2bin`, of `length` characters: the bytes before the null that it puts. The first digit of
-- a pair alone is overwritten by that null.
unfoldable pub pg_hex2bin : List ℕ → List ℕ
pg_hex2bin [] = []
pg_hex2bin (a ∷ []) = []
pg_hex2bin (a ∷ b ∷ src) =
    let rest = pg_hex2bin src in
    if a == 0 then [] else if b == 0 then [] else (hex_value a * 16 + hex_value b) % 256 ∷ rest

-- A memory, and a write to it.
abbrev pub Memory : Type 0
Memory = ℕ → ℕ

abbrev pub write : Memory → ℕ → ℕ → Memory
write mem at v a = if a == at then v else mem a

-- The digits of a byte, the first one written first, and written last.
abbrev pub put_pair : Memory → ℕ → ℕ → Memory
put_pair mem dst chr = write (write mem dst (hextbl (chr / 16))) (suc dst) (hextbl (chr % 16))

abbrev pub put_pair_back : Memory → ℕ → ℕ → Memory
put_pair_back mem dst chr = write (write mem (suc dst) (hextbl (chr % 16))) dst (hextbl (chr / 16))

-- The loop from the front, with `count` bytes left.
unfoldable pub forward_digits : Memory → ℕ → ℕ → ℕ → Memory
forward_digits mem src dst zero = mem
forward_digits mem src dst (suc count) =
    forward_digits (put_pair mem dst (mem src)) (suc src) (suc (suc dst)) count

-- The loop from the back, with `count` bytes left.
unfoldable pub backward_digits : Memory → ℕ → ℕ → ℕ → Memory
backward_digits mem src dst zero = mem
backward_digits mem src dst (suc count) =
    backward_digits (put_pair_back mem (dst + 2 * count) (mem (src + count))) src dst count

-- `pg_bin2hex`, of at least one byte: `none` is the result -1, before anything is written.
unfoldable pub pg_bin2hex : Memory → ℕ → ℕ → ℕ → Option Memory
pg_bin2hex mem src dst length =
    if ltb dst src && ltb (src + length - 1) (dst + 2 * (length - 1))
    then none
    else if leb src dst && ltb dst (src + length)
    then some (write (backward_digits mem src dst length) (dst + 2 * length) 0)
    else some (write (forward_digits mem src dst length) (dst + 2 * length) 0)
