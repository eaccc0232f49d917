-- ===== src/Convert/Literal/Steps.antt =====
-- The steps of the loop of `convert_special_chars`.
use open_gauss_connector_odb.Base.{
  ℕ, suc, ◌<◌, ◌≡◌, refl, ◌==◌, Bool, true, false, not, ◌&&◌, ◌||◌, List, [], ◌∷◌, ◌++◌,
  if◌then◌else◌, arith,
}
use open_gauss_connector_odb.Encoding.{CharacterSet, pg_cs_stat}
use open_gauss_connector_odb.Unicode.Decode.{line_feed, carriage_return}
use open_gauss_connector_odb.Convert.Literal.{
  literal_quote, LiteralMode, is_non_ascii, is_special, put, starts, is_last, special_loop,
}
use open_gauss_connector_odb.Convert.Literal.Marks.{pg_cs_stat_ascii}
use open_gauss_connector_odb.Convert.Literal.Read.{unix_text}

-- One step of the loop at a byte that is not null, with memory behind it.
module _ (m : LiteralMode) (left stat c : ℕ) (mem : List ℕ) (p : 0 < c)
    (more : is_last mem ≡ false) where
  pub loop-non_ascii :
      is_non_ascii (pg_cs_stat stat c m.ccsc) c ≡ true
      → special_loop m (suc left) stat (c ∷ mem)
        ≡ put (c ∷ []) (special_loop m left (pg_cs_stat stat c m.ccsc) mem)
  unfolding special_loop
  loop-non_ascii n = ground arith

  pub loop-dropped :
      is_non_ascii (pg_cs_stat stat c m.ccsc) c ≡ false
      → (m.convlf && (c == carriage_return && starts line_feed mem)) ≡ true
      → special_loop m (suc left) stat (c ∷ mem)
        ≡ special_loop m left (pg_cs_stat stat c m.ccsc) mem
  unfolding special_loop
  loop-dropped n e = ground arith

  pub loop-kept :
      is_non_ascii (pg_cs_stat stat c m.ccsc) c ≡ false
      → (m.convlf && (c == carriage_return && starts line_feed mem)) ≡ false
      → special_loop m (suc left) stat (c ∷ mem)
        ≡ put
            (if is_special m c then c ∷ c ∷ [] else c ∷ [])
            (special_loop m left (pg_cs_stat stat c m.ccsc) mem)
  unfolding special_loop
  loop-kept n e = ground arith

pub is_last-terminated : (bs tail : List ℕ) → is_last (bs ++ 0 ∷ tail) ≡ false
is_last-terminated [] tail = refl
is_last-terminated (b ∷ bs) tail = refl

pub starts-terminated : (bs tail : List ℕ) → starts line_feed (bs ++ 0 ∷ tail) ≡ starts line_feed bs
starts-terminated [] tail = refl
starts-terminated (b ∷ bs) tail = refl

-- At a byte that stands for itself the driver and the server agree which bytes are doubled.
pub is_special-agrees :
    (m : LiteralMode) (c : ℕ)
    → m.double_special ≡ true
    → 0 < c
    → is_special m c ≡ (c == literal_quote || (not (m.escape == 0) && c == m.escape))
is_special-agrees m c d p = ground arith

pub is_non_ascii-false : (stat c : ℕ) → is_non_ascii stat c ≡ false → (stat ≡ 0) × (c < 0x80)
is_non_ascii-false stat c n = ground arith

pub unix_text-dropped :
    (convlf : Bool) (set : CharacterSet) (stat c : ℕ) (bs : List ℕ)
    → convlf ≡ true
    → c ≡ carriage_return
    → pg_cs_stat stat c set ≡ 0
    → unix_text convlf set stat (c ∷ line_feed ∷ bs) ≡ line_feed ∷ unix_text convlf set 0 bs
unix_text-dropped convlf set stat c bs lf here z =
    rw (z, pg_cs_stat_ascii line_feed set (omega arith)) (ground arith)
