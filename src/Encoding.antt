-- ===== src/Encoding.antt =====
-- Character sets of the client (multibyte.h, multibyte.c): their names, and the machine that says
-- for each byte of a string whether it stands for itself.
pub mod Walk
pub mod TwoBytes
pub mod Utf8
use open_gauss_connector_odb.Base.{
  ℕ, zero, suc, ◌+◌, ◌-◌, ◌≡◌, ◌==◌, Bool, true, false, not, ◌&&◌, ◌||◌, List, [], ◌∷◌, Option,
  none, some, get_elem?, ltb, leb, if◌then◌else◌,
}
use open_gauss_connector_odb.Base.Int.{ℤ, pos, negsuc, ◌+ℤ◌}

-- The codes of the enumeration in multibyte.h.
pub data CharacterSet : Type 0 where
  sql_ascii euc_jp euc_cn euc_kr euc_tw johab utf8 mule_internal : CharacterSet
  latin1 latin2 latin3 latin4 latin5 latin6 latin7 latin8 latin9 latin10 : CharacterSet
  win1256 win1258 win866 win874 koi8r win1251 win1252 : CharacterSet
  iso_8859_5 iso_8859_6 iso_8859_7 iso_8859_8 : CharacterSet
  win1250 win1253 win1254 win1255 win1257 : CharacterSet
  euc_jis_2004 sjis big5 gbk uhc gb18030 shift_jis_2004 other : CharacterSet

-- `pg_mb_maxlen`
unfoldable pub pg_mb_maxlen : CharacterSet → ℕ
pg_mb_maxlen utf8 = 4
pg_mb_maxlen euc_tw = 4
pg_mb_maxlen euc_jis_2004 = 3
pg_mb_maxlen euc_jp = 3
pg_mb_maxlen gb18030 = 3
pg_mb_maxlen shift_jis_2004 = 2
pg_mb_maxlen sjis = 2
pg_mb_maxlen big5 = 2
pg_mb_maxlen gbk = 2
pg_mb_maxlen uhc = 2
pg_mb_maxlen euc_cn = 2
pg_mb_maxlen euc_kr = 2
pg_mb_maxlen johab = 2
pg_mb_maxlen _ = 1

abbrev within : ℕ → ℕ → ℕ → Bool
within lo hi c = leb lo c && leb c hi

utf8_stat : ℕ → ℕ → ℕ
utf8_stat stat c =
    if ltb stat 2 && leb 0x80 c
    then (if leb 0xfc c
        then 6
        else if leb 0xf8 c
        then 5
        else if leb 0xf0 c
        then 4
        else if leb 0xe0 c
        then 3
        else if leb 0xc0 c
        then 2
        else stat)
    else if leb 2 stat && ltb 0x7f c
    then stat - 1
    else 0

-- A set of codes of two bytes, the first of which passes the test.
lead_trail : Bool → ℕ → ℕ
lead_trail lead stat = if ltb stat 2 && lead then 2 else if stat == 2 then 1 else 0

shift_jis_2004_stat : ℕ → ℕ → ℕ
shift_jis_2004_stat stat c =
    if ltb stat 2 && within 0x81 0x9f c
    then 2
    else if ltb stat 2 && within 0xe0 0xef c
    then 2
    else if ltb stat 2 && within 0xf0 0xfc c
    then 2
    else if stat == 2
    then 1
    else 0

euc_jp_stat : ℕ → ℕ → ℕ
euc_jp_stat stat c =
    if ltb stat 3 && c == 0x8f
    then 3
    else if not (stat == 2) && (c == 0x8e || ltb 0xa0 c)
    then 2
    else if stat == 2
    then 1
    else 0

euc_tw_stat : ℕ → ℕ → ℕ
euc_tw_stat stat c =
    if ltb stat 4 && c == 0x8e
    then 4
    else if stat == 4 && ltb 0xa0 c
    then 3
    else if (stat == 3 || ltb stat 2) && ltb 0xa0 c
    then 2
    else if stat == 2
    then 1
    else 0

gb18030_stat : ℕ → ℕ → ℕ
gb18030_stat stat c =
    if ltb stat 2 && ltb 0x80 c
    then 2
    else if stat == 2
    then (if within 0x30 0x39 c then 3 else 1)
    else if stat == 3
    then (if within 0x30 0x39 c then 1 else 3)
    else 0

-- The `switch` of `pg_CS_stat`.
stat_of : CharacterSet → ℕ → ℕ → ℕ
stat_of utf8 stat c = utf8_stat stat c
stat_of shift_jis_2004 stat c = shift_jis_2004_stat stat c
stat_of sjis stat c = lead_trail (ltb 0x80 c && not (ltb 0x9f c && ltb c 0xe0)) stat
stat_of big5 stat c = lead_trail (ltb 0xa0 c) stat
stat_of gbk stat c = lead_trail (ltb 0x7f c) stat
stat_of uhc stat c = lead_trail (ltb 0x7f c) stat
stat_of euc_jis_2004 stat c = euc_jp_stat stat c
stat_of euc_jp stat c = euc_jp_stat stat c
stat_of euc_cn stat c = lead_trail (ltb 0xa0 c) stat
stat_of euc_kr stat c = lead_trail (ltb 0xa0 c) stat
stat_of johab stat c = lead_trail (ltb 0xa0 c) stat
stat_of euc_tw stat c = euc_tw_stat stat c
stat_of gb18030 stat c = gb18030_stat stat c
stat_of _ stat c = 0

-- `pg_CS_stat`
unfoldable pub pg_cs_stat : ℕ → ℕ → CharacterSet → ℕ
unfolding stat_of utf8_stat shift_jis_2004_stat lead_trail euc_jp_stat euc_tw_stat gb18030_stat
pg_cs_stat stat character set = stat_of set (if character == 0 then 0 else stat) character

-- `encoded_str`: the memory at `encstr`, with its terminating null.
pub record EncodedStr : Type 0 where
  pub ccsc : CharacterSet
  pub encstr : List ℕ
  pub pos : ℤ
  pub ccst : ℕ

-- `encoded_str_constr`
unfoldable pub encoded_str_constr : CharacterSet → List ℕ → EncodedStr
encoded_str_constr ccsc str = record { ccsc = ccsc; encstr = str; pos = negsuc 0; ccst = 0 }

-- Steps to the byte at `n`; `none` is a read outside the memory.
step_to : EncodedStr → ℕ → Option (EncodedStr × ℕ)
step_to e n = elim (get_elem? e.encstr n) [
  | none ↦ none
  | some chr ↦ some (record e { pos = ℤ.pos n; ccst = pg_cs_stat e.ccst chr e.ccsc }, chr)
]

next_from : EncodedStr → ℤ → Option (EncodedStr × ℕ)
unfolding step_to
next_from e (ℤ.pos n) = elim (get_elem? e.encstr n) [
  | none ↦ none
  | some chr ↦ if chr == 0 then some (e, 0) else step_to e (suc n)
]
next_from e (negsuc zero) = step_to e 0
next_from e (negsuc (suc _)) = none

-- `encoded_nextchar`: the byte is returned.
unfoldable pub encoded_nextchar : EncodedStr → Option (EncodedStr × ℕ)
unfolding next_from
encoded_nextchar e = next_from e e.pos

-- `encoded_position_shift`
pub encoded_position_shift : EncodedStr → ℕ → EncodedStr
encoded_position_shift e shift = record e { pos = e.pos +ℤ ℤ.pos shift }

-- `encoded_byte_check`
pub encoded_byte_check : EncodedStr → ℕ → Option (EncodedStr × ℕ)
encoded_byte_check e abspos = step_to e abspos

-- `MBCS_NON_ASCII`, at the byte `chr` that the string stands on.
abbrev pub mbcs_non_ascii : EncodedStr → ℕ → Bool
mbcs_non_ascii e chr = not (e.ccst == 0) || leb 0x80 chr
