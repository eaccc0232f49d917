-- ===== src/Convert/Literal/Marks.antt =====
-- Facts about `pg_CS_stat` at bytes below 0x80, for every character set.
use open_gauss_connector_odb.Base.{ℕ, ◌<◌, ◌≡◌, arith}
use open_gauss_connector_odb.Encoding.{CharacterSet, utf8, pg_cs_stat}
use open_gauss_connector_odb.Unicode.Decode.{line_feed, carriage_return}

-- Where a character starts, a byte below 0x80 stands for itself.
pub pg_cs_stat_ascii : (c : ℕ) (set : CharacterSet) → c < 0x80 → pg_cs_stat 0 c set ≡ 0
unfolding pg_cs_stat
pg_cs_stat_ascii c utf8 h = ground arith
pg_cs_stat_ascii c _ h = ground arith

-- A line feed and a carriage return are treated alike.
pub pg_cs_stat_newline :
    (stat : ℕ) (set : CharacterSet)
    → pg_cs_stat stat line_feed set ≡ pg_cs_stat stat carriage_return set
unfolding pg_cs_stat
pg_cs_stat_newline stat utf8 = ground arith
pg_cs_stat_newline stat _ = ground arith
