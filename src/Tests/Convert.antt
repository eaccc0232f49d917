-- ===== src/Tests/Convert.antt =====
-- Values of queries and strings at concrete inputs.
use open_gauss_connector_odb.Base.{
  ℕ, ◌+◌, ◌*◌, ◌<◌, ◌≡◌, ◌⊎◌, refl, Bool, true, false, ◌||◌, ◌&&◌, leb, List, [], ◌∷◌, ◌++◌, none,
  some, arith,
}
use open_gauss_connector_odb.Encoding.{sjis, utf8, pg_cs_stat, pg_mb_maxlen}
use open_gauss_connector_odb.Convert.Literal.{
  LiteralMode, literal_quote, convert_special_chars, special_loop,
}
use open_gauss_connector_odb.Convert.Literal.Server.{
  server_reads, convert_special_chars-server_reads,
}
use open_gauss_connector_odb.Encoding.TwoBytes.{Text, plain, wide, finished}
use open_gauss_connector_odb.Convert.Literal.Read.{read_literal}
use open_gauss_connector_odb.Convert.Hex.{Memory, pg_bin2hex, pg_hex2bin}
use open_gauss_connector_odb.Convert.Hex.Overlap.{HasDigits, pg_bin2hex-HasDigits}
use open_gauss_connector_odb.Convert.Binary.{
  BinaryMode, convert_to_pgbinary, convert_from_pgbinary, octal_text, conv_to_octal2, from_text,
}
use open_gauss_connector_odb.Convert.Binary.InLiteral.{convert_to_pgbinary-read_literal}

-- A text in Shift JIS, with a character whose second byte is that of a backslash, a quote, a
-- backslash, and a line break.
abbrev sjis_mode : LiteralMode
sjis_mode = record { convlf = true; double_special = true; ccsc = sjis; escape = b'\\' }

abbrev sjis_text : List ℕ
sjis_text = 0x83 ∷ b'\\' ∷ b'\'' ∷ b'\\' ∷ 13 ∷ 10 ∷ b'A' ∷ []

sjis_doubled :
    special_loop sjis_mode 7 0 (sjis_text ++ 0 ∷ [])
    ≡ some (0x83 ∷ b'\\' ∷ b'\'' ∷ b'\'' ∷ b'\\' ∷ b'\\' ∷ 10 ∷ b'A' ∷ [])
unfolding special_loop pg_cs_stat
sjis_doubled = refl

-- The same without conversion of the line break.
abbrev kept_mode : LiteralMode
kept_mode = record sjis_mode { convlf = false }

sjis_text-Text : Text sjis sjis_text (2 ∷ 1 ∷ 0 ∷ 0 ∷ 0 ∷ 0 ∷ 0 ∷ [])
sjis_text-Text =
    wide refl (omega arith)
      (plain refl (plain refl (plain refl (plain refl (plain refl finished)))))

convert_special_chars-server_reads_example :
    (out : List ℕ) × (convert_special_chars kept_mode [] (sjis_text ++ 0 ∷ []) (some 7)
      ≡ some ([] ++ out))
    × (server_reads sjis false (out ++ literal_quote ∷ b';' ∷ []) ≡ some (sjis_text, b';' ∷ []))
unfolding pg_mb_maxlen
convert_special_chars-server_reads_example =
    convert_special_chars-server_reads kept_mode false [] sjis_text _ [] (b';' ∷ []) refl refl refl
      refl refl sjis_text-Text

-- Three bytes at the end of the memory of their digits, as they are converted in place.
abbrev shared : Memory
shared a = 0xa0 + a

pg_bin2hex-HasDigits_example :
    ((pg_bin2hex shared 4 4 3 ≡ none) × (4 < 4) × (4 + 3 + 1 < 4 + 2 * 3))
    ⊎ ((done : Memory) × (pg_bin2hex shared 4 4 3 ≡ some done) × HasDigits shared 4 4 3 done)
pg_bin2hex-HasDigits_example = pg_bin2hex-HasDigits shared 4 4 3 (omega arith)

ascii_alnum : ℕ → Bool
ascii_alnum c = leb b'0' c && leb c b'9' || leb b'A' c && leb c b'Z' || leb b'a' c && leb c b'z'

abbrev bind_octal : BinaryMode
bind_octal = record { bind_request = true; hex_bin_format = false; escape_in_literal = b'\\' }

abbrev some_bytes : List ℕ
some_bytes = 0 ∷ b'a' ∷ b'\\' ∷ b'\'' ∷ 255 ∷ []

bytes_in_octal :
    convert_to_pgbinary ascii_alnum bind_octal (0 ∷ b'a' ∷ 255 ∷ [])
    ≡ b'\\' ∷ b'0' ∷ b'0' ∷ b'0' ∷ b'a' ∷ b'\\' ∷ b'3' ∷ b'7' ∷ b'7' ∷ []
unfolding convert_to_pgbinary octal_text conv_to_octal2 ascii_alnum
bytes_in_octal = refl

-- The value `\x` followed by an odd digit loses that digit.
odd_digits :
    convert_from_pgbinary (b'\\' ∷ b'x' ∷ b'4' ∷ b'1' ∷ b'4' ∷ 0 ∷ []) false ≡ some (0x41 ∷ [])
unfolding convert_from_pgbinary from_text pg_hex2bin
odd_digits = refl

abbrev literal_octal : BinaryMode
literal_octal = record { bind_request = false; hex_bin_format = false; escape_in_literal = b'\\' }

convert_to_pgbinary-read_literal_example :
    (value : List ℕ) × (read_literal utf8 b'\\' 0
        (convert_to_pgbinary ascii_alnum literal_octal some_bytes ++ literal_quote ∷ b')' ∷ [])
      ≡ some (value, b')' ∷ []))
    × (convert_from_pgbinary (value ++ 0 ∷ []) false ≡ some some_bytes)
unfolding ascii_alnum
convert_to_pgbinary-read_literal_example =
    convert_to_pgbinary-read_literal utf8 (some false) ascii_alnum literal_octal some_bytes []
      (b')' ∷ []) (refl, refl, refl) refl refl (omega arith) refl
