-- ===== src/Tests/Scan.antt =====
-- `SC_scanQueryAndCountParams` at concrete inputs.
use open_gauss_connector_odb.Base.{ℕ, ◌≡◌, refl, true, false, Bool, List, [], ◌∷◌, Option, some}
use open_gauss_connector_odb.Encoding.{sjis, utf8, pg_cs_stat}
use open_gauss_connector_odb.Convert.Literal.{LiteralMode}
use open_gauss_connector_odb.Scan.{
  ScanMode, scan_loop, scan_query_and_count_params, ascii_step, plain_step, literal_step,
  comment_step, find_tag,
}

abbrev mode : Option Bool → Bool → ScanMode
mode o has_next_cmd = record { ccsc = utf8; conforming = o; has_next_cmd = has_next_cmd }

-- `{?=f('?',?)} --?`
abbrev call : List ℕ
call =
    b'{' ∷ b'?' ∷ b'=' ∷ b'f' ∷ b'(' ∷ b'\'' ∷ b'?' ∷ b'\'' ∷ b',' ∷ b'?' ∷ b')' ∷ b'}' ∷ b' '
    ∷ b'-' ∷ b'-' ∷ b'?' ∷ []

call_params : (scan_query_and_count_params (mode (some true) false) 0 call).num_p ≡ 2
unfolding scan_query_and_count_params scan_loop ascii_step plain_step literal_step pg_cs_stat
call_params = refl

call_returns : (scan_query_and_count_params (mode (some true) false) 0 call).proc_return ≡ true
unfolding scan_query_and_count_params scan_loop ascii_step plain_step literal_step pg_cs_stat
call_returns = refl

-- `a;/*?;*/b`: the end of the first of two statements.
two_statements :
    (scan_query_and_count_params
      (mode (some true) true)
      0
      (b'a' ∷ b';' ∷ b'/' ∷ b'*' ∷ b'?' ∷ b'*' ∷ b'/' ∷ b'b' ∷ [])).next_cmd
    ≡ some 1
unfolding scan_query_and_count_params scan_loop ascii_step plain_step comment_step pg_cs_stat
two_statements = refl

-- `E'a''\'?'`: the question mark is in the literal, but it is counted.
escape_forgotten :
    (scan_query_and_count_params
      (mode (some true) false)
      0
      (b'E' ∷ b'\'' ∷ b'a' ∷ b'\'' ∷ b'\'' ∷ b'\\' ∷ b'\'' ∷ b'?' ∷ b'\'' ∷ [])).num_p
    ≡ 1
unfolding scan_query_and_count_params scan_loop ascii_step plain_step literal_step pg_cs_stat
escape_forgotten = refl

-- `$a_b$?$a_b$`: the question mark is in a dollar quote, but it is counted.
tag_missed :
    (scan_query_and_count_params (mode (some true) false) 0 (
      b'$' ∷ b'a' ∷ b'_' ∷ b'b' ∷ b'$' ∷ b' ' ∷ b'?' ∷ b'$' ∷ b'a' ∷ b'_' ∷ b'b' ∷ b'$' ∷ [])).num_p
    ≡ 1
unfolding scan_query_and_count_params scan_loop ascii_step plain_step find_tag pg_cs_stat
tag_missed = refl

abbrev scanned_mode : LiteralMode
scanned_mode = record { convlf = true; double_special = true; ccsc = sjis; escape = 0 }

abbrev scanned_text : List ℕ
scanned_text = 0x83 ∷ b'\\' ∷ b'\'' ∷ b'?' ∷ b';' ∷ []
