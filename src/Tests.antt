-- ===== src/Tests.antt =====
-- The functions at concrete inputs, and the theorems applied there.
pub mod Transactions
pub mod Cached
pub mod Convert
pub mod Strings
pub mod Numeric
pub mod Texts
pub mod Connection
pub mod Parse
pub mod Types
pub mod Dsn
pub mod Scan
use Prim.Native.Nat.{bit_and}
use open_gauss_connector_odb.Base.{
  ℕ, ◌-◌, ◌≡◌, ◌^◌, ◌≢◌, refl, inl, inr, true, false, List, [], ◌∷◌, ◌++◌, none, some, arith,
}
use open_gauss_connector_odb.Base.Int.{ℤ, pos, negsuc, ◌+ℤ◌, ◌-ℤ◌, to_i16, to_i64}
use open_gauss_connector_odb.Keyset.{KeySet, Entry, QResult}
use open_gauss_connector_odb.Keyset.Navigate.{
  next, get_nth_valid, row_limit, forward_skip, nth_of_undeleted, deleted_indexes,
}
use open_gauss_connector_odb.Keyset.Navigate.Forward.{IsNthForward, get_nth_valid-IsNthForward}
use open_gauss_connector_odb.Keyset.Status.{
  commit_status, commit_updated_status, discard_status, commit_status-agree, pending_bits,
}
use open_gauss_connector_odb.Keyset.Deleted.{
  add_deleted, remove_deleted, insert_deleted, deleted_entry,
}
use open_gauss_connector_odb.Keyset.Deleted.Order.{
  IsSorted, add_deleted-IsSorted, remove_deleted-add_deleted,
}
use open_gauss_connector_odb.Unicode.{
  ucs2_to_utf8, ucs4_to_utf8, ucs2_loop, code_len, ucs2_len, ucs4_loop, converted, code_bytes,
  bytes_of_pair, bytes2, bytes4,
}
use open_gauss_connector_odb.Unicode.Decode.{ucs2, ucs4, utf8_to_wide_lf}
use open_gauss_connector_odb.Unicode.RoundTrip.{utf8_to_wide_lf-ucs2_to_utf8, Encodes, single, end}
use open_gauss_connector_odb.Unicode.Wide.{
  ucs4_to_ucs2_lf, ucs2_to_ucs4, ucs4_to_ucs2_loop, surrogates_of, ucs2_to_ucs4-ucs4_to_ucs2_lf,
}
use open_gauss_connector_odb.Unicode.Capacity.{Fits, ucs2_to_utf8-Fits}
use open_gauss_connector_odb.Encoding.{sjis, utf8, encoded_str_constr, pg_cs_stat, pg_mb_maxlen}
use open_gauss_connector_odb.Encoding.Walk.{walk}
use open_gauss_connector_odb.Encoding.TwoBytes.{walk-Text, Text, plain, wide, finished}
use open_gauss_connector_odb.Encoding.Utf8.{walk-ucs2_to_utf8, Marks}
use open_gauss_connector_odb.Diag.{ErrorInfo, er_constructor}
use open_gauss_connector_odb.Diag.Pages.{fetch_all, fetch_all-er_constructor}
use open_gauss_connector_odb.ConnTable.{
  Table, en_add_connection, en_remove_connection, en_destructor,
}
use open_gauss_connector_odb.ConnTable.Registered.{
  registered, Inserted, en_remove_connection-en_add_connection,
}
use open_gauss_connector_odb.ConnTable.Sweep.{others, en_destructor-others}

abbrev key_of : ℕ → KeySet
key_of n = record { status = 0; offset = n; blocknum = 7; oid = 0 }

abbrev gone : ℕ → Entry
gone n = record { index = pos n; key = record (key_of n) { status = 0x81 } }

-- Six rows, of which 1 and 3 are deleted.
abbrev some_rows : QResult
some_rows = record {
  conn = record { in_trans = true; result_uncommitted = false };
  num_total_read = 6;
  reached_eof = true;
  has_cursor = true;
  no_memory = false;
  keyset = [];
  rb_alloc = 0;
  rb_count = 0;
  rollback = none;
  ad_alloc = 0;
  ad_count = 0;
  added_keyset = [];
  has_added_tuples = false;
  dl_alloc = 10;
  dl_count = 2;
  deleted = some (gone 1 ∷ gone 3 ∷ []);
  up_alloc = 10;
  up_count = 0;
  updated = [];
  has_updated_tuples = true;
}

abbrev entries : List Entry
entries = gone 1 ∷ gone 3 ∷ []

-- The second row from row 1 on that is not deleted is row 4.
second_row : get_nth_valid some_rows (pos 1) next 2 ≡ some (pos 2, pos 4)
unfolding get_nth_valid deleted_indexes nth_of_undeleted forward_skip to_i64 ◌+ℤ◌ ◌-ℤ◌
second_row = refl

-- Far from row 2 the position wraps around, and a row before the first is found.
wrapped_row :
    get_nth_valid some_rows (pos 2) next (2 ^ 63 - 1) ≡ some (pos (2 ^ 63 - 1), negsuc (2 ^ 63 - 1))
unfolding get_nth_valid deleted_indexes nth_of_undeleted forward_skip to_i64 ◌+ℤ◌ ◌-ℤ◌
wrapped_row = refl

get_nth_valid-IsNthForward_example :
    (out : ℤ × ℤ) × (get_nth_valid some_rows (pos 1) next 2 ≡ some out)
    × IsNthForward (pos 1) 2 (row_limit some_rows) (pos 1 ∷ pos 3 ∷ []) out
unfolding deleted_indexes
get_nth_valid-IsNthForward_example =
    get_nth_valid-IsNthForward some_rows (pos 1) 2 (pos 1 ∷ pos 3 ∷ []) refl refl refl (omega arith)
      (omega arith) (omega arith) (omega arith) (omega arith) (omega arith)

entries-IsSorted : IsSorted some_rows entries
entries-IsSorted = record {
  present = refl;
  counted = refl;
  few = omega arith;
  rows = omega arith;
  ascending = omega arith;
}

remove_deleted-add_deleted_example :
    ((remove_deleted (add_deleted true true some_rows 2 (key_of 2)).0 (pos 2)).deleted
      ≡ some entries)
    × ((remove_deleted (add_deleted true true some_rows 2 (key_of 2)).0 (pos 2)).dl_count ≡ 2)
remove_deleted-add_deleted_example =
    remove_deleted-add_deleted some_rows entries 2 (key_of 2) refl entries-IsSorted (omega arith)
      (omega arith) (refl, (refl, tt))

add_deleted-IsSorted_example :
    IsSorted
      (add_deleted true true some_rows 2 (key_of 2)).0
      (insert_deleted 2 (deleted_entry true 2 (key_of 2)) entries)
    × ((add_deleted true true some_rows 2 (key_of 2)).1 ≡ true)
add_deleted-IsSorted_example =
    add_deleted-IsSorted some_rows entries 2 (key_of 2) refl (inl entries-IsSorted) (omega arith)
      (omega arith) (inl (omega arith), (inr (omega arith), tt))

commit_status-agree_example :
    (commit_status 0x3a ≡ discard_status 0x3a)
    × (commit_updated_status 0x3a ≡ discard_status 0x3a)
    × (bit_and (commit_status 0x3a) pending_bits ≡ 0)
commit_status-agree_example = commit_status-agree 0x3a (omega arith)

-- "A", a line feed, e with an acute accent, the euro sign and an emoji
abbrev text : List ℕ
text = 0x41 ∷ 0x0a ∷ 0xe9 ∷ 0x20ac ∷ 0xd83d ∷ 0xde00 ∷ []

abbrev text_utf8 : List ℕ
text_utf8 = 0x41 ∷ 0x0a ∷ 0xc3 ∷ 0xa9 ∷ 0xe2 ∷ 0x82 ∷ 0xac ∷ 0xf0 ∷ 0x9f ∷ 0x98 ∷ 0x80 ∷ []

abbrev same : ℕ → ℕ
same c = c

text_made : ucs2_to_utf8 same (some text) (pos 6) false ≡ converted text_utf8 11
unfolding ucs2_to_utf8 code_len ucs2_len ucs2_loop code_bytes bytes_of_pair
text_made = refl

utf8_to_wide_lf-ucs2_to_utf8_example :
    utf8_to_wide_lf ucs2 (some (text_utf8 ++ 0 ∷ [])) (pos 11) true 8 true
    ≡ some
        (record { rtn = 7; buffer = 0x41 ∷ 0x0d ∷ 0x0a ∷ 0xe9 ∷ 0x20ac ∷ 0xd83d ∷ 0xde00 ∷ 0 ∷ [] })
utf8_to_wide_lf-ucs2_to_utf8_example =
    utf8_to_wide_lf-ucs2_to_utf8 same text text_utf8 11 8 true true (omega arith) text_made

abbrev codes : List ℕ
codes = 0x41 ∷ 0x20ac ∷ 0x1f600 ∷ []

abbrev codes_utf8 : List ℕ
codes_utf8 = 0x41 ∷ 0xe2 ∷ 0x82 ∷ 0xac ∷ 0xf0 ∷ 0x9f ∷ 0x98 ∷ 0x80 ∷ []

codes_made : ucs4_to_utf8 same (some codes) (pos 3) false ≡ converted codes_utf8 8
unfolding ucs4_to_utf8 ucs4_loop code_bytes bytes4
codes_made = refl

codes_halved : ucs4_to_ucs2_lf codes (pos 3) 9 false ≡ (4, 0x41 ∷ 0x20ac ∷ 0xd83d ∷ 0xde00 ∷ 0 ∷ [])
unfolding ucs4_to_ucs2_lf ucs4_to_ucs2_loop surrogates_of
codes_halved = refl

ucs2_to_ucs4-ucs4_to_ucs2_lf_example :
    ucs2_to_ucs4 (0x41 ∷ 0x20ac ∷ 0xd83d ∷ 0xde00 ∷ 0 ∷ []) (pos 4) 5 ≡ some (3, codes ++ 0 ∷ [])
ucs2_to_ucs4-ucs4_to_ucs2_lf_example =
    ucs2_to_ucs4-ucs4_to_ucs2_lf codes 9 5 4 (0x41 ∷ 0x20ac ∷ 0xd83d ∷ 0xde00 ∷ 0 ∷ [])
      (ground arith) codes_halved (omega arith) (omega arith)

ucs2_to_utf8-Fits_example : Fits 25 (ucs2_to_utf8 same (some text) (pos 6) false)
ucs2_to_utf8-Fits_example = ucs2_to_utf8-Fits same text (pos 6) false (omega arith)

-- The second byte of this code of Shift JIS is that of a backslash.
abbrev sjis_text : List ℕ
sjis_text = 0x41 ∷ 0x95 ∷ 0x5c ∷ 0x27 ∷ []

sjis_text-Text : Text sjis sjis_text (0 ∷ 2 ∷ 1 ∷ 0 ∷ [])
sjis_text-Text = plain refl (wide refl (omega arith) (plain refl finished))

walk-Text_example :
    walk 5 (encoded_str_constr sjis (sjis_text ++ 0 ∷ [])) ≡ some (0 ∷ 2 ∷ 1 ∷ 0 ∷ [])
unfolding pg_mb_maxlen
walk-Text_example = walk-Text sjis sjis_text (0 ∷ 2 ∷ 1 ∷ 0 ∷ []) refl sjis_text-Text

walk-ucs2_to_utf8_example :
    (ss : List ℕ) × (walk 12 (encoded_str_constr utf8 (text_utf8 ++ 0 ∷ [])) ≡ some ss)
    × Marks text_utf8 ss
walk-ucs2_to_utf8_example = walk-ucs2_to_utf8 same text text_utf8 11 (omega arith) text_made

abbrev message : List ℕ
message = 0x61 ∷ 0x62 ∷ 0x63 ∷ 0x64 ∷ 0x65 ∷ []

abbrev failure : ErrorInfo
failure = record {
  status = pos 7;
  errorsize = pos 5;
  recsize = negsuc 0;
  errorpos = pos 0;
  sqlstate = [];
  message = message;
}

failure_made : er_constructor (pos 7) message ≡ some failure
unfolding er_constructor to_i16
failure_made = refl

fetch_all-er_constructor_example : fetch_all 7 failure 0 3 false ≡ some message
fetch_all-er_constructor_example =
    fetch_all-er_constructor (pos 7) message failure 2 false failure_made (omega arith)
      (omega arith)

-- Three slots, with connections 11 and 12 of environments 1 and 2.
abbrev table : Table
table = record { conns = some 11 ∷ none ∷ some 12 ∷ []; henv = λ c. c - 10; executing = λ c. false }

en_remove_connection-en_add_connection_example :
    ((en_remove_connection (en_add_connection true table 2 13).0 13).1 ≡ true)
    × (registered (en_remove_connection (en_add_connection true table 2 13).0 13).0.conns
        ≡ 11 ∷ 12 ∷ [])
en_remove_connection-en_add_connection_example =
    en_remove_connection-en_add_connection table 2 13 (ground arith) refl

en_destructor-others_example :
    ((en_destructor (λ c. true) table 1).1 ≡ true)
    × (registered (en_destructor (λ c. true) table 1).0.conns ≡ 12 ∷ [])
unfolding others
en_destructor-others_example = en_destructor-others (λ c. true) (λ c. refl) table 1
