-- ===== src/Lib.antt =====
-- A model of parts of the ODBC driver for openGauss (psqlODBC), with theorems about them. The driver
-- is a library: an application calls the ODBC entry points (odbcapi*.c), which reach environments and
-- connections (environ.c, connection.c), statements (statement.c, execute.c, parse.c, convert.c) and
-- results (results.c, qresult.c). Modelled are these parts:
--
-- Keyset (results.c, qresult.h, tuple.h): the rows of a result that the driver itself has changed.
--   `QResult` holds the fields of `QResultClass` that these functions use; a pair of parallel arrays
--   with a counter is a list of entries. Keyset.Navigate is `getNthValid`, which moves over deleted
--   rows; Keyset.Deleted is `AddDeleted`, `RemoveDeleted` and `QR_free_memory`; Keyset.Status is
--   `CommitAdded`, `CommitDeleted` and `CommitUpdated`.
--   Keyset.Updated is `AddUpdated`, `enlargeUpdated`, `RemoveUpdatedAfterTheKey` and `RemoveUpdated`;
--   Keyset.Added is `AddRollback`, `AddAdded`, `enlargeAdded` and `RemoveAdded`, where the key that
--   `KeySetSet` reads from a tuple is an argument; Keyset.Discard is `DiscardRollback`, with
--   `GIdx2KResIdx` of statement.h; Keyset.Cached is `ClearCachedRows`, `ReplaceCachedRows` and
--   `MoveCachedRows`, on cached fields.
-- Unicode (win_unicode.c): `ucs2_to_utf8` and `ucs4_to_utf8` (Unicode), `utf8_to_ucs2_lf` and
--   `utf8_to_ucs4_lf` (Unicode.Decode, one definition for both), `ucs4_to_ucs2_lf` and `ucs2_to_ucs4`
--   (Unicode.Wide). Texts for applications and names from them pass through these.
-- Encoding (multibyte.c, multibyte.h): the character sets of the client, `pg_CS_stat`, and
--   the walk over a string with `encoded_nextchar` that parse.c and convert.c make (Encoding.Walk,
--   for UTF-8 Encoding.Utf8, for sets with codes of two bytes Encoding.TwoBytes).
-- Diag (environ.c, psqlodbc.h): error records and `ER_ReturnError`, which hands a message out in
--   pieces.
-- ConnTable (environ.c): the table of connections that environments share.
-- Convert (convert.c): Convert.Literal is `convert_special_chars`, which puts a text parameter into a
--   literal, with `CC_get_escape` of connection.c; what the server makes of a literal are the definitions
--   `server_reads` of Convert.Literal.Server, which goes by the ranges of first bytes that the sets with
--   codes of two bytes have, and `read_literal` of Convert.Literal.Read, which goes by `pg_CS_stat`. Convert.Hex is `pg_bin2hex`, over a memory that is a
--   function of the address, and `pg_hex2bin`; Convert.Binary is `convert_to_pgbinary` and
--   `convert_from_pgbinary`, where `isalnum` of the C library is a parameter.
--   Convert.Linefeeds is `convert_linefeeds`, Convert.Fraction is `effective_fraction`, and
--   Convert.Numeric is `ResolveNumericParam` and `parse_to_numeric_struct`.
-- Connection (connection.c, connection.h): Connection.Slots is the table of statements;
--   Connection.Transaction is the transaction bits, `CC_on_commit`, `CC_on_abort` and
--   `CC_on_abort_partial`, which `LIBPQ_update_transaction_status` calls on reports of libpq, with
--   the cursors (`CC_clear_cursors`, `QR_set_cursor`) and the objects to discard
--   (`CC_mark_a_object_to_discard`). The commands that
--   these send and the calls of `ProcessRollback` are a list in the order of the calls; the answer to
--   MOVE is a parameter.
-- Strings (misc.c): `strncpy_null`, `make_string`, `my_strcpy`, `my_trim`, `strlcat` and
--   `quote_table`.
-- Parse (parse.c): `getNextToken`, with the walk of `encoded_nextchar` merged with the pointer; the
--   classes of characters of the C library are those of the locale "C". Parse.Written joins it to what
--   the driver writes itself: Convert.Literal and Strings.
-- Types (pgtypes.c, pgtypes.h): the tables from types of the server to types of ODBC and back, their
--   names and sizes, in the build with UNICODE_SUPPORT; Types.Odbc holds the constants that ODBC gives.
--   A `switch` is a list of cases with their labels. Sizes are integers without a bound; what is
--   returned as a 16-bit integer is cut to it.
-- Dsn (dlg_specific.c): `encode`, `decode`, `decode_or_remove_braces` and `makeBracketConnectString`,
--   for values of connection strings. Whether `char` is signed is a parameter.
-- Scan (statement.c): `SC_scanQueryAndCountParams`, with `findTag` of convert.c. A shift of the position is
--   a number of bytes that the loop passes over. Counts are numbers without a bound.
-- Base: names of the libraries, lists and integers over the native numbers.
-- Tests: the functions and theorems at concrete inputs.
--
-- Numbers. Bytes, units and counters are native numbers, and SQLLEN and Int2 values are `ℤ` of
-- Base.Int; 16-bit and 64-bit wrap-around is written out where values may reach it. Functions that
-- mutate an object take it and give it back. An allocation that may fail is a flag of the call.
--
-- Bounds and fuel. The loop `decode` runs on fuel, and gets as much as there are bytes: each round
-- takes one at least. `doubled` has 16 rounds and `doubled_added` 32, after
-- which any Int2 or UInt4 has become 0. `walk` and `fetch_all`, which describe a caller, run on fuel
-- as well; their theorems give the amount that is enough. `fraction_loop`, which does not end for 0,
-- takes its fuel as an argument, and any from the fraction on is enough for another fraction.
-- `digit_loop` counts the digits that may still be put, 39 at most, which is enough for 128 bits.
-- All other loops are recursions over a list or a counter.
--
-- Not modelled: logging; what `CC_send_query` does besides sending a command; the tuples that go with the entries of a keyset; `tolower`, allocation and
-- the destructor of a connection, which are parameters; locks, under which each of the functions runs
-- alone; big-endian machines, on which the conversions swap bytes to the same effect; the other parts
-- of the driver, which call the server, the operating system or the driver manager.
pub mod Base
pub mod Keyset
pub mod Unicode
pub mod Encoding
pub mod Diag
pub mod ConnTable
pub mod Connection
pub mod Convert
pub mod Parse
pub mod Types
pub mod Dsn
pub mod Scan
pub mod Strings
pub mod Tests
