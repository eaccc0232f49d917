-- ===== src/Types/Odbc.antt =====
-- The constants of ODBC that the tables name, with the values that its specification gives them. A type
-- of SQL and a type of C may have the same value.
use open_gauss_connector_odb.Base.Int.{ℤ, pos, negsuc}

abbrev pub sql_unknown_type : ℤ
sql_unknown_type = pos 0

abbrev pub sql_char : ℤ
sql_char = pos 1

abbrev pub sql_numeric : ℤ
sql_numeric = pos 2

abbrev pub sql_decimal : ℤ
sql_decimal = pos 3

abbrev pub sql_integer : ℤ
sql_integer = pos 4

abbrev pub sql_smallint : ℤ
sql_smallint = pos 5

abbrev pub sql_float : ℤ
sql_float = pos 6

abbrev pub sql_real : ℤ
sql_real = pos 7

abbrev pub sql_double : ℤ
sql_double = pos 8

abbrev pub sql_date : ℤ
sql_date = pos 9

abbrev pub sql_time : ℤ
sql_time = pos 10

abbrev pub sql_timestamp : ℤ
sql_timestamp = pos 11

abbrev pub sql_varchar : ℤ
sql_varchar = pos 12

abbrev pub sql_type_date : ℤ
sql_type_date = pos 91

abbrev pub sql_type_time : ℤ
sql_type_time = pos 92

abbrev pub sql_type_timestamp : ℤ
sql_type_timestamp = pos 93

abbrev pub sql_longvarchar : ℤ
sql_longvarchar = negsuc 0

abbrev pub sql_binary : ℤ
sql_binary = negsuc 1

abbrev pub sql_varbinary : ℤ
sql_varbinary = negsuc 2

abbrev pub sql_longvarbinary : ℤ
sql_longvarbinary = negsuc 3

abbrev pub sql_bigint : ℤ
sql_bigint = negsuc 4

abbrev pub sql_tinyint : ℤ
sql_tinyint = negsuc 5

abbrev pub sql_bit : ℤ
sql_bit = negsuc 6

abbrev pub sql_wchar : ℤ
sql_wchar = negsuc 7

abbrev pub sql_wvarchar : ℤ
sql_wvarchar = negsuc 8

abbrev pub sql_wlongvarchar : ℤ
sql_wlongvarchar = negsuc 9

abbrev pub sql_guid : ℤ
sql_guid = negsuc 10

abbrev pub sql_interval_year : ℤ
sql_interval_year = pos 101

abbrev pub sql_interval_month : ℤ
sql_interval_month = pos 102

abbrev pub sql_interval_day : ℤ
sql_interval_day = pos 103

abbrev pub sql_interval_hour : ℤ
sql_interval_hour = pos 104

abbrev pub sql_interval_minute : ℤ
sql_interval_minute = pos 105

abbrev pub sql_interval_second : ℤ
sql_interval_second = pos 106

abbrev pub sql_interval_year_to_month : ℤ
sql_interval_year_to_month = pos 107

abbrev pub sql_interval_day_to_hour : ℤ
sql_interval_day_to_hour = pos 108

abbrev pub sql_interval_day_to_minute : ℤ
sql_interval_day_to_minute = pos 109

abbrev pub sql_interval_day_to_second : ℤ
sql_interval_day_to_second = pos 110

abbrev pub sql_interval_hour_to_minute : ℤ
sql_interval_hour_to_minute = pos 111

abbrev pub sql_interval_hour_to_second : ℤ
sql_interval_hour_to_second = pos 112

abbrev pub sql_interval_minute_to_second : ℤ
sql_interval_minute_to_second = pos 113

abbrev pub sql_c_char : ℤ
sql_c_char = pos 1

abbrev pub sql_c_numeric : ℤ
sql_c_numeric = pos 2

abbrev pub sql_c_long : ℤ
sql_c_long = pos 4

abbrev pub sql_c_short : ℤ
sql_c_short = pos 5

abbrev pub sql_c_float : ℤ
sql_c_float = pos 7

abbrev pub sql_c_double : ℤ
sql_c_double = pos 8

abbrev pub sql_c_date : ℤ
sql_c_date = pos 9

abbrev pub sql_c_time : ℤ
sql_c_time = pos 10

abbrev pub sql_c_timestamp : ℤ
sql_c_timestamp = pos 11

abbrev pub sql_c_type_date : ℤ
sql_c_type_date = pos 91

abbrev pub sql_c_type_time : ℤ
sql_c_type_time = pos 92

abbrev pub sql_c_type_timestamp : ℤ
sql_c_type_timestamp = pos 93

abbrev pub sql_c_binary : ℤ
sql_c_binary = negsuc 1

abbrev pub sql_c_tinyint : ℤ
sql_c_tinyint = negsuc 5

abbrev pub sql_c_bit : ℤ
sql_c_bit = negsuc 6

abbrev pub sql_c_wchar : ℤ
sql_c_wchar = negsuc 7

abbrev pub sql_c_guid : ℤ
sql_c_guid = negsuc 10

abbrev pub sql_c_sshort : ℤ
sql_c_sshort = negsuc 14

abbrev pub sql_c_slong : ℤ
sql_c_slong = negsuc 15

abbrev pub sql_c_ushort : ℤ
sql_c_ushort = negsuc 16

abbrev pub sql_c_ulong : ℤ
sql_c_ulong = negsuc 17

abbrev pub sql_c_sbigint : ℤ
sql_c_sbigint = negsuc 24

abbrev pub sql_c_stinyint : ℤ
sql_c_stinyint = negsuc 25

abbrev pub sql_c_ubigint : ℤ
sql_c_ubigint = negsuc 26

abbrev pub sql_c_utinyint : ℤ
sql_c_utinyint = negsuc 27

-- `SQL_DATETIME`, of which there are three codes.
abbrev pub sql_datetime : ℤ
sql_datetime = pos 9

abbrev pub sql_code_date : ℤ
sql_code_date = pos 1

abbrev pub sql_code_time : ℤ
sql_code_time = pos 2

abbrev pub sql_code_timestamp : ℤ
sql_code_timestamp = pos 3

abbrev pub sql_no_total : ℤ
sql_no_total = negsuc 3
