-- ===== src/Dns/Rcode.antt =====
-- The response codes that the program compares with.
use shadow_dns.Prelude.{ℕ}

abbrev pub success : ℕ
success = 0

abbrev pub format_error : ℕ
format_error = 1

abbrev pub server_failure : ℕ
server_failure = 2

abbrev pub name_error : ℕ
name_error = 3

abbrev pub not_implemented : ℕ
not_implemented = 4

abbrev pub refused : ℕ
refused = 5

abbrev pub bad_vers : ℕ
bad_vers = 16
