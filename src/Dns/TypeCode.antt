-- ===== src/Dns/TypeCode.antt =====
-- The type codes that the program compares with.
use shadow_dns.Prelude.{ℕ}

abbrev pub ns : ℕ
ns = 2

abbrev pub cname : ℕ
cname = 5

abbrev pub soa : ℕ
soa = 6

abbrev pub ptr : ℕ
ptr = 12

abbrev pub mx : ℕ
mx = 15

abbrev pub txt : ℕ
txt = 16

abbrev pub rp : ℕ
rp = 17

abbrev pub afsdb : ℕ
afsdb = 18

abbrev pub rt : ℕ
rt = 21

abbrev pub px : ℕ
px = 26

abbrev pub srv : ℕ
srv = 33

abbrev pub naptr : ℕ
naptr = 35

abbrev pub kx : ℕ
kx = 36

abbrev pub dname : ℕ
dname = 39

abbrev pub svcb : ℕ
svcb = 64

abbrev pub https : ℕ
https = 65

abbrev pub opt : ℕ
opt = 41

abbrev pub ixfr : ℕ
ixfr = 251

abbrev pub axfr : ℕ
axfr = 252
