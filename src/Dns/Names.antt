-- ===== src/Dns/Names.antt =====
-- The names that a record holds.
use shadow_dns.Prelude.{List, [], ◌∷◌}
use shadow_dns.Names.{Name}
use shadow_dns.Dns.{
  Rr, Rdata, cname, ns, ptr, dname, mx, kx, afsdb, rt, srv, soa, https, svcb, naptr, rp, px, txt,
  opt, other,
}

-- The names in the data of a record of a type that the rewriting covers.
abbrev pub names_in : Rdata → List Name
names_in (cname n) = n ∷ []
names_in (ns n) = n ∷ []
names_in (mx p n) = n ∷ []
names_in (ptr n) = n ∷ []
names_in (srv a b c n) = n ∷ []
names_in (soa n b s1 s2 s3 s4 s5) = n ∷ b ∷ []
names_in (https p n v) = n ∷ []
names_in (svcb p n v) = n ∷ []
names_in (dname n) = n ∷ []
names_in (naptr o p fl s r n) = n ∷ []
names_in (rp b t) = b ∷ t ∷ []
names_in (kx p n) = n ∷ []
names_in (afsdb p n) = n ∷ []
names_in (px p a b) = a ∷ b ∷ []
names_in (rt p n) = n ∷ []
names_in (txt ts) = []
names_in (opt os) = []
names_in (other bs) = []

-- All names of a record: its owner, and those in its data.
abbrev pub rr_names : Rr → List Name
rr_names rr = rr.name ∷ names_in rr.rdata
