-- ===== src/Dns.antt =====
-- The part of github.com/miekg/dns that the program's data is made of: resource records and
-- messages. A record's data is by its Go type (`*dns.CNAME` is `cname`); the header's type code is
-- a field of its own, as in the library. Types that the program never looks into are `other`.
pub mod Library
pub mod Names
pub mod Samples
pub mod Rcode
pub mod TypeCode
use shadow_dns.Prelude.{ℕ, Bool, List}
use shadow_dns.Names.{Name}

-- `dns.EDNS0_SUBNET`; the address is the bytes of a `net.IP`.
pub record Subnet : Type 0 where
  pub family : ℕ
  pub source_netmask : ℕ
  pub source_scope : ℕ
  pub address : List ℕ

-- The options of an OPT record; a cookie is its hexadecimal text, as in the library.
pub data EdnsOption : Type 0 where
  cookie_option : Name → EdnsOption
  subnet_option : Subnet → EdnsOption
  other_option : ℕ → List ℕ → EdnsOption

pub data Rdata : Type 0 where
  cname ns ptr dname : Name → Rdata
  mx kx afsdb rt : ℕ → Name → Rdata
  srv : ℕ → ℕ → ℕ → Name → Rdata
  soa : Name → Name → ℕ → ℕ → ℕ → ℕ → ℕ → Rdata
  https svcb : ℕ → Name → List ℕ → Rdata
  naptr : ℕ → ℕ → Name → Name → Name → Name → Rdata
  rp : Name → Name → Rdata
  px : ℕ → Name → Name → Rdata
  txt : List Name → Rdata
  opt : List EdnsOption → Rdata
  other : List ℕ → Rdata

pub record Rr : Type 0 where
  pub name : Name
  pub rrtype : ℕ
  pub class : ℕ
  pub ttl : ℕ
  pub rdata : Rdata

pub record Question : Type 0 where
  pub name : Name
  pub qtype : ℕ
  pub qclass : ℕ

pub record Msg : Type 0 where
  pub id : ℕ
  pub opcode : ℕ
  pub response : Bool
  pub recursion_desired : Bool
  pub recursion_available : Bool
  pub checking_disabled : Bool
  pub compress : Bool
  pub rcode : ℕ
  pub truncated : Bool
  pub authoritative : Bool
  pub question : List Question
  pub answer : List Rr
  pub ns : List Rr
  pub extra : List Rr
