-- ===== src/Server/Tests.antt =====
-- The handler on concrete input.
use shadow_dns.Prelude.{
  ℕ, zero, suc, ◌+◌, ◌*◌, ◌≤◌, ◌<◌, ◌≡◌, ◌⊎◌, inl, inr, refl, true, false, [], ◌∷◌, Option, none,
  some, arith, length, take,
}
use shadow_dns.Prelude.Map.{lookup}
use shadow_dns.Names.{
  codes, has_escape, is_in_zone_byte_suffix, is_already_lookup_key, lookup_key, ends_with_dot,
  all_but_last_folded, is_folded_byte,
}
use shadow_dns.Net.{v4, any_addr}
use shadow_dns.Dns.Rcode
use shadow_dns.Dns.TypeCode
use shadow_dns.Transfer.Axfr.{axfr_refused}
use shadow_dns.Dns.{Msg, Question, cookie_option}
use shadow_dns.Dns.Samples.{plain_library, address_rr}
use shadow_dns.RateLimit.Writer.{udp_addr, addr_from_slice}
use shadow_dns.Zone.{Zone, role_root}
use shadow_dns.Zone.Wildcard.{has_wildcard}
use shadow_dns.View.{resolve, nil, cons, element, any_acl}
use shadow_dns.Alias.{Match, is_match}
use shadow_dns.Server.{Calls, Server, Client, udp_remote, OptRecord, transferred}
use shadow_dns.Server.Reply.{
  no_opt, attach_opt, first_cookie, addr_from_remote, truncate_for_udp, search_prefix,
}
use shadow_dns.Server.Reply.Truncate.{cut_at, IsLongest, truncate_for_udp-IsLongest}
use shadow_dns.Server.Negative.{has_records, name_exists, negative_reply}
use shadow_dns.Server.Negative.Exists.{NoRecords, NoWildcard, negative_reply-NoRecords}
use shadow_dns.Server.Serve.{serve_dns, origins_of}
use shadow_dns.Server.Serve.Guards.{IsCookieSize, SaysNo, serve_dns-bad_cookie, serve_dns-outside}
use shadow_dns.Server.Replies.{AllReplies, opt_rr}
use shadow_dns.Server.Replies.Serve.{Allowed, serve_dns-AllReplies}

-- A library for which a message takes 500 bytes, and 20 for each record of its answer; what a query
-- carries as an OPT record is given.
abbrev calls_with : Option OptRecord → Calls
calls_with o = record {
  lib = plain_library;
  set_reply = λ (m : Msg). record m { response = true; extra = [] };
  is_edns0 = λ m. o;
  pack_size = λ (m : Msg). some (500 + 20 * length m.answer);
  equal_fold = λ a b. false;
  hex_decode = λ s. none;
  hex_encode = λ bs. [];
  siphash = λ k0 k1 bs. 0;
  parse_host = λ s. none;
}

abbrev question : Question
question = record { name = codes "a."; qtype = 1; qclass = 1 }

abbrev query : Msg
query = record {
  id = 7;
  opcode = 0;
  response = false;
  recursion_desired = false;
  recursion_available = false;
  checking_disabled = false;
  compress = false;
  rcode = 0;
  truncated = false;
  authoritative = false;
  question = question ∷ [];
  answer = [];
  ns = [];
  extra = [];
}

abbrev client : Client
client = record { local_addr = udp_addr []; remote_addr = udp_remote (192 ∷ 0 ∷ 2 ∷ 1 ∷ []) }

-- One view, of every client and without zones.
abbrev server : Server
server = record {
  state = record {
    matcher = record {
      views = record { name = codes "v"; rules = cons (element any_acl false nil) nil } ∷ [];
      country = none;
      asn = none;
      localhost_nets = [];
      localnets_nets = [];
    };
    aliases = [];
    alias_flags = [];
    collapse_flags = [];
    backup_original_case = [];
    root_zones = [];
    backup_zones = [];
    zone_origins = (codes "v", codes "b." ∷ []) ∷ [];
    allow_transfer_acl = none;
  };
  ephemeral_store = none;
  ecs_enabled = false;
  cookie_gen = record { k0 = 0; k1 = 0 };
}

abbrev two_answers : Msg
two_answers = record query {
  answer = address_rr (codes "a.") (1 ∷ []) ∷ address_rr (codes "a.") (2 ∷ []) ∷ [];
}

abbrev size_of : ℕ → ℕ
size_of zero = 500
size_of (suc zero) = 520
size_of (suc (suc n)) = 540

size_of_packs :
    (n : ℕ)
    → (calls_with none).pack_size (record two_answers { answer = take n two_answers.answer })
      ≡ some (size_of n)
size_of_packs zero = refl
size_of_packs (suc zero) = refl
size_of_packs (suc (suc zero)) = refl
size_of_packs (suc (suc (suc n))) = refl

size_of_grows : (i j : ℕ) → i ≤ j → size_of i ≤ size_of j
size_of_grows zero zero h = omega arith
size_of_grows zero (suc zero) h = omega arith
size_of_grows zero (suc (suc j)) h = omega arith
size_of_grows (suc zero) zero h = absurd (omega (arith, h))
size_of_grows (suc zero) (suc zero) h = omega arith
size_of_grows (suc zero) (suc (suc j)) h = omega arith
size_of_grows (suc (suc i)) zero h = absurd (omega (arith, h))
size_of_grows (suc (suc i)) (suc zero) h = absurd (omega (arith, h))
size_of_grows (suc (suc i)) (suc (suc j)) h = omega arith

truncate_for_udp-IsLongest_example :
    ((540 ≤ 525) × (truncate_for_udp (calls_with none) two_answers 525 ≡ some two_answers))
    ⊎ ((525 < 540)
        × (n : ℕ) × IsLongest (calls_with none) two_answers 525 size_of n
        × (truncate_for_udp (calls_with none) two_answers 525 ≡ some (cut_at two_answers n)))
truncate_for_udp-IsLongest_example =
    truncate_for_udp-IsLongest (calls_with none) two_answers 525 size_of
      (record { packs = size_of_packs; grows = size_of_grows })

cut_short : truncate_for_udp (calls_with none) two_answers 525 ≡ some (cut_at two_answers 1)
unfolding truncate_for_udp search_prefix
cut_short = refl

-- An OPT record without options.
abbrev plain_opt : OptRecord
plain_opt = record { version = 0; udp_size = 1232; do_bit = false; options = [] }

-- A query for the transfer of the zone that the view has, which is not loaded.
abbrev axfr_query : Msg
axfr_query = record query {
  question = record { name = codes "b."; qtype = TypeCode.axfr; qclass = 1 } ∷ [];
}

-- The same server, with the client on its transfer list.
abbrev open_server : Server
open_server = record server {
  state = record (server.state) {
    allow_transfer_acl = some (record { addrs = v4 0xc0000201 ∷ []; prefixes = [] });
  };
}

serve_dns-AllReplies_example :
    AllReplies
      (Allowed (calls_with (some plain_opt)) open_server 0 client axfr_query)
      (calls_with (some plain_opt))
      axfr_query
      (serve_dns (calls_with (some plain_opt)) open_server 0 client axfr_query)
serve_dns-AllReplies_example =
    serve_dns-AllReplies (calls_with (some plain_opt)) open_server 0 client axfr_query

-- The refusal of that transfer has no OPT record.
refused_bare :
    serve_dns (calls_with (some plain_opt)) open_server 0 client axfr_query
    ≡ transferred
        (axfr_refused (record axfr_query { response = true; rcode = Rcode.refused; extra = [] }))
unfolding serve_dns any_addr lookup_key is_already_lookup_key ends_with_dot all_but_last_folded
    is_folded_byte lookup has_escape is_in_zone_byte_suffix
refused_bare = refl

-- A cookie of three bytes.
abbrev short_cookie : OptRecord
short_cookie = record {
  version = 0;
  udp_size = 1232;
  do_bit = false;
  options = cookie_option (codes "0a0b0c") ∷ [];
}

three_bytes : (n : ℕ) → length (codes "0a0b0c") ≡ 2 * n → ¬ IsCookieSize n
three_bytes n e (inl h) = absurd (omega (arith, e, h))
three_bytes n e (inr h) = absurd (omega (arith, e, h.0))

serve_dns-bad_cookie_example :
    SaysNo
      (calls_with (some short_cookie))
      server
      0
      client
      query
      Rcode.format_error
      (opt_rr [] ∷ [])
      (serve_dns (calls_with (some short_cookie)) server 0 client query)
unfolding first_cookie
serve_dns-bad_cookie_example =
    serve_dns-bad_cookie (calls_with (some short_cookie)) server 0 client query question
      short_cookie (codes "0a0b0c") refl refl refl refl refl three_bytes

serve_dns-outside_example :
    SaysNo
      (calls_with none)
      server
      0
      client
      query
      Rcode.refused
      []
      (serve_dns (calls_with none) server 0 client query)
unfolding addr_from_remote addr_from_slice origins_of lookup resolve is_match has_escape lookup_key
    is_already_lookup_key ends_with_dot all_but_last_folded is_folded_byte is_in_zone_byte_suffix
serve_dns-outside_example =
    serve_dns-outside (calls_with none) server 0 client query question (v4 0xc0000201) refl refl
      refl (λ e. absurd (omega (arith, e))) (λ e. absurd (omega (arith, e)))
      (λ e. absurd (omega (arith, e))) refl (refl, tt)

abbrev empty_zone : Zone
empty_zone = record { origin = codes "b."; path = []; soa = none; records = []; role = role_root }

abbrev in_b : Match
in_b = record { matched_zone = codes "b."; is_backup = false; root_zone = codes "b." }

negative_reply-NoRecords_example :
    NoRecords (codes "a.b.") empty_zone × NoWildcard (calls_with none) (codes "a.b.") empty_zone
unfolding negative_reply attach_opt name_exists has_records has_wildcard lookup has_escape
negative_reply-NoRecords_example =
    negative_reply-NoRecords (calls_with none) query no_opt empty_zone none in_b (codes "a.b.") none
      refl refl
