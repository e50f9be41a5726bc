-- ===== src/Edns/Cookie.antt =====
-- internal/cookie/cookie.go: server cookies. `siphash.Hash` is a parameter.
use shadow_dns.Prelude.{ℕ, ◌%◌, ◌^◌, Bool, ◌&&◌, ◌||◌, List, ◌∷◌, ◌++◌, leb, ◌==◌}
use shadow_dns.Net.{Addr, invalid, v4, v6, unmap}
use shadow_dns.Edns.Bytes.{to_bytes, to_bytes_le}

abbrev pub client_cookie_len : ℕ
client_cookie_len = 8

abbrev pub min_query_cookie_len : ℕ
min_query_cookie_len = 16

abbrev pub max_query_cookie_len : ℕ
max_query_cookie_len = 40

abbrev pub cookie_version : ℕ
cookie_version = 1

-- `ValidQueryLen`
unfoldable pub valid_query_len : ℕ → Bool
valid_query_len n =
    (n == client_cookie_len) || (leb min_query_cookie_len n && leb n max_query_cookie_len)

pub record Generator : Type 0 where
  pub k0 : ℕ
  pub k1 : ℕ

-- `clientIP.As4()` or `clientIP.As16()`; the zero address is sixteen zero bytes.
unfoldable pub address_bytes : Addr → List ℕ
unfolding to_bytes
address_bytes invalid = to_bytes 16 0
address_bytes (v4 a) = to_bytes 4 a
address_bytes (v6 a zone) = to_bytes 16 a

-- The first sixteen bytes of the payload.
unfoldable pub payload_head : List ℕ → ℕ → List ℕ
unfolding to_bytes
payload_head client_cookie unix_time =
    client_cookie ++ cookie_version ∷ 0 ∷ 0 ∷ 0 ∷ to_bytes 4 (unix_time % 2 ^ 32)

module _ (siphash : ℕ → ℕ → List ℕ → ℕ) where
  -- `Generate`, for a client cookie of eight bytes.
  unfoldable pub generate : Generator → List ℕ → Addr → ℕ → List ℕ
  unfolding address_bytes payload_head to_bytes_le
  generate g client_cookie client_ip unix_time =
      let front = payload_head client_cookie unix_time in
      front ++ to_bytes_le 8 (siphash g.k0 g.k1 (front ++ address_bytes (unmap client_ip)))
