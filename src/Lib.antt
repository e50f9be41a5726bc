-- ===== src/Lib.antt =====
-- ShadowDNS: an authoritative DNS server that answers for many backup domains with the records of
-- their root domain, with views by client address, response rate limiting and short-lived TXT
-- records. This library models the parts of the server that decide what is answered, and proves
-- what they promise.
--
-- The parts, and where they stand:
--   Names      internal/dnsutil/dnsutil.go: canonical and lookup forms of names, zone membership.
--              A name is the list of its bytes. Every other part folds its keys with it.
--   Net, Dns   what the program uses of net/netip and of github.com/miekg/dns: addresses with
--              their blocks, and the data types of records and messages.
--   RateLimit  internal/ratelimit: Go's float64 (Float64), credit accounts (Account), the slip
--              cadence (Slip), the category and name of a response (Classify), exempt clients
--              (Exempt), the sharded account table with its order of use (Table), the decision
--              (Limiter), the writer that applies it to a response (Writer).
--   Edns       internal/dnsutil/ecs.go: the client subnet option (Ecs); internal/cookie: server
--              cookies (Cookie).
--   Ephemeral  internal/ephemeral/store.go: the TXT records with an expiry.
--   Zone       internal/zone: the records of a zone (zone.go, `AddRR`, `Lookup`, the loop of
--              parser.go), wildcards (Wildcard), CNAME chains (Cname: `FollowCNAME` and
--              collapse.go), the records that a backup zone keeps (Classify).
--   View       internal/view/matcher.go and internal/config/match.go: the view of a client.
--   Alias      internal/alias: the zone of a query and names between a backup zone and its root
--              zone (detect.go, rewrite.go), whole records (Rewrite, with soa.go), the records that
--              are withheld from backup zones (Withhold: classify.go), and the answers of a backup
--              zone (Override and Collapse: override.go).
--   Transfer   internal/transfer: who may transfer a zone (acl.go), and what is transferred (Axfr:
--              axfr.go).
--   Server     internal/server/handler.go and the state of server.go: the assembly of replies
--              (Reply), negative replies (Negative), root zones (Root), backup zones (Backup), and
--              `ServeDNS` with its guards and `handleTransfer` (Serve). It calls every other part
--              but RateLimit, whose writer it hands its reply to.
--   Prelude    names of the libraries, Boolean tests, lists, integers, results, and Go's map as an
--              association list.
--
-- Functions keep the names of the source, in lower case with underscores (`LookupWildcard` is
-- `lookup_wildcard`); a method takes its receiver last and returns it changed. A Go map is read
-- only by key, so that the order of its iteration does not matter: a loop over a map is a loop over
-- its keys. A mutex makes each method one step. The clock is an argument. A function that may panic
-- answers `none` where it does, and `serve_dns` answers then what `ServeDNS` does when it recovers.
-- What the handler does is a value: a message that it writes, or what the handler of zone transfers
-- does, a refusal or the envelopes of a stream.
--
-- Parameters stand for code that is not in the repository: the case mapping of text that is not
-- ASCII, `dns.IsSubDomain`, `dns.IsDuplicate`, `dns.NextLabel`, the parsers of net/netip,
-- `strings.EqualFold`, the GeoIP databases. The records `Library` (Dns/Library) and `Calls` (Server)
-- gather those that the answers need, with `SetReply`, `IsEdns0`, the length that `Pack` gives, hex,
-- SipHash, and the struct types that `reflect` shows.
--
-- Fuel: the loop of `CollapseCNAME` gets one round more than its budget of records, and every round
-- uses up a record of the budget; the walk over the labels of an escaped name gets one round more
-- than the name has bytes, and every round removes a byte; the loop of `RewriteNameAnywhere` gets two
-- rounds more than the name has bytes, and every round starts further on; the loop of
-- `truncateForUDP` gets one round more than the answer has records, and every round shortens the
-- interval. That each suffices is proved.
--
-- A float64 is a whole number of units of 2^-1074, and each operation rounds its exact result to 53
-- binary digits, to nearest and even; infinities are out of the limiter's range.
--
-- Not modelled: logging, the query log, metrics and their labels; sockets, files and signals; the parsers
-- of the configuration, and the build of the state from them; DNS over HTTPS and the HTTP API;
-- `dns.Transfer.Out`, which sends a transfer, and the notifying of secondaries; the tool that prunes
-- backup zones.
pub mod Prelude
pub mod Names
pub mod Net
pub mod Dns
pub mod RateLimit
pub mod Edns
pub mod Ephemeral
pub mod Zone
pub mod View
pub mod Alias
pub mod Transfer
pub mod Server
