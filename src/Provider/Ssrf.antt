-- ===== src/Provider/Ssrf.antt =====
-- internal/provider/ssrf.go: which addresses an outbound connection may not have. An address is that
-- of net/netip: its number, and for IPv6 whether it has a zone. The tests of netip are written out as
-- the code uses them; what net.SplitHostPort and netip.ParseAddr make of a text is an argument.
pub mod Ranges
use event_driven_notificatio.Prelude.{
  ℕ, ◌+◌, ◌*◌, ◌/◌, ◌%◌, Bool, true, false, ◌&&◌, ◌||◌, String, Option, none, some, if◌then◌else◌,
  ◌==◌, not,
}

pub data Addr : Type 0 where
  v4 : ℕ → Addr
  v6 : (number : ℕ) (zoned : Bool) → Addr

-- The number of an IPv4 address a.b.c.d.
abbrev pub quad : ℕ → ℕ → ℕ → ℕ → ℕ
quad a b c d = ((a * 256 + b) * 256 + c) * 256 + d

-- Unmap: an IPv4 address that is written as ::ffff:a.b.c.d.
unfoldable pub unmap : Addr → Addr
unmap (v4 x) = v4 x
unmap (v6 x zoned) = if x / 4294967296 == 65535 then v4 (x % 4294967296) else v6 x zoned

-- The first 16 bits of an IPv6 address.
abbrev pub first16 : ℕ → ℕ
first16 x = x / 5192296858534827628530496329220096

loopback_test : Addr → Bool
loopback_test (v4 x) = x / 16777216 == 127
loopback_test (v6 x zoned) = x == 1

-- IsLoopback
unfoldable pub is_loopback : Addr → Bool
unfolding loopback_test unmap
is_loopback ip = loopback_test (unmap ip)

link_local_test : Addr → Bool
link_local_test (v4 x) = x / 65536 == quad 0 0 169 254 || x / 256 == quad 0 224 0 0
link_local_test (v6 x zoned) =
    first16 x / 64 == 1018 || (first16 x / 256 == 255 && first16 x % 16 == 2)

-- IsLinkLocalUnicast() || IsLinkLocalMulticast()
unfoldable pub is_link_local : Addr → Bool
unfolding link_local_test unmap
is_link_local ip = link_local_test (unmap ip)

unfoldable pub is_unspecified : Addr → Bool
is_unspecified (v4 x) = x == 0
is_unspecified (v6 x zoned) = x == 0 && not zoned

-- Contains, of an IPv4 prefix with this base and this many addresses
unfoldable pub contains4 : ℕ → ℕ → Addr → Bool
contains4 base size (v4 x) = x / size == base / size
contains4 base size (v6 x zoned) = false

-- Contains, of fc00::/7
unfoldable pub is_unique_local : Addr → Bool
is_unique_local (v4 x) = false
is_unique_local (v6 x zoned) = first16 x / 512 == 126 && not zoned

abbrev pub is_metadata : Addr → Bool
is_metadata (v4 x) = x == quad 169 254 169 254
is_metadata (v6 x zoned) = false

-- denyZone
unfoldable pub deny_zone : Addr → Option String
unfolding is_loopback is_link_local is_unspecified contains4 is_unique_local
deny_zone ip =
    if is_metadata ip
    then some "metadata"
    else if is_loopback ip
    then some "loopback"
    else if is_link_local ip
    then some "link-local"
    else if is_unspecified ip
    then some "unspecified"
    else if contains4 (quad 10 0 0 0) 16777216 ip
        || contains4 (quad 172 16 0 0) 1048576 ip
        || contains4 (quad 192 168 0 0) 65536 ip
    then some "rfc1918"
    else if contains4 (quad 100 64 0 0) 4194304 ip
    then some "cgnat"
    else if is_unique_local ip
    then some "unique-local-v6"
    else none

-- An address that was not parsed is let through.
unfoldable pub deny_resolved : Option Addr → Option String
unfolding deny_zone
deny_resolved none = none
deny_resolved (some ip) = deny_zone ip

-- The address of a host, where both parsers succeed.
abbrev pub and_parse : (String → Option Addr) → Option String → Option Addr
and_parse parse_addr none = none
and_parse parse_addr (some host) = parse_addr host

-- ssrfControl: the zone of the error, if there is one
unfoldable pub ssrf_control :
    (String → Option String) → (String → Option Addr) → String → Option String
unfolding deny_resolved
ssrf_control split_host_port parse_addr address =
    deny_resolved (and_parse parse_addr (split_host_port address))
