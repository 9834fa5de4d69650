-- ===== src/Provider/Ssrf/Ranges.antt =====
-- The denied addresses (internal/provider/ssrf.go) as ranges of numbers.
use event_driven_notificatio.Prelude.{
  ℕ, ◌+◌, ◌*◌, ◌≡◌, ◌<◌, Bool, true, false, ◌&&◌, String, List, [], ◌∷◌, ◌++◌, Option, none, some,
  refl, if◌then◌else◌, leb, arith,
}
use event_driven_notificatio.Provider.Ssrf.{
  Addr, v4, v6, quad, deny_zone, deny_resolved, and_parse, ssrf_control,
}

abbrev pub within : ℕ → ℕ → ℕ → Bool
within first last x = leb first x && leb x last

abbrev pub in_ranges : List (String × ℕ × ℕ) → ℕ → Option String
in_ranges [] x = none
in_ranges ((zone, first, last) ∷ rest) x =
    if within first last x then some zone else in_ranges rest x

abbrev pub denied_ranges : List (String × ℕ × ℕ)
denied_ranges =
    ("metadata", quad 169 254 169 254, quad 169 254 169 254)
    ∷ ("loopback", quad 127 0 0 0, quad 127 255 255 255)
    ∷ ("link-local", quad 169 254 0 0, quad 169 254 255 255)
    ∷ ("link-local", quad 224 0 0 0, quad 224 0 0 255)
    ∷ ("unspecified", quad 0 0 0 0, quad 0 0 0 0)
    ∷ ("rfc1918", quad 10 0 0 0, quad 10 255 255 255)
    ∷ ("rfc1918", quad 172 16 0 0, quad 172 31 255 255)
    ∷ ("rfc1918", quad 192 168 0 0, quad 192 168 255 255)
    ∷ ("cgnat", quad 100 64 0 0, quad 100 127 255 255)
    ∷ []

deny_zone-v4 : (x : ℕ) → deny_zone (v4 x) ≡ in_ranges denied_ranges x
unfolding deny_zone
deny_zone-v4 x = ground arith

-- An IPv4 address as ::ffff:a.b.c.d, and the first address of a block of 2 ^ 112.
abbrev pub mapped : ℕ → ℕ
mapped x = 65535 * 4294967296 + x

abbrev pub block : ℕ → ℕ
block k = k * 5192296858534827628530496329220096

abbrev pub blocks : String → ℕ → ℕ → String × ℕ × ℕ
blocks zone k m = (zone, block k, block m + 5192296858534827628530496329220095)

abbrev pub denied_zoned6 : List (String × ℕ × ℕ)
denied_zoned6 =
    ("loopback", mapped (quad 127 0 0 0), mapped (quad 127 255 255 255))
    ∷ ("loopback", 1, 1)
    ∷ ("link-local", mapped (quad 169 254 0 0), mapped (quad 169 254 255 255))
    ∷ ("link-local", mapped (quad 224 0 0 0), mapped (quad 224 0 0 255))
    ∷ blocks "link-local" 65152 65215
    ∷ []

abbrev pub denied_ranges6 : List (String × ℕ × ℕ)
denied_ranges6 =
    denied_zoned6 ++ (("unspecified", 0, 0) ∷ blocks "unique-local-v6" 64512 65023 ∷ [])

deny_zone-v6 :
    (x : ℕ) (zoned : Bool)
    → x < block 65280
    → deny_zone (v6 x zoned) ≡ in_ranges (if zoned then denied_zoned6 else denied_ranges6) x
unfolding deny_zone
deny_zone-v6 x true unicast = ground arith
deny_zone-v6 x false unicast = ground arith

-- A destination of TCP; an IPv6 address from ff00:: on is multicast.
abbrev pub IsUnicast : Option Addr → Type 0
IsUnicast (some (v6 x zoned)) = x < block 65280
IsUnicast _ = Unit

abbrev pub expected : Option Addr → Option String
expected none = none
expected (some (v4 x)) = in_ranges denied_ranges x
expected (some (v6 x true)) = in_ranges denied_zoned6 x
expected (some (v6 x false)) = in_ranges denied_ranges6 x

deny_resolved_lem : (ip : Option Addr) → IsUnicast ip → deny_resolved ip ≡ expected ip
unfolding deny_resolved
deny_resolved_lem none unicast = refl
deny_resolved_lem (some (v4 x)) unicast = deny_zone-v4 x
deny_resolved_lem (some (v6 x true)) unicast = deny_zone-v6 x true unicast
deny_resolved_lem (some (v6 x false)) unicast = deny_zone-v6 x false unicast

-- The dialer's hook is a look-up in tables of ranges. For every address text that does not parse to
-- an IPv6 multicast address, the hook lets a text through that does not parse, and otherwise answers
-- with the zone of the first range of the table that holds the address: the tables have the cloud
-- metadata address, loopback, link-local, unspecified, RFC 1918 and CGNAT ranges of IPv4, and for
-- IPv6 loopback and link-local (also as mapped IPv4 addresses) and, without a zone, the unspecified
-- address and fc00::/7. An address outside of them is let through.
pub ssrf_control_lem :
    (split_host_port : String → Option String) (parse_addr : String → Option Addr)
    (address : String)
    → let ip = and_parse parse_addr (split_host_port address) in
      IsUnicast ip → ssrf_control split_host_port parse_addr address ≡ expected ip
unfolding ssrf_control
ssrf_control_lem split_host_port parse_addr address =
    deny_resolved_lem (and_parse parse_addr (split_host_port address))
