-- ===== src/Dns/Lookup.antt =====
-- The names that need no question: HashString, DnsCache and CSocketObject::DnsToIp of asio/dns.cpp. A name
-- has at most DNS_MAX_TEXT_STRING_LENGTH = 255 characters.
use Prim.Native.Nat.{bit_xor}
use camera_udp.Base.{
  ℕ, ◌+◌, ◌-◌, ◌*◌, ◌%◌, ◌^◌, Bool, ◌&&◌, List, [], ◌∷◌, Option, none, some, ltb, ◌==◌,
  if◌then◌else◌, length,
}
use camera_udp.Dns.{Address, ipv4, ipv6, rtype_a, rtype_aaaa}

-- hash * 33 ^ c, where a char of 128 or more has its sign in the upper bits.
unfoldable pub hash_string : (lpsz : List ℕ) (hash : ℕ) → ℕ
hash_string [] hash = hash
hash_string (c ∷ lpsz) hash =
    hash_string lpsz (bit_xor (hash * 33 % 2 ^ 32) (if ltb c 128 then c else c + 2 ^ 32 - 256))

-- CRC_IP_TIME, without the count of writes.
pub record CrcIpTime : Type 0 where
  pub crc : ℕ
  pub ip : ℕ
  pub time : ℕ

-- DnsCache: the 64 entries of g_ip_cache. `tick` is the 32-bit clock.
unfoldable pub cache_get : (cache : ℕ → CrcIpTime) (crc tick : ℕ) → ℕ
cache_get cache crc tick =
    let p = cache (crc % 64) in if (p.crc == crc) && ltb tick p.time then p.ip else 0

unfoldable pub cache_set : (cache : ℕ → CrcIpTime) (crc ip tick : ℕ) → ℕ → CrcIpTime
cache_set cache crc ip tick i =
    if i == crc % 64
    then record { crc = crc; ip = ip; time = (tick + 100000) % 2 ^ 32 }
    else cache i

-- What CSocketObject::DnsToIp comes to: an error, an address at once, or a question to the servers.
pub data Lookup : Type 0 where
  failed : Lookup
  answered : Address → Lookup
  asking : (crc : ℕ) → Lookup

-- new CDnsSocket
unfoldable pub ask : (granted : Bool) (crc : ℕ) → Lookup
ask granted crc = if granted then asking crc else failed

unfoldable pub known_ipv4 : Option ℕ → (cached : ℕ) → Lookup → Lookup
known_ipv4 (some ip) cached else_ask = answered (ipv4 ip)
known_ipv4 none cached else_ask = if cached == 0 then else_ask else answered (ipv4 cached)

unfoldable pub known_ipv6 : Option (List ℕ) → Lookup → Lookup
known_ipv6 (some ip) else_ask = answered (ipv6 ip)
known_ipv6 none else_ask = else_ask

-- The two arguments are RtlIpv4StringToAddressA and RtlIpv6StringToAddressA.
unfoldable pub dns_to_ip :
    (ipv4_of : List ℕ → Option ℕ) (ipv6_of : List ℕ → Option (List ℕ)) (cache : ℕ → CrcIpTime)
    (tick : ℕ) (granted : Bool) (dns : List ℕ) (query_type : ℕ)
    → Lookup
dns_to_ip ipv4_of ipv6_of cache tick granted dns query_type =
    let crc = hash_string dns 0 in
    if ltb 255 (length dns)
    then failed
    else if query_type == rtype_a
    then known_ipv4 (ipv4_of dns) (cache_get cache crc tick) (ask granted crc)
    else if query_type == rtype_aaaa
    then known_ipv6 (ipv6_of dns) (ask granted crc)
    else ask granted crc
