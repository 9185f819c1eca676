-- ===== src/ZeroConf.antt =====
-- src/zeroconf/ZeroConfServer.cpp and ZeroConfService.h. The DNS service is a parameter; std::map is the list of its
-- entries.
pub mod Records
mod Runs
use libcornrow.Base.{
  if◌then◌else◌, length, Text, codes, text_eq, text_lt, ℕ, ◌+◌, ◌*◌, ◌/◌, ◌%◌, Bool, true, false,
  Option, none, some, List, [], ◌∷◌, ◌++◌,
}
use mathlib.Core.Option

-- The records of a service by their keys
abbrev pub TxtRecords : Type 0
TxtRecords = List (Text × Text)

pub record ZeroConfService : Type 0 where
  pub name : Text
  pub type_of : Text
  pub port : ℕ
  pub txt_records : TxtRecords

-- `DNSServiceRegister`, with a port in network byte order and a TXT record: the reference of the registration, `none`
-- after an error; and `DNSServiceRefDeallocate`.
pub record DnsService (R W : Type 0) : Type 0 where
  pub register : Text → Text → ℕ → Text → W → Option R × W
  pub deallocate : R → W → W

unfoldable pub txt_record : TxtRecords → Text
txt_record [] = []
txt_record ((k, v) ∷ rs) = ((length k + length v + 1) % 256 ∷ k ++ codes "=" ++ v) ++ txt_record rs

-- `htons` on a little-endian machine
abbrev pub swap_bytes : ℕ → ℕ
swap_bytes n = n % 256 * 256 + n / 256 % 256

module _ {R W : Type 0} (dns : DnsService R W) where
  abbrev pub Services : Type 0
  Services = List (Text × R)

  -- `m_services[name] = ref`
  unfoldable pub put : Text → R → Services → Services
  put name ref [] = (name, ref) ∷ []
  put name ref ((k, x) ∷ m) =
      if text_eq k name
      then (k, ref) ∷ m
      else if text_lt name k
      then (name, ref) ∷ (k, x) ∷ m
      else (k, x) ∷ put name ref m

  unfoldable pub register_service : ZeroConfService → Services → W → Bool × Services × W
  unfolding put txt_record
  register_service s m w =
      registered (dns.register s.name s.type_of (swap_bytes s.port) (txt_record s.txt_records) w)
    where
      registered : Option R × W → Bool × Services × W
      registered (none, w') = (false, m, w')
      registered (some ref, w') = (true, put s.name ref m, w')

  unfoldable pub unregister_service : Text → Services → W → Services × W
  unregister_service name [] w = ([], w)
  unregister_service name ((k, ref) ∷ m) w =
      let (m', w') = unregister_service name m w in
      if text_eq k name then (m, dns.deallocate ref w) else ((k, ref) ∷ m', w')

  unfoldable pub unregister_services : Services → W → Services × W
  unregister_services [] w = ([], w)
  unregister_services ((k, ref) ∷ m) w = unregister_services m (dns.deallocate ref w)
