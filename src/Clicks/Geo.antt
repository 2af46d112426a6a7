-- ===== src/Clicks/Geo.antt =====
-- internal/clicks/geoip.go: the country of an address from a MaxMind database.
-- The reader is a parameter: a record, which may be nil, or an error.
use linkpulse_link.Base.{ℕ, ◌||◌, Option, none, some, List, [], length, if◌then◌else◌, ◌==◌}
use linkpulse_link.Base.Text.{Text}
use linkpulse_link.Net.Ip.{Ip}

-- What `Reader.Country` returns.
pub data Lookup : Type 0 where
  found : Text → Lookup
  no_record lookup_failed : Lookup

-- `netip.AddrFromSlice`, of an address or nil.
unfoldable pub addr_from_slice : Option Ip → Option (List ℕ)
addr_from_slice none = none
addr_from_slice (some ip) = if (length ip == 4) || (length ip == 16) then some ip else none

abbrev pub iso_code : Lookup → Text
iso_code (found code) = code
iso_code no_record = []
iso_code lookup_failed = []

-- `GeoIP.Country`
unfoldable pub geoip_country : (List ℕ → Lookup) → Option Ip → Text
unfolding addr_from_slice
geoip_country reader ip = elim (addr_from_slice ip) [
  | none ↦ []
  | some addr ↦ iso_code (reader addr)
]
