-- ===== src/Clicks.antt =====
-- internal/clicks/builder.go: the click event of a redirect.
-- SHA-256 in hex, `IP.String` and the country of an address are parameters.
pub mod ClientIp
pub mod Privacy
pub mod Geo
pub mod Located
pub mod Producer
mod Tests
use linkpulse_link.Base.{Option, none, some, List, [], ◌∷◌, ◌++◌, if◌then◌else◌}
use linkpulse_link.Base.Text.{Text, codes}
use linkpulse_link.Base.Word.{Int64}
use linkpulse_link.Net.Strings.{is_empty, cut, trim_space}
use linkpulse_link.Net.Ip.{Ip, parse_ip}
use linkpulse_link.Http.{Request, split_host}
use linkpulse_link.Link.{Time, Result, ok, err, hangs, ◌>>=◌}
use linkpulse_link.Link.Ports.{IdReply, IdGenerator}
use linkpulse_link.Link.Service.{id_result}

-- `ClickEvent` of the contracts.
pub record ClickEvent : Type 0 where
  pub event_id : Int64
  pub link_id : Int64
  pub short_code : Text
  pub original_url : Text
  pub clicked_at : Time
  pub referrer : Text
  pub ip_hash : Text
  pub user_agent : Text
  pub country : Text

pub record Digest : Type 0 where
  pub sha256_hex : Text → Text
  pub ip_string : Ip → Text

-- `Builder`, less its source of IDs and its clock. `country` is `CountryResolver.Country`, at the
-- address or nil.
pub record Builder : Type 0 where
  pub salt : Text
  pub digest : Digest
  pub country : Option Ip → Text

-- `NoopResolver.Country`
abbrev pub noop_country : Option Ip → Text
noop_country ip = []

-- The address of the connection.
unfoldable pub remote_ip : Request → Option Ip
remote_ip r = elim (split_host r.remote_addr) [
  | none ↦ parse_ip r.remote_addr
  | some host ↦ parse_ip host
]

-- `clientIP`
unfoldable pub client_ip : Request → Option Ip
unfolding remote_ip
client_ip r =
    let xff = r.header (codes "X-Forwarded-For") in
    if is_empty xff
    then remote_ip r
    else elim (parse_ip (trim_space (cut b',' xff).0)) [ some ip ↦ some ip | none ↦ remote_ip r ]

-- `hashIP`
unfoldable pub hash_ip : Digest → Text → Option Ip → Text
hash_ip digest salt none = []
hash_ip digest salt (some ip) = digest.sha256_hex (salt ++ digest.ip_string ip)

-- The event literal of `Build`.
unfoldable pub event : Builder → Int64 → Int64 → Text → Text → Request → ClickEvent
unfolding client_ip hash_ip
event b event_id link_id short_code original_url r = record {
  event_id = event_id;
  link_id = link_id;
  short_code = short_code;
  original_url = original_url;
  clicked_at = r.times.clicked;
  referrer = r.header (codes "Referer");
  ip_hash = hash_ip b.digest b.salt (client_ip r);
  user_agent = r.header (codes "User-Agent");
  country = b.country (client_ip r);
}

-- `Build`
unfoldable pub build :
    {G : Type 0}
    → IdGenerator G
    → Builder
    → Int64
    → Text
    → Text
    → Request
    → G
    → Result ClickEvent × G
unfolding event
build ids b link_id short_code original_url r g =
    let (reply, g') = ids.next g in
    (id_result reply >>= λ id. ok (event b id link_id short_code original_url r), g')
