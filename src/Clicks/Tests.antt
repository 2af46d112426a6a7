-- ===== src/Clicks/Tests.antt =====
-- Events of concrete requests.
use linkpulse_link.Base.{
  ℕ, suc, List, ◌≡◌, refl, inr, none, some, [], ◌∷◌, if◌then◌else◌, arith, length,
}
use linkpulse_link.Base.Text.{codes, text_eq}
use linkpulse_link.Base.Int.{pos}
use linkpulse_link.Net.Ip.{mapped, parse_ip}
use linkpulse_link.Http.{Request}
use linkpulse_link.Link.Ports.{IdGenerator, fresh}
use linkpulse_link.Clicks.{ClickEvent, Builder, noop_country, client_ip, event, build}
use linkpulse_link.Clicks.Geo.{Lookup, found, lookup_failed, addr_from_slice, geoip_country}
use linkpulse_link.Clicks.Located.{with_geoip, IsLocated, build-IsLocated}
use linkpulse_link.Clicks.ClientIp.{client_ip-forwarded, client_ip-direct}

abbrev direct : Request
direct = record {
  method = codes "GET";
  path = codes "/x";
  header = λ name. [];
  query = λ name. [];
  body = [];
  remote_addr = codes "10.1.2.3:4711";
  times = record { checked = pos 0; first = pos 1; second = pos 2; clicked = pos 3 };
  code = codes "x";
  request_id = none;
  user_id = none;
}

abbrev forwarded : Request
forwarded = record direct {
  header = λ name. if text_eq name (codes "X-Forwarded-For") then codes "10.1.2.3, 1.1.1.1" else [];
  remote_addr = codes "[::1]:80";
}

client_ip-direct_run : client_ip direct ≡ some (mapped (10 ∷ 1 ∷ 2 ∷ 3 ∷ []))
client_ip-direct_run =
    client_ip-direct 10 1 2 3 (codes "4711") direct (omega arith) (omega arith) (omega arith)
      (omega arith) refl (refl, refl, refl) refl

client_ip-forwarded_example : client_ip forwarded ≡ some (mapped (10 ∷ 1 ∷ 2 ∷ 3 ∷ []))
unfolding text_eq
client_ip-forwarded_example =
    client_ip-forwarded 10 1 2 3 (codes ", 1.1.1.1") forwarded (omega arith) (omega arith)
      (omega arith) (omega arith) (inr (codes " 1.1.1.1", refl)) refl

-- An address in brackets, and one that is none.
client_ip_runs :
    (client_ip (record direct { remote_addr = codes "[::1]:80" }) ≡ parse_ip (codes "::1"))
    × (client_ip (record direct { remote_addr = codes "::1:80" }) ≡ parse_ip (codes "::1:80"))
    × (client_ip (record direct { remote_addr = codes "pipe" }) ≡ none)
unfolding client_ip parse_ip linkpulse_link.Http.split_host
client_ip_runs = (refl, refl, refl)

-- A hash that keeps the length alone.
abbrev builder : Builder
builder = record {
  salt = codes "s";
  digest = record { sha256_hex = λ t. length t ∷ []; ip_string = λ ip. ip };
  country = noop_country;
}

-- IDs in a row, and a database that knows one address.
abbrev in_a_row : IdGenerator ℕ
in_a_row = record { next = λ n. (fresh n, suc n) }

abbrev reader : List ℕ → Lookup
reader addr =
    if text_eq addr (mapped (10 ∷ 1 ∷ 2 ∷ 3 ∷ [])) then found (codes "CH") else lookup_failed

abbrev located : ClickEvent
located = event (with_geoip reader builder) 7 9 (codes "x") (codes "https://a.b") forwarded

located_country : located.country ≡ codes "CH"
unfolding event geoip_country addr_from_slice client_ip parse_ip text_eq
    linkpulse_link.Net.Strings.trim_space linkpulse_link.Net.Strings.cut
located_country = refl

build-IsLocated_example : IsLocated reader (client_ip forwarded) located.country
unfolding build
build-IsLocated_example =
    build-IsLocated reader in_a_row builder 9 (codes "x") (codes "https://a.b") forwarded 7 located
      refl
