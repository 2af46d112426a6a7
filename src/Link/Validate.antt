-- ===== src/Link/Validate.antt =====
-- internal/link/validate.go: which URLs a user may shorten.
pub mod Hosts
mod Tests
pub mod Accepted
pub mod Refused
use linkpulse_link.Base.{
  ℕ, ◌≤◌, ◌≡◌, ◌↔◌, ◌≢◌, ◌⊎◌, inl, inr, refl, Bool, true, false, not, ◌||◌, Option, none, some, [],
  ◌∷◌, arith, leb, if◌then◌else◌, Bool-cases,
}
use linkpulse_link.Base.Text.{Text, codes, text_eq, text_eq_iff, byte_len}
use linkpulse_link.Net.Strings.{is_empty, trim_space, to_lower, has_suffix}
use linkpulse_link.Net.Ip.{
  Ip, parse_ip, is_loopback, is_private, is_unspecified, is_link_local_unicast,
  is_link_local_multicast,
}
use linkpulse_link.Net.Url.{Url, Parsed, url, malformed, UrlLib}
use linkpulse_link.Link.{
  Reason, empty_url, too_long, no_host, unparsable, bad_scheme, blocked_host, Error, invalid_url,
  Result, ok, err, hangs, ◌>>=◌, ◌>>◌, guard,
}

abbrev pub max_url_length : ℕ
max_url_length = 2048

unfoldable pub is_internal : Ip → Bool
is_internal ip =
    is_loopback ip
    || is_private ip
    || is_unspecified ip
    || is_link_local_unicast ip
    || is_link_local_multicast ip

-- `isBlockedHost`
unfoldable pub is_blocked_host : Text → Bool
unfolding is_internal
is_blocked_host host =
    let lower = to_lower host in
    if text_eq lower (codes "localhost") || has_suffix lower (codes ".localhost")
    then true
    else elim (parse_ip host) [ some ip ↦ is_internal ip | none ↦ false ]

abbrev pub is_web : Text → Bool
is_web scheme = text_eq scheme (codes "http") || text_eq scheme (codes "https")

abbrev pub from_parsed : Parsed → Result Url
from_parsed (url u) = ok u
from_parsed (malformed e) = err (invalid_url (unparsable e))

module _ (lib : UrlLib) where
  -- `NormalizeAndValidateURL`
  unfoldable pub normalize_and_validate_url : Text → Result Text
  normalize_and_validate_url raw = do
    let trimmed = trim_space raw
    guard (not (is_empty trimmed)) (invalid_url empty_url)
    guard (leb (byte_len trimmed) max_url_length) (invalid_url too_long)
    u ← from_parsed (lib.parse trimmed)
    guard (is_web (to_lower u.scheme)) (invalid_url (bad_scheme u.scheme))
    guard (not (is_empty u.hostname)) (invalid_url no_host)
    guard (not (is_blocked_host u.hostname)) (invalid_url (blocked_host u.hostname))
    ok u.string

  -- What an accepted URL is: within the length, well formed, with a web scheme and an outer host.
  pub record IsAccepted (raw normalized : Text) : Type 0 where
    pub parsed : Url
    pub reads : lib.parse (trim_space raw) ≡ url parsed
    pub present : trim_space raw ≢ []
    pub fits : byte_len (trim_space raw) ≤ 2048
    pub web : (to_lower parsed.scheme ≡ codes "http") ⊎ (to_lower parsed.scheme ≡ codes "https")
    pub host : parsed.hostname ≢ []
    pub outer : is_blocked_host parsed.hostname ≡ false
    pub result : parsed.string ≡ normalized
