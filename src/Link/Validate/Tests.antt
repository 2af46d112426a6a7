-- ===== src/Link/Validate/Tests.antt =====
-- URLs that are accepted and refused, and hosts that are blocked.
use linkpulse_link.Base.{◌≡◌, ◌↔◌, refl, true, false, arith, if◌then◌else◌, drop, take}
use linkpulse_link.Base.Text.{codes, text_eq}
use linkpulse_link.Net.Strings.{to_lower, has_suffix}
use linkpulse_link.Net.Ip.Quads.{quad}
use linkpulse_link.Net.Url.{url, malformed, UrlLib}
use linkpulse_link.Link.Validate.{is_blocked_host}
use linkpulse_link.Link.Validate.Hosts.{IsInner, is_blocked_host-quad_iff, is_blocked_host-zone}

-- URLs of the form `https://host`.
abbrev plain : UrlLib
plain = record {
  parse = λ t.
      if text_eq (take 8 t) (codes "https://")
      then url (record { scheme = codes "https"; hostname = drop 8 t; string = t })
      else malformed (codes "no https");
}

is_blocked_host-quad_iff_example : (is_blocked_host (quad 172 31 0 1) ≡ true) ↔ IsInner 172 31 0 1
is_blocked_host-quad_iff_example =
    is_blocked_host-quad_iff 172 31 0 1 (omega arith) (omega arith) (omega arith) (omega arith)

zone_run : has_suffix (to_lower (codes "fe80::1%eth0")) (codes ".localhost") ≡ false
unfolding to_lower has_suffix
zone_run = refl

is_blocked_host-zone_example : is_blocked_host (codes "fe80::1%eth0") ≡ false
is_blocked_host-zone_example = is_blocked_host-zone (codes "fe80::1%eth0") refl zone_run
