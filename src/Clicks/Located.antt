-- ===== src/Clicks/Located.antt =====
-- The country of an event, with the database of MaxMind as the resolver.
use mathlib.Core.Path.{subst}
use linkpulse_link.Base.{
  ℕ, ◌≡◌, refl, ap, ◌∙◌, Bool-cases, Option-cases, inl, inr, Option, none, some, List, [], length,
}
use linkpulse_link.Base.Text.{Text, codes}
use linkpulse_link.Base.Word.{Int64}
use linkpulse_link.Net.Strings.{is_empty, cut, trim_space}
use linkpulse_link.Net.Ip.{Ip, parse_ip}
use linkpulse_link.Net.Ip.Lengths.{parse_ip-length}
use linkpulse_link.Http.{Request, split_host}
use linkpulse_link.Link.{ok, err, hangs, ◌>>=◌}
use linkpulse_link.Link.Ports.{IdGenerator, IdReply, fresh, refused, blocks}
use linkpulse_link.Link.Service.{id_result}
use linkpulse_link.Clicks.{ClickEvent, Builder, remote_ip, client_ip, event, build}
use linkpulse_link.Clicks.Geo.{Lookup, iso_code, addr_from_slice, geoip_country}

module _ (r : Request) (ip : Ip) where
  remote_ip-length : remote_ip r ≡ some ip → length ip ≡ 16
  unfolding remote_ip
  remote_ip-length e = elim (Option-cases (split_host r.remote_addr)) [
    | inl whole ↦ parse_ip-length r.remote_addr ip (rw (whole, remote_ip) at e)
    | inr (host, split) ↦ parse_ip-length host ip (rw (split, remote_ip) at e)
  ]

  -- What `clientIP` finds has the form of 16 bytes.
  client_ip-length : client_ip r ≡ some ip → length ip ≡ 16
  unfolding client_ip
  client_ip-length e =
      let xff = r.header (codes "X-Forwarded-For") in
      let first = trim_space (cut b',' xff).0 in
      elim (Bool-cases (is_empty xff)) [
        | inl absent ↦ remote_ip-length (rw (absent, client_ip) at e)
        | inr given ↦ elim (Option-cases (parse_ip first)) [
          | inl no_address ↦ remote_ip-length (rw (given, no_address, client_ip) at e)
          | inr (found, reads) ↦
              parse_ip-length first ip (reads ∙ (rw (given, reads, client_ip) at e))
        ]
      ]

-- The country of an address: of none it is empty, and any other is looked up whole.
pub data IsLocated (reader : List ℕ → Lookup) : Option Ip → Text → Type 0 where
  unknown : IsLocated reader none []
  looked_up : (ip : Ip) → length ip ≡ 16 → IsLocated reader (some ip) (iso_code (reader ip))

module _ (reader : List ℕ → Lookup) where
  geoip_country-IsLocated :
      (found : Option Ip)
      → ((ip : Ip) → found ≡ some ip → length ip ≡ 16)
      → IsLocated reader found (geoip_country reader found)
  unfolding geoip_country addr_from_slice
  geoip_country-IsLocated none long = unknown
  geoip_country-IsLocated (some ip) long =
      let sixteen = long ip refl in
      rw (sixteen, geoip_country, addr_from_slice) (looked_up ip sixteen)

  abbrev pub with_geoip : Builder → Builder
  with_geoip b = record b { country = geoip_country reader }

  reply-IsLocated :
      (b : Builder) (reply : IdReply) (link_id : Int64) (short_code original_url : Text)
      (r : Request) (ev : ClickEvent)
      → (id_result reply >>= λ id. ok (event (with_geoip b) id link_id short_code original_url r))
        ≡ ok ev
      → IsLocated reader (client_ip r) ev.country
  unfolding event
  reply-IsLocated b (fresh id) link_id short_code original_url r ev e =
      let same : geoip_country reader (client_ip r) ≡ ev.country =
        ap (λ x. elim x [ ok v ↦ v.country | err _ ↦ ev.country | hangs ↦ ev.country ]) e in
      subst (IsLocated reader (client_ip r)) same
        (geoip_country-IsLocated (client_ip r) (λ ip. client_ip-length r ip))
  reply-IsLocated b refused link_id short_code original_url r ev e = cc
  reply-IsLocated b blocks link_id short_code original_url r ev e = cc

  -- No address of a client is lost on the way to the database: where `Build` returns an event, its
  -- country is what the reader answers for the whole address that clientIP finds, which has 16
  -- bytes, and empty where clientIP finds none.
  pub build-IsLocated :
      {G : Type 0} (ids : IdGenerator G) (b : Builder) (link_id : Int64)
      (short_code original_url : Text) (r : Request) (g : G) (ev : ClickEvent)
      → (build ids (with_geoip b) link_id short_code original_url r g).0 ≡ ok ev
      → IsLocated reader (client_ip r) ev.country
  unfolding build
  build-IsLocated ids b link_id short_code original_url r g ev =
      reply-IsLocated b (ids.next g).0 link_id short_code original_url r ev
