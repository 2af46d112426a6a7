-- ===== src/Link/Service/Staleness/Tests.antt =====
-- A client in memory whose keys expire, and the sample service on it.
use mathlib.Core.List.{Memᴰ}
use linkpulse_link.Base.{
  ◌≡◌, ◌⊎◌, inl, inr, refl, ap, sym, Bool, true, false, ◌&&◌, some, List, [], ◌∷◌, Bool-cases,
  arith, if◌then◌else◌,
}
use linkpulse_link.Base.Text.{Text, codes, text_eq, text_eq_sound}
use linkpulse_link.Base.Int.{ℤ, pos, ◌+ℤ◌, ◌≤ℤ◌, ◌<ℤ◌, ltb_ℤ}
use linkpulse_link.Link.{Time, Duration, Link}
use linkpulse_link.Link.Action.{World}
use linkpulse_link.Link.Ports.{Resolved, hit}
use linkpulse_link.Cache.{GetReply, value, missing, set_done, SetReply, Client, redis}
use linkpulse_link.Cache.Memory.{runes, runes-IsCodec}
use linkpulse_link.Repository.Memory.{Db, memory, memory-IsTable}
use linkpulse_link.Repository.Laws.{stored}
use linkpulse_link.Snowflake.Ids.{Ids}
use linkpulse_link.Link.Service.{Service, resolved, creating, handle}
use linkpulse_link.Link.Service.Sample
use linkpulse_link.Link.Service.Sample.{plain, start, raw_url, link, repo_laws}
use linkpulse_link.Link.Service.Staleness.{IsTimed, Timely, request, passes, here, hit-IsCurrent}
use linkpulse_link.Link.Service.Staleness.Redis.{IsTimedClient, Lives, redis-IsTimed}

abbrev Entry : Type 0
Entry = Text × Text × Time

record Store : Type 0 where
  entries : List Entry
  now : Time

unfoldable find : Text → Time → List Entry → GetReply
find key now [] = missing
find key now ((k, v, until) ∷ es) =
    let rest = find key now es in if text_eq k key && ltb_ℤ now until then value v else rest

abbrev client : Client Store
client = record {
  get_value = λ key s. (find key s.now s.entries, s);
  set_value =
      λ key val ttl s. (set_done, record s { entries = (key, val, s.now +ℤ ttl) ∷ s.entries });
}

abbrev Has : Store → Text → Text → Time → Type 0
Has s key val until = Memᴰ (key, val, until) s.entries

find-value :
    (key : Text) (now : Time) (es : List Entry) (val : Text)
    → find key now es ≡ value val
    → (until : Time) × Memᴰ (key, val, until) es × (now <ℤ until)
unfolding find
find-value key now [] val h = cc
find-value key now ((k, v, until) ∷ es) val h =
    elim (Bool-cases (text_eq k key && ltb_ℤ now until)) [
      | inl own ↦
          let same : value v ≡ value val = rw own at h in
          let named : k ≡ key = text_eq_sound k key (ground arith) in
          (until, Memᴰ.head (cc), ground arith)
      | inr other ↦
          let (u, m, before) = find-value key now es val (rw other at h) in (u, Memᴰ.tail m, before)
    ]

newest :
    (key k val v : Text) (end until : Time) (es : List Entry)
    → Memᴰ (k, v, until) ((key, val, end) ∷ es)
    → Memᴰ (k, v, until) es ⊎ ((key ≡ k) × (val ≡ v) × (until ≡ end))
newest key k val v end until es (Memᴰ.head e) =
    inr (sym (ap (λ x. x.0) e), sym (ap (λ x. x.1) e), ap (λ x. x.2) e)
newest key k val v end until es (Memᴰ.tail m) = inl m

client-IsTimed : IsTimedClient client Has (λ s. s.now)
client-IsTimed = record {
  get_value_of = λ key s val h. find-value key s.now s.entries val h;
  get_adds_none = λ key k s v until h. h;
  set_adds_one = λ key k val v ttl s until h. newest key k val v (s.now +ℤ ttl) until s.entries h;
}

abbrev service : Service Db Store Ids
service = record {
  repo = Sample.service.repo;
  cache = redis client runes;
  ids = Sample.service.ids;
  base_url = Sample.service.base_url;
  cache_ttl = pos 1000;
}

abbrev links : Db → List Link
links = stored memory memory-IsTable

abbrev ClientLives : Store → Text → Resolved → Time → Type 0
ClientLives = Lives client runes client-IsTimed runes-IsCodec

abbrev clock : Store → Time
clock s = s.now

timed : IsTimed service.cache ClientLives clock
timed = redis-IsTimed client runes client-IsTimed runes-IsCodec

abbrev empty : World Db Store Ids
empty = record {
  repo = start.repo;
  cache = record { entries = []; now = pos 6 };
  ids = start.ids;
  warnings = [];
}

-- The link is created, and four nanoseconds go by.
abbrev created : World Db Store Ids
created = handle service plain (creating (codes "u") raw_url (some (pos 300)) (pos 5) (pos 6)) empty

abbrev later : World Db Store Ids
later = record created { cache = record created.cache { now = pos 10 } }

in_time : clock empty.cache ≤ℤ pos 6 +ℤ pos 1
unfolding ◌+ℤ◌
in_time = omega arith

steps : Timely service plain (pos 1) repo_laws timed empty later
steps =
    request (creating (codes "u") raw_url (some (pos 300)) (pos 5) (pos 6)) in_time
      (passes later.cache (λ c r until h. h) here)

found : (service.cache.get link.short_code later.cache).0 ≡ hit (resolved link)
unfolding linkpulse_link.Link.Service.create linkpulse_link.Link.Validate.normalize_and_validate_url
    linkpulse_link.Net.Strings.trim_space linkpulse_link.Base.Text.byte_len text_eq
    linkpulse_link.Net.Strings.to_lower linkpulse_link.Link.Validate.is_blocked_host
    linkpulse_link.Net.Strings.has_suffix linkpulse_link.Net.Ip.parse_ip
    linkpulse_link.Snowflake.Ids.next_reply linkpulse_link.Snowflake.Ids.reply
    linkpulse_link.Snowflake.next linkpulse_link.Repository.create
    linkpulse_link.Repository.insert_result linkpulse_link.Repository.Memory.insert_into
    linkpulse_link.Snowflake.pack linkpulse_link.Cache.set linkpulse_link.Link.Service.cache_ttl_for
    linkpulse_link.Base.Int.saturate linkpulse_link.Base.Int.◌-ℤ◌ linkpulse_link.Cache.set_result
    linkpulse_link.Cache.get linkpulse_link.Cache.get_result linkpulse_link.Cache.parsed
    linkpulse_link.Repository.to_domain linkpulse_link.Shortcode.encode
    linkpulse_link.Shortcode.reverse_in_place linkpulse_link.Shortcode.low_digits
    linkpulse_link.Shortcode.digit linkpulse_link.Cache.Memory.unpack
    linkpulse_link.Repository.to_row handle find ◌+ℤ◌
found = refl

hit-IsCurrent_example :
    (l : Link) × Memᴰ l (links later.repo)
    × (l.short_code ≡ link.short_code)
    × (resolved l ≡ resolved link)
    × ((t : Time) → l.expires_at ≡ some t → pos 10 <ℤ t +ℤ pos 1)
hit-IsCurrent_example =
    hit-IsCurrent service plain (pos 1) repo_laws timed empty later link.short_code (resolved link)
      (λ c r until (val, has, parses). elim has [ ]) steps found
