-- ===== src/Link/Service/Sample.antt =====
-- The service on a table in memory, a Redis client in memory and the generator, with runs of it.
use linkpulse_link.Base.{
  ◌+◌, ◌≡◌, ◌≢◌, ◌↔◌, ◌⊎◌, refl, Bool, true, false, Option, none, some, List, [], ◌∷◌, ◌++◌, All,
  arith, if◌then◌else◌, drop, take,
}
use linkpulse_link.Base.Text.{Text, codes, text_eq}
use linkpulse_link.Base.Int.{ℤ, pos, negsuc, ◌+ℤ◌, ◌≤ℤ◌, ◌<ℤ◌}
use linkpulse_link.Shortcode.{encode}
use linkpulse_link.Net.Strings.{is_empty}
use linkpulse_link.Net.Url.{url, malformed, UrlLib}
use linkpulse_link.Link.{
  internal, insert_failed, Time, Error, not_found, expired, invalid_url, empty_url, no_host, Result,
  ok, err, Link, is_expired,
}
use linkpulse_link.Link.Action.{cache_not_warmed, World}
use linkpulse_link.Link.Ports.{IsRepository, IsCache}
use linkpulse_link.Link.Validate.{normalize_and_validate_url}
use linkpulse_link.Snowflake.{Clock, new, next, epoch}
use linkpulse_link.Snowflake.Ids.{Ids, snowflake, next_reply, reply}
use linkpulse_link.Repository.{postgres}
use linkpulse_link.Repository.Memory.{Db, memory, memory-IsTable}
use linkpulse_link.Repository.Laws.{postgres-IsRepository, stored}
use linkpulse_link.Cache.{redis}
use linkpulse_link.Cache.Memory.{Store, memory_client, Has, memory-IsClient, runes, runes-IsCodec}
use linkpulse_link.Cache.Laws.{Holds, redis-IsCache}
use linkpulse_link.Link.Service.{
  Service, resolved, cache_ttl_for, page_size, page_start, create, resolve, Request, creating,
  resolving, listing, handle, serve,
}
use linkpulse_link.Link.Service.Requests.{IsSound}

-- URLs of the form `https://host`.
abbrev pub plain : UrlLib
plain = record {
  parse = λ t.
      if text_eq (take 8 t) (codes "https://")
      then url (record { scheme = codes "https"; hostname = drop 8 t; string = t })
      else malformed (codes "no https");
}

abbrev pub service : Service Db Store Ids
service = record {
  repo = postgres memory;
  cache = redis memory_client runes;
  ids = snowflake;
  base_url = codes "http://localhost:8080";
  cache_ttl = pos 1000;
}

abbrev pub start : World Db Store Ids
start = record {
  repo = record { table = []; faults = [] };
  cache = record { entries = []; down = false };
  ids = (record { worker_id = 1; last_ms = 0; sequence = 0 }, (epoch + 1) ∷ (epoch + 1) ∷ []);
  warnings = [];
}

-- The same with a cache that is down, and with a database that is down.
abbrev pub cold : World Db Store Ids
cold = record start { cache = record { entries = []; down = true } }

abbrev pub dark : World Db Store Ids
dark = record start { repo = record { table = []; faults = true ∷ [] } }

abbrev pub raw_url : Text
raw_url = codes " https://example.com "

abbrev pub link : Link
link = record {
  id = 4_198_400;
  short_code = encode 4_198_400;
  original_url = codes "https://example.com";
  user_id = codes "u";
  created_at = pos 5;
  expires_at = some (pos 300);
}

abbrev pub created : World Db Store Ids → Result Link × World Db Store Ids
created w = create service plain (codes "u") raw_url (some (pos 300)) (pos 5) (pos 6) w

pub repo_laws : IsRepository service.repo (stored memory memory-IsTable)
repo_laws = postgres-IsRepository memory memory-IsTable

pub cache_laws : IsCache service.cache (Holds memory_client runes memory-IsClient runes-IsCodec)
cache_laws = redis-IsCache memory_client runes memory-IsClient runes-IsCodec

-- Nothing is stored, nothing is cached.
pub start-IsSound : IsSound service plain repo_laws cache_laws start
start-IsSound = record { distinct = tt; coherent = λ code res (val, has, parses). elim has [ ] }

-- An unknown code is looked up, and the links are listed.
abbrev pub session : List Request
session = resolving (codes "x") (pos 8) (pos 9) ∷ listing (codes "u") (pos 0) (negsuc 4) ∷ []

-- What the runs below come to: a link is created, with a warning where the cache is down, and not
-- where the insert fails; its code is resolved from the cache, and without the cache from the
-- database, until it expires.
pub record Runs : Type 0 where
  pub creates : (created start).0 ≡ ok link
  pub fails : (created dark).0 ≡ err (internal insert_failed)
  pub creates_cold : (created cold).0 ≡ ok link
  pub warns : (created cold).1.warnings ≡ cache_not_warmed link.short_code ∷ []
  pub resolves :
      (resolve service link.short_code (pos 10) (pos 11) (created start).1).0 ≡ ok (resolved link)
  pub resolves_cold :
      (resolve service link.short_code (pos 10) (pos 11) (created cold).1).0 ≡ ok (resolved link)
  pub expires :
      (resolve service link.short_code (pos 301) (pos 302) (created cold).1).0 ≡ err expired
  pub finds_none :
      (resolve service (codes "x") (pos 10) (pos 11) (created cold).1).0 ≡ err not_found
  pub resolves_later :
      (resolve service link.short_code
        (pos 10)
        (pos 11)
        (serve service plain session (created start).1)).0
      ≡ ok (resolved link)
  pub finds_later :
      (service.repo.get_by_short_code link.short_code
        (serve service plain session (created start).1).repo).0
      ≡ ok link

pub runs : Runs
unfolding create normalize_and_validate_url linkpulse_link.Net.Strings.trim_space
    linkpulse_link.Base.Text.byte_len text_eq linkpulse_link.Net.Strings.to_lower
    linkpulse_link.Link.Validate.is_blocked_host linkpulse_link.Net.Strings.has_suffix
    linkpulse_link.Net.Ip.parse_ip next_reply reply next linkpulse_link.Repository.create
    linkpulse_link.Repository.insert_result linkpulse_link.Repository.Memory.insert_into
    linkpulse_link.Snowflake.pack linkpulse_link.Cache.set cache_ttl_for
    linkpulse_link.Base.Int.saturate linkpulse_link.Base.Int.◌-ℤ◌ linkpulse_link.Cache.set_result
    linkpulse_link.Cache.Memory.write_to resolve linkpulse_link.Cache.get
    linkpulse_link.Cache.get_result linkpulse_link.Cache.parsed
    linkpulse_link.Cache.Memory.read_from linkpulse_link.Cache.Memory.find_entry
    linkpulse_link.Repository.get_by_short_code linkpulse_link.Repository.row_result
    linkpulse_link.Repository.Memory.get_from linkpulse_link.Repository.Memory.find_row is_expired
    linkpulse_link.Repository.to_domain encode linkpulse_link.Shortcode.reverse_in_place
    linkpulse_link.Shortcode.low_digits linkpulse_link.Shortcode.digit
    linkpulse_link.Cache.Memory.unpack linkpulse_link.Repository.to_row
    linkpulse_link.Link.Service.resolve_stored serve handle linkpulse_link.Link.Service.list_by_user
    linkpulse_link.Repository.list_by_user linkpulse_link.Repository.Memory.select_from
runs = record {
  creates = refl;
  fails = refl;
  creates_cold = refl;
  warns = refl;
  resolves = refl;
  resolves_cold = refl;
  expires = refl;
  finds_none = refl;
  resolves_later = refl;
  finds_later = refl;
}
