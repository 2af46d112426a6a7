-- ===== src/Link/Service/Tests.antt =====
-- The theorems of the service at the sample.
use linkpulse_link.Base.{
  ◌+◌, ◌≡◌, ◌≢◌, ◌↔◌, ◌⊎◌, refl, Bool, true, false, Option, none, some, List, [], ◌∷◌, ◌++◌, All,
  arith,
}
use linkpulse_link.Base.Text.{codes}
use linkpulse_link.Base.Int.{ℤ, pos, negsuc, ◌+ℤ◌, ◌≤ℤ◌, ◌<ℤ◌}
use linkpulse_link.Shortcode.{encode}
use linkpulse_link.Link.{invalid_url, empty_url, ok, err, Link}
use linkpulse_link.Link.Action.{World}
use linkpulse_link.Link.Ports.{Resolved, hit, miss, failed}
use linkpulse_link.Link.Validate.{normalize_and_validate_url}
use linkpulse_link.Snowflake.Ids.{Ids}
use linkpulse_link.Repository.Memory.{Db, memory, memory-IsTable}
use linkpulse_link.Repository.Laws.{stored}
use linkpulse_link.Cache.{redis}
use linkpulse_link.Cache.Memory.{Store, memory_client, memory-IsClient, runes, runes-IsCodec}
use linkpulse_link.Cache.Laws.{Holds}
use linkpulse_link.Link.Service.{
  resolved, cache_ttl_for, page_size, page_start, create, resolve, creating, handle, serve,
}
use linkpulse_link.Link.Service.Ttl.{cache_ttl_for-le-expiry, page_bounds}
use linkpulse_link.Link.Service.Creating.{
  create-stored, SameButCache, with_cache, with_state, create-cache_irrelevant,
}
use linkpulse_link.Link.Service.Resolving.{IsCoherent, resolve-IsCoherent}
use linkpulse_link.Link.Service.Degraded.{resolve_degrades, Explains, resolve-Explains}
use linkpulse_link.Link.Service.Requests.{IsSound, serve-IsSound, resolve-create}
use linkpulse_link.Link.Service.Sample.{
  plain, service, start, cold, raw_url, link, created, session, repo_laws, cache_laws,
  start-IsSound, runs,
}

abbrev links : Db → List Link
links = stored memory memory-IsTable

create-stored_example :
    (links (created start).1.repo ≡ link ∷ [])
    × All {A = Link} (λ x. x.short_code ≢ link.short_code) []
    × (link.short_code ≡ encode link.id)
    × (normalize_and_validate_url plain raw_url ≡ ok link.original_url)
    × (link.user_id ≡ codes "u")
    × (link.created_at ≡ pos 5)
    × (link.expires_at ≡ some (pos 300))
create-stored_example =
    create-stored service plain (codes "u") raw_url (some (pos 300)) (pos 5) (pos 6) start link
      repo_laws runs.creates

refused_run : normalize_and_validate_url plain (codes "  ") ≡ err (invalid_url empty_url)
unfolding normalize_and_validate_url linkpulse_link.Net.Strings.trim_space
refused_run = refl

create-cache_irrelevant_example :
    SameButCache
      (create
        (with_cache service service.cache)
        plain
        (codes "u")
        raw_url
        (some (pos 300))
        (pos 5)
        (pos 6)
        (with_state start cold.cache))
      (created start)
create-cache_irrelevant_example =
    create-cache_irrelevant service service.cache plain (codes "u") raw_url (some (pos 300)) (pos 5)
      (pos 6) start cold.cache

serve-IsSound_example :
    IsSound service plain repo_laws cache_laws (serve service plain session start)
serve-IsSound_example = serve-IsSound service plain repo_laws cache_laws session start start-IsSound

created-IsSound :
    (w : World Db Store Ids)
    → IsSound service plain repo_laws cache_laws w
    → IsSound service plain repo_laws cache_laws (created w).1
unfolding serve handle
created-IsSound w sound =
    serve-IsSound service plain repo_laws cache_laws
      (creating (codes "u") raw_url (some (pos 300)) (pos 5) (pos 6) ∷ []) w sound

resolve-IsCoherent_run :
    (links (resolve service link.short_code (pos 10) (pos 11) (created start).1).1.repo
      ≡ links (created start).1.repo)
    × IsCoherent links
        (Holds memory_client runes memory-IsClient runes-IsCodec)
        (resolve service link.short_code (pos 10) (pos 11) (created start).1).1
resolve-IsCoherent_run =
    resolve-IsCoherent service repo_laws cache_laws link.short_code (pos 10) (pos 11)
      (created start).1 (created-IsSound start start-IsSound).coherent

resolve-create_run : resolved link ≡ resolved link
resolve-create_run =
    resolve-create service plain repo_laws cache_laws (codes "u") raw_url (some (pos 300)) (pos 5)
      (pos 6) start link session (pos 10) (pos 11) (resolved link) start-IsSound runs.creates
      runs.resolves_later

-- The link is stored, and the cache is down.
abbrev filled : World Db Store Ids
filled = record cold { repo = (created cold).1.repo }

cold_get : (service.cache.get link.short_code filled.cache).0 ≡ failed
unfolding linkpulse_link.Cache.get linkpulse_link.Cache.get_result
    linkpulse_link.Cache.Memory.read_from
cold_get = refl

start_get : (service.cache.get link.short_code start.cache).0 ≡ miss
unfolding linkpulse_link.Cache.get linkpulse_link.Cache.get_result
    linkpulse_link.Cache.Memory.read_from linkpulse_link.Cache.Memory.find_entry
start_get = refl

resolve_degrades_example :
    SameButCache
      (resolve
        (with_cache service service.cache)
        link.short_code
        (pos 10)
        (pos 11)
        (with_state filled start.cache))
      (resolve service link.short_code (pos 10) (pos 11) filled)
resolve_degrades_example =
    resolve_degrades service service.cache link.short_code (pos 10) (pos 11) filled start.cache
      cold_get start_get

cold_no_hit : (res : Resolved) → (service.cache.get link.short_code filled.cache).0 ≢ hit res
cold_no_hit res e = cc (cold_get)

resolve-Explains_example :
    Explains service repo_laws cache_laws link.short_code
      (pos 10)
      filled.repo
      (resolve service link.short_code (pos 10) (pos 11) filled).0
resolve-Explains_example =
    resolve-Explains service repo_laws cache_laws link.short_code (pos 10) (pos 11) filled
      cold_no_hit

ttl_run : cache_ttl_for service link (pos 6) ≡ pos 294
unfolding cache_ttl_for linkpulse_link.Base.Int.saturate linkpulse_link.Base.Int.◌-ℤ◌
ttl_run = refl

cache_ttl_for-le-expiry_run : pos 6 +ℤ cache_ttl_for service link (pos 6) ≤ℤ pos 300
cache_ttl_for-le-expiry_run =
    cache_ttl_for-le-expiry service link (pos 6) (pos 300) refl (rw ttl_run (omega arith))

page_bounds_run :
    (pos 1 ≤ℤ page_size (pos 500))
    × (page_size (pos 500) ≤ℤ pos 100)
    × (pos 0 ≤ℤ page_start (negsuc 4))
    × (((pos 1 ≤ℤ pos 500) × (pos 500 ≤ℤ pos 100) × (page_size (pos 500) ≡ pos 500))
        ⊎ (((pos 500 ≤ℤ pos 0) ⊎ (pos 100 <ℤ pos 500)) × (page_size (pos 500) ≡ pos 20)))
    × (((pos 0 ≤ℤ negsuc 4) × (page_start (negsuc 4) ≡ negsuc 4))
        ⊎ ((negsuc 4 <ℤ pos 0) × (page_start (negsuc 4) ≡ pos 0)))
page_bounds_run = page_bounds (pos 500) (negsuc 4)
