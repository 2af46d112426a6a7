-- ===== src/Link/Service.antt =====
-- internal/link/service.go: the service over its three dependencies.
-- `s.now()` is read anew at each call, so a method takes one argument for each reading.
pub mod Ttl
pub mod Creating
pub mod Resolving
pub mod Degraded
pub mod Requests
pub mod Staleness
pub mod Collisions
pub mod Sample
mod Tests
use linkpulse_link.Base.{
  ℕ, Bool, true, false, ◌||◌, Option, none, some, List, [], ◌∷◌, ◌++◌, if◌then◌else◌,
}
use linkpulse_link.Base.Text.{Text, codes}
use linkpulse_link.Base.Int.{ℤ, pos, ◌-ℤ◌, ltb_ℤ, leb_ℤ, saturate}
use linkpulse_link.Base.Word.{Int64}
use linkpulse_link.Shortcode.{encode}
use linkpulse_link.Net.Url.{UrlLib}
use linkpulse_link.Link.{
  Time, Duration, Error, expired, internal, id_generation, Result, ok, err, hangs, Link, is_expired,
}
use linkpulse_link.Link.Action.{
  Warning, cache_not_read, cache_not_warmed, World, Action, ◌>>=◌, ◌>>◌, pure, raise, lift,
}
use linkpulse_link.Link.Ports.{
  Resolved, Repository, CacheReply, hit, miss, failed, Written, stored, not_stored, Cache, IdReply,
  fresh, refused, blocks, IdGenerator,
}
use linkpulse_link.Link.Validate.{normalize_and_validate_url}

-- `Service`, less its logger and its clock.
pub record Service (R K G : Type 0) : Type 0 where
  pub repo : Repository R
  pub cache : Cache K
  pub ids : IdGenerator G
  pub base_url : Text
  pub cache_ttl : Duration

-- `Resolved{LinkID: l.ID, OriginalURL: l.OriginalURL}`
abbrev pub resolved : Link → Resolved
resolved l = record { link_id = l.id; original_url = l.original_url }

abbrev pub id_result : IdReply → Result Int64
id_result (fresh id) = ok id
id_result refused = err (internal id_generation)
id_result blocks = hangs

abbrev pub warned : Text → Written → List Warning → List Warning
warned code stored log = log
warned code not_stored log = log ++ cache_not_warmed code ∷ []

-- `limit <= 0 || limit > 100`
unfoldable pub page_size : ℤ → ℤ
page_size limit = if leb_ℤ limit (pos 0) || ltb_ℤ (pos 100) limit then pos 20 else limit

unfoldable pub page_start : ℤ → ℤ
page_start offset = if ltb_ℤ offset (pos 0) then pos 0 else offset

module _ {R K G : Type 0} (s : Service R K G) where
  -- `cacheTTLFor`
  unfoldable pub cache_ttl_for : Link → Time → Duration
  cache_ttl_for l now = elim l.expires_at [
    | none ↦ s.cache_ttl
    | some t ↦
        let remaining = saturate (t -ℤ now) in
        if ltb_ℤ remaining s.cache_ttl then remaining else s.cache_ttl
  ]

  -- `ShortURL`
  unfoldable pub short_url : Text → Text
  short_url code = s.base_url ++ b'/' ∷ code

  unfoldable pub next_id : Action (World R K G) Int64
  next_id w = (id_result (s.ids.next w.ids).0, record w { ids = (s.ids.next w.ids).1 })

  unfoldable pub insert : Link → Action (World R K G) (Unit {0})
  insert l w = ((s.repo.create l w.repo).0, record w { repo = (s.repo.create l w.repo).1 })

  -- `s.cache.Set`, with a warning for its error.
  unfoldable pub warm : Text → Resolved → Duration → Action (World R K G) (Unit {0})
  warm code res ttl w =
      let (written, cache) = s.cache.set code res ttl w.cache in
      (ok tt, record w { cache = cache; warnings = warned code written w.warnings })

  -- `Create`; the readings are those for `CreatedAt` and for the TTL.
  unfoldable pub create :
      UrlLib → Text → Text → Option Time → Time → Time → Action (World R K G) Link
  unfolding next_id insert warm
  create lib user_id raw_url expires_at now later = do
    normalized ← lift (normalize_and_validate_url lib raw_url)
    id ← next_id
    let l : Link = record {
      id = id;
      short_code = encode id;
      original_url = normalized;
      user_id = user_id;
      created_at = now;
      expires_at = expires_at;
    }
    insert l
    warm l.short_code (resolved l) (cache_ttl_for l later)
    pure l

  unfoldable pub find : Text → Action (World R K G) Link
  find code w = (
    (s.repo.get_by_short_code code w.repo).0,
    record w { repo = (s.repo.get_by_short_code code w.repo).1 },
  )

  -- `Resolve` from the database on; the readings are those for `Expired` and for the TTL.
  unfoldable pub resolve_stored : Text → Time → Time → Action (World R K G) Resolved
  unfolding find warm
  resolve_stored code now later = do
    l ← find code
    if is_expired l now
        then raise expired
        else do warm code (resolved l) (cache_ttl_for l later); pure (resolved l)

  abbrev pub after_cache : Text → Time → Time → CacheReply → Action (World R K G) Resolved
  after_cache code now later (hit res) w = (ok res, w)
  after_cache code now later miss w = resolve_stored code now later w
  after_cache code now later failed w =
      resolve_stored code now later (record w { warnings = w.warnings ++ cache_not_read code ∷ [] })

  -- `Resolve`
  unfoldable pub resolve : Text → Time → Time → Action (World R K G) Resolved
  resolve code now later w =
      after_cache code now later (s.cache.get code w.cache).0
        (record w { cache = (s.cache.get code w.cache).1 })

  -- `ListByUser`
  unfoldable pub list_by_user : Text → ℤ → ℤ → Action (World R K G) (List Link)
  unfolding page_size page_start
  list_by_user user_id limit offset w =
      let (links, repo) =
        s.repo.list_by_user user_id (page_size limit) (page_start offset) w.repo in
      (links, record w { repo = repo })

-- A request to the service, with the readings of its clock.
pub data Request : Type 0 where
  creating : Text → Text → Option Time → Time → Time → Request
  resolving : Text → Time → Time → Request
  listing : Text → ℤ → ℤ → Request

module _ {R K G : Type 0} (s : Service R K G) (lib : UrlLib) where
  -- The state after a request, and after requests one after another.
  unfoldable pub handle : Request → World R K G → World R K G
  handle (creating user raw expires now later) w = (create s lib user raw expires now later w).1
  handle (resolving code now later) w = (resolve s code now later w).1
  handle (listing user limit offset) w = (list_by_user s user limit offset w).1

  unfoldable pub serve : List Request → World R K G → World R K G
  serve [] w = w
  serve (q ∷ qs) w = serve qs (handle q w)
