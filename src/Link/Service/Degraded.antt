-- ===== src/Link/Service/Degraded.antt =====
-- `Resolve` past the cache: after a miss and after a failure of the cache.
use mathlib.Core.List.{Memᴰ}
use linkpulse_link.Base.{◌≡◌, ◌≢◌, inl, inr, refl, true, List, All, Bool-cases}
use linkpulse_link.Base.Text.{Text}
use linkpulse_link.Link.{
  Time, Error, not_found, expired, invalid_url, internal, Result, ok, err, hangs, Link, is_expired,
}
use linkpulse_link.Link.Action.{Warning, World, continue-elim, continue-pair}
use linkpulse_link.Link.Ports.{
  Resolved, Cache, CacheReply, hit, miss, failed, IsRepository, IsCache,
}
use linkpulse_link.Link.Service.{Service, resolve_stored, after_cache, resolve}
use linkpulse_link.Link.Service.Creating.{SameButCache, with_cache, with_state}
use linkpulse_link.Link.Service.Resolving.{IsRead}

-- The part past the cache does not look at it.
resolve_stored-cache_irrelevant :
    {R K K' G : Type 0} (s : Service R K G) (c : Cache K') (code : Text) (now later : Time) (r : R)
    (g : G) (k : K) (k' : K') (log log' : List Warning)
    → SameButCache
        (resolve_stored
          (with_cache s c)
          code
          now
          later
          (record { repo = r; cache = k'; ids = g; warnings = log' }))
        (resolve_stored s code now later (record { repo = r; cache = k; ids = g; warnings = log }))
unfolding resolve_stored
resolve_stored-cache_irrelevant s c code now later r g k k' log log' =
    continue-pair SameButCache (s.repo.get_by_short_code code r).0 _ _ _ _
      (λ l. elim (Bool-cases (is_expired l now)) [
        | inl late ↦ rw late (refl, refl, refl)
        | inr valid ↦ rw valid (refl, refl, refl)
      ])
      (λ _. (refl, refl, refl))

-- A failing cache costs nothing but the shortcut: the answer and the state of the repository are
-- those that any other cache would lead to whose reply is a miss.
pub resolve_degrades :
    {R K K' G : Type 0} (s : Service R K G) (c : Cache K') (code : Text) (now later : Time)
    (w : World R K G) (k : K')
    → (s.cache.get code w.cache).0 ≡ failed
    → (c.get code k).0 ≡ miss
    → SameButCache
        (resolve (with_cache s c) code now later (with_state w k))
        (resolve s code now later w)
unfolding resolve
resolve_degrades s c code now later w k broken missed =
    rw (broken, missed) (resolve_stored-cache_irrelevant s c code now later w.repo w.ids _ _ _ _)

module _ {R K G : Type 0} (s : Service R K G) {rows : R → List Link}
    {Holds : K → Text → Resolved → Type 0} (repo_laws : IsRepository s.repo rows)
    (cache_laws : IsCache s.cache Holds) where
  -- What a call past the cache says of its code, by its answer.
  abbrev pub Explains : Text → Time → R → Result Resolved → Type 0
  Explains code now r (ok res) = IsRead code now res (rows r)
  Explains code now r (err not_found) = All (λ l. l.short_code ≢ code) (rows r)
  Explains code now r (err expired) =
      (l : Link) × Memᴰ l (rows r) × (l.short_code ≡ code) × (is_expired l now ≡ true)
  Explains code now r (err (invalid_url _)) = ⊥
  Explains code now r (err (internal f)) = (s.repo.get_by_short_code code r).0 ≡ err (internal f)
  Explains code now r hangs = (s.repo.get_by_short_code code r).0 ≡ hangs

  Explains-err :
      (code : Text) (now : Time) (r : R) (e : Error)
      → (s.repo.get_by_short_code code r).0 ≡ err e
      → Explains code now r (err e)
  Explains-err code now r not_found found = repo_laws.get_missing code r found
  Explains-err code now r expired found = elim (repo_laws.get_err code r expired found) [
    | inl e ↦ cc
    | inr (f, e) ↦ cc
  ]
  Explains-err code now r (invalid_url u) found =
      elim (repo_laws.get_err code r (invalid_url u) found) [ inl e ↦ cc | inr (f, e) ↦ cc ]
  Explains-err code now r (internal f) found = found

  resolve_stored-Explains :
      (code : Text) (now later : Time) (w : World R K G)
      → Explains code now w.repo (resolve_stored s code now later w).0
  unfolding resolve_stored
  resolve_stored-Explains code now later w =
      continue-elim (λ p. Explains code now w.repo p.0) (s.repo.get_by_short_code code w.repo).0 _ _
        (λ l found.
          let (listed, named) = repo_laws.get_ok code w.repo l found in
          elim (Bool-cases (is_expired l now)) [
            | inl late ↦ rw late (l, listed, named, late)
            | inr valid ↦
                rw valid (record {
                  link = l;
                  listed = listed;
                  named = named;
                  valid = valid;
                  result = refl;
                })
          ])
        (Explains-err code now w.repo) (λ found. found)

  after_cache-Explains :
      (code : Text) (now later : Time) (w : World R K G) (reply : CacheReply)
      → ((res : Resolved) → reply ≢ hit res)
      → Explains code now w.repo (after_cache s code now later reply w).0
  after_cache-Explains code now later w (hit res) no_hit = absurd (no_hit res refl)
  after_cache-Explains code now later w miss no_hit = resolve_stored-Explains code now later w
  after_cache-Explains code now later w failed no_hit = resolve_stored-Explains code now later _

  -- Where the cache has no hit, every answer of `Resolve` is explained by the stored links, over
  -- a repository and a cache that keep their promises: a result is that of a link that has not
  -- expired, ErrExpired that of one that has, ErrNotFound says that no link has the code, any
  -- other error is that of the repository, and ErrInvalidURL does not occur.
  pub resolve-Explains :
      (code : Text) (now later : Time) (w : World R K G)
      → ((res : Resolved) → (s.cache.get code w.cache).0 ≢ hit res)
      → Explains code now w.repo (resolve s code now later w).0
  unfolding resolve
  resolve-Explains code now later w no_hit =
      after_cache-Explains code now later _ (s.cache.get code w.cache).0 no_hit
