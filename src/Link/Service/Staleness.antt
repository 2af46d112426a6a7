-- ===== src/Link/Service/Staleness.antt =====
-- How long a link can be served from the cache behind its expiry.
pub mod Redis
mod Tests
use mathlib.Core.List.{Memᴰ}
use linkpulse_link.Base.{◌≡◌, ◌⊎◌, inl, inr, refl, ◌∙◌, Option, some, List, ◌∷◌, Bool-cases, arith}
use linkpulse_link.Base.Text.{Text}
use linkpulse_link.Base.Int.{ℤ, pos, ◌+ℤ◌, ◌≤ℤ◌, ◌<ℤ◌, +ℤ_parts}
use linkpulse_link.Net.Url.{UrlLib}
use linkpulse_link.Link.{Time, Duration, Result, ok, Link, is_expired}
use linkpulse_link.Link.Action.{World, continue-elim}
use linkpulse_link.Link.Ports.{Resolved, Cache, CacheReply, hit, miss, failed, IsRepository}
use linkpulse_link.Link.Validate.{normalize_and_validate_url}
use linkpulse_link.Link.Service.{
  Service, resolved, id_result, cache_ttl_for, create, resolve_stored, after_cache, resolve,
  list_by_user, Request, creating, resolving, listing, handle,
}
use linkpulse_link.Link.Service.Creating.{made}
use linkpulse_link.Link.Service.Ttl.{cache_ttl_for-le-expiry}

-- A cache with a clock: an entry lives until a time, which is that of its `Set` and its lifetime.
pub record IsTimed {K : Type 0} (cache : Cache K) (Lives : K → Text → Resolved → Time → Type 0)
    (clock : K → Time) : Type 0 where
  pub get_hit :
      (code : Text) (k : K) (res : Resolved)
      → (cache.get code k).0 ≡ hit res
      → (until : Time) × Lives k code res until × (clock k <ℤ until)
  pub get_keeps :
      (code c : Text) (k : K) (res : Resolved) (until : Time)
      → Lives (cache.get code k).1 c res until
      → Lives k c res until
  pub set_keeps :
      (code c : Text) (res r : Resolved) (ttl : Duration) (k : K) (until : Time)
      → Lives (cache.set code res ttl k).1 c r until
      → Lives k c r until ⊎ ((code ≡ c) × (res ≡ r) × (pos 0 <ℤ ttl) × (until ≡ clock k +ℤ ttl))

-- An entry is that of a stored link, and lives no longer than `lag` past its expiry.
abbrev pub IsBacked : Duration → List Link → Text → Resolved → Time → Type 0
IsBacked lag rows code res until =
    (l : Link) × Memᴰ l rows
    × (l.short_code ≡ code)
    × (resolved l ≡ res)
    × ((t : Time) → l.expires_at ≡ some t → until ≤ℤ t +ℤ lag)

module _ {R K G : Type 0} (s : Service R K G) (lib : UrlLib) {rows : R → List Link}
    {Lives : K → Text → Resolved → Time → Type 0} {clock : K → Time} (lag : Duration)
    (repo_laws : IsRepository s.repo rows) (timed : IsTimed s.cache Lives clock) where
  abbrev pub IsCurrent : World R K G → Type 0
  IsCurrent w =
      (code : Text) (res : Resolved) (until : Time)
      → Lives w.cache code res until
      → IsBacked lag (rows w.repo) code res until

  -- What a request does to the links and to the entries.
  record IsStep (w w' : World R K G) : Type 0 where
    kept : (l : Link) → Memᴰ l (rows w.repo) → Memᴰ l (rows w'.repo)
    lived :
        (c : Text) (r : Resolved) (until : Time)
        → Lives w'.cache c r until
        → Lives w.cache c r until ⊎ IsBacked lag (rows w'.repo) c r until

  step-IsCurrent : (w w' : World R K G) → IsCurrent w → IsStep w w' → IsCurrent w'
  step-IsCurrent w w' h st c r until lives = elim (st.lived c r until lives) [
    | inl old ↦
        let (l, m, named, same, short) = h c r until old in (l, st.kept l m, named, same, short)
    | inr new ↦ new
  ]

  idle : (w w' : World R K G) → rows w'.repo ≡ rows w.repo → w'.cache ≡ w.cache → IsStep w w'
  idle w w' er ek = record { kept = λ l m. rw er m; lived = λ c r until h. inl (rw ek at h) }

  -- The lifetime that the service asks for.
  warmed-short :
      (l : Link) (later : Time) (k : K) (until : Time)
      → clock k ≤ℤ later +ℤ lag
      → pos 0 <ℤ cache_ttl_for s l later
      → until ≡ clock k +ℤ cache_ttl_for s l later
      → (t : Time) → l.expires_at ≡ some t
      → until ≤ℤ t +ℤ lag
  warmed-short l later k until in_time positive same t e =
      let ttl = cache_ttl_for s l later in
      rw same (
        omega (
          arith,
          in_time,
          cache_ttl_for-le-expiry s l later t e positive,
          +ℤ_parts (clock k) ttl,
          +ℤ_parts t lag,
          +ℤ_parts later ttl,
          +ℤ_parts later lag,
        ))

  warmed :
      (w w' : World R K G) (code : Text) (l : Link) (later : Time) (k : K)
      → clock k ≤ℤ later +ℤ lag
      → ((l : Link) → Memᴰ l (rows w.repo) → Memᴰ l (rows w'.repo))
      → ((c : Text) (r : Resolved) (until : Time) → Lives k c r until → Lives w.cache c r until)
      → w'.cache ≡ (s.cache.set code (resolved l) (cache_ttl_for s l later) k).1
      → Memᴰ l (rows w'.repo)
      → l.short_code ≡ code
      → IsStep w w'
  warmed w w' code l later k in_time kept before e m named = record {
    kept = kept;
    lived = λ c r until h.
        elim (timed.set_keeps code c (resolved l) r (cache_ttl_for s l later) k until (rw e at h)) [
          | inl old ↦ inl (before c r until old)
          | inr (same, res, positive, at_end) ↦
              inr (l, m, named ∙ same, res, warmed-short l later k until in_time positive at_end)
        ];
  }

  inserted : (r : R) (l x : Link) → Memᴰ x (rows r) → Memᴰ x (rows (s.repo.create l r).1)
  inserted r l x m = elim (repo_laws.create_any l r) [
    | inl same ↦ rw same m
    | inr (more, free) ↦ rw more (Memᴰ.tail m)
  ]

  insert_only :
      (w w' : World R K G) (l : Link)
      → w'.repo ≡ (s.repo.create l w.repo).1
      → w'.cache ≡ w.cache
      → IsStep w w'
  insert_only w w' l er ek = record {
    kept = λ x m. rw er (inserted w.repo l x m);
    lived = λ c r until h. inl (rw ek at h);
  }

  create-IsStep :
      (user raw : Text) (expires : Option Time) (now later : Time) (w : World R K G)
      → clock w.cache ≤ℤ later +ℤ lag
      → IsStep w (create s lib user raw expires now later w).1
  unfolding create
  create-IsStep user raw expires now later w in_time =
      let P : Result Link × World R K G → Type 0 = λ p. IsStep w p.1 in
      continue-elim P (normalize_and_validate_url lib raw) _ w
        (λ normalized _.
          continue-elim P (id_result (s.ids.next w.ids).0) _ _
            (λ id _.
              let l = made s lib user raw expires now later w id normalized in
              continue-elim P (s.repo.create l w.repo).0 _ _
                (λ _ done.
                  let (more, free) = repo_laws.create_ok l w.repo done in
                  warmed w _ l.short_code l later w.cache in_time (inserted w.repo l)
                    (λ c r until h. h) refl (rw more (Memᴰ.head refl)) refl)
                (λ _ _. insert_only w _ l refl refl) (λ _. insert_only w _ l refl refl))
            (λ _ _. idle w _ refl refl) (λ _. idle w _ refl refl))
        (λ _ _. idle w _ refl refl) (λ _. idle w _ refl refl)

  -- The state behind the read of the cache.
  abbrev pub read : Text → World R K G → World R K G
  read code w = record w { cache = (s.cache.get code w.cache).1 }

  read-Lives :
      (code : Text) (w : World R K G) (c : Text) (r : Resolved) (until : Time)
      → Lives (read code w).cache c r until
      → Lives w.cache c r until
  read-Lives code w c r until h = timed.get_keeps code c w.cache r until h

  resolve_stored-IsStep :
      (code : Text) (now later : Time) (w : World R K G)
      → clock w.cache ≤ℤ later +ℤ lag
      → IsStep w (resolve_stored s code now later w).1
  unfolding resolve_stored
  resolve_stored-IsStep code now later w in_time =
      continue-elim (λ p. IsStep w p.1) (s.repo.get_by_short_code code w.repo).0 _ _
        (λ l found. elim (Bool-cases (is_expired l now)) [
          | inl late ↦ rw late (idle w _ (repo_laws.get_keeps code w.repo) refl)
          | inr valid ↦
              let (listed, named) = repo_laws.get_ok code w.repo l found in
              let same = repo_laws.get_keeps code w.repo in
              rw valid (
                warmed w _ code l later w.cache in_time (λ x m. rw same m) (λ c r until h. h) refl
                  (rw same listed) named)
        ])
        (λ _ _. idle w _ (repo_laws.get_keeps code w.repo) refl)
        (λ _. idle w _ (repo_laws.get_keeps code w.repo) refl)

  behind_read : (code : Text) (w w' : World R K G) → IsStep (read code w) w' → IsStep w w'
  behind_read code w w' st = record {
    kept = st.kept;
    lived = λ c r until h. elim (st.lived c r until h) [
      | inl old ↦ inl (read-Lives code w c r until old)
      | inr new ↦ inr new
    ];
  }

  after_cache-IsStep :
      (code : Text) (now later : Time) (w : World R K G) (reply : CacheReply)
      → clock w.cache ≤ℤ later +ℤ lag
      → IsStep w (after_cache s code now later reply w).1
  after_cache-IsStep code now later w (hit res) in_time = idle w _ refl refl
  after_cache-IsStep code now later w miss in_time = resolve_stored-IsStep code now later w in_time
  after_cache-IsStep code now later w failed in_time =
      let st = resolve_stored-IsStep code now later _ in_time in
      record { kept = st.kept; lived = st.lived }

  -- The write to the cache comes at most `lag` behind the reading that its lifetime is computed with.
  abbrev pub IsInTime : Request → World R K G → Type 0
  IsInTime (creating user raw expires now later) w = clock w.cache ≤ℤ later +ℤ lag
  IsInTime (resolving code now later) w = clock (read code w).cache ≤ℤ later +ℤ lag
  IsInTime (listing user limit offset) w = Unit

  handle-IsStep : (q : Request) (w : World R K G) → IsInTime q w → IsStep w (handle s lib q w)
  unfolding handle resolve list_by_user
  handle-IsStep (creating user raw expires now later) w in_time =
      create-IsStep user raw expires now later w in_time
  handle-IsStep (resolving code now later) w in_time =
      behind_read code w _
        (after_cache-IsStep code now later (read code w) (s.cache.get code w.cache).0 in_time)
  handle-IsStep (listing user limit offset) w in_time =
      idle w _ (repo_laws.list_keeps user _ _ w.repo) refl

  -- Requests in time, and time that passes, in which entries may vanish.
  pub data Timely : World R K G → World R K G → Type 0 where
    here : {w : World R K G} → Timely w w
    request :
        {w w' : World R K G} (q : Request)
        → IsInTime q w
        → Timely (handle s lib q w) w'
        → Timely w w'
    passes :
        {w w' : World R K G} (k : K)
        → ((c : Text) (r : Resolved) (until : Time) → Lives k c r until → Lives w.cache c r until)
        → Timely (record w { cache = k }) w'
        → Timely w w'

  Timely-IsCurrent : (w w' : World R K G) → Timely w w' → IsCurrent w → IsCurrent w'
  Timely-IsCurrent w w' here h = h
  Timely-IsCurrent w w' (request q in_time rest) h =
      Timely-IsCurrent (handle s lib q w) w' rest (step-IsCurrent w _ h (handle-IsStep q w in_time))
  Timely-IsCurrent w w' (passes k fewer rest) h =
      Timely-IsCurrent _ w' rest
        (λ code res until lives. h code res until (fewer code res until lives))

  -- A link is not served from the cache much longer than it lives, over a repository and a cache with
  -- a clock that keep their promises: let nothing be cached at first, and let every write to the
  -- cache come at most `lag` behind the reading of its request. Then, over any sequence of requests
  -- and passing time, a hit for a code is the data of a stored link with the code, and if this
  -- link expires, the clock of the cache is less than `lag` past the expiry.
  pub hit-IsCurrent :
      (w w' : World R K G) (code : Text) (res : Resolved)
      → ((c : Text) (r : Resolved) (until : Time) → ¬ Lives w.cache c r until)
      → Timely w w'
      → (s.cache.get code w'.cache).0 ≡ hit res
      → (l : Link) × Memᴰ l (rows w'.repo)
        × (l.short_code ≡ code)
        × (resolved l ≡ res)
        × ((t : Time) → l.expires_at ≡ some t → clock w'.cache <ℤ t +ℤ lag)
  hit-IsCurrent w w' code res empty steps found =
      let current =
        Timely-IsCurrent w w' steps (λ c r until lives. absurd (empty c r until lives)) in
      let (until, lives, before) = timed.get_hit code w'.cache res found in
      let (l, m, named, same, short) = current code res until lives in
      (l, m, named, same, λ t e. omega (arith, before, short t e))
