-- ===== src/Link/Service/Resolving.antt =====
-- What `Resolve` promises, with the cache and without it.
use mathlib.Core.List.{Memᴰ}
use linkpulse_link.Base.{◌≡◌, ◌⊎◌, inl, inr, refl, ◌∙◌, false, List, Bool-cases}
use linkpulse_link.Base.Text.{Text}
use linkpulse_link.Link.{Time, ok, Link, is_expired}
use linkpulse_link.Link.Action.{World, continue-eq-ok, continue-elim}
use linkpulse_link.Link.Ports.{Resolved, CacheReply, hit, miss, failed, IsRepository, IsCache}
use linkpulse_link.Link.Service.{
  Service, resolved, cache_ttl_for, resolve_stored, after_cache, resolve,
}

-- A link with this code, ID and URL is stored.
abbrev pub IsStored : List Link → Text → Resolved → Type 0
IsStored rows code res = (l : Link) × Memᴰ l rows × (l.short_code ≡ code) × (resolved l ≡ res)

-- Whatever the cache may answer is stored.
abbrev pub IsCoherent :
    {R K G : Type 0} → (R → List Link) → (K → Text → Resolved → Type 0) → World R K G → Type 0
IsCoherent rows Holds w =
    (code : Text) (res : Resolved) → Holds w.cache code res → IsStored (rows w.repo) code res

-- The link that a call past the cache has read.
pub record IsRead (code : Text) (now : Time) (res : Resolved) (stored : List Link) : Type 0 where
  pub link : Link
  pub listed : Memᴰ link (stored)
  pub named : link.short_code ≡ code
  pub valid : is_expired link now ≡ false
  pub result : resolved link ≡ res

IsRead-IsStored :
    (code : Text) (now : Time) (res : Resolved) (stored : List Link)
    → IsRead code now res stored
    → IsStored stored code res
IsRead-IsStored code now res stored r = (r.link, r.listed, r.named, r.result)

module _ {R K G : Type 0} (s : Service R K G) {rows : R → List Link}
    {Holds : K → Text → Resolved → Type 0} (repo_laws : IsRepository s.repo rows)
    (cache_laws : IsCache s.cache Holds) where
  pub resolve_stored-IsRead :
      (code : Text) (now later : Time) (w : World R K G) (res : Resolved)
      → (resolve_stored s code now later w).0 ≡ ok res
      → IsRead code now res (rows w.repo)
  unfolding resolve_stored
  resolve_stored-IsRead code now later w res e =
      let (l, found, e₁) = continue-eq-ok (s.repo.get_by_short_code code w.repo).0 _ _ e in
      let (listed, named) = repo_laws.get_ok code w.repo l found in
      elim (Bool-cases (is_expired l now)) [
        | inl late ↦ cc (rw late at e₁)
        | inr valid ↦ record {
          link = l;
          listed = listed;
          named = named;
          valid = valid;
          result = cc (rw valid at e₁);
        }
      ]

  -- The rows stay, and what is cached afterwards was cached before or has just been read.
  record IsStep (code : Text) (w w' : World R K G) : Type 0 where
    rows_same : rows w'.repo ≡ rows w.repo
    cached :
        (c : Text) (r : Resolved)
        → Holds w'.cache c r
        → Holds w.cache c r ⊎ ((code ≡ c) × IsStored (rows w.repo) c r)

  -- The state after the read, and after the read and the write to the cache.
  read_only :
      (code : Text) (w : World R K G)
      → IsStep code w (record w { repo = (s.repo.get_by_short_code code w.repo).1 })
  read_only code w = record { rows_same = repo_laws.get_keeps code w.repo; cached = λ c r h. inl h }

  read_and_warmed :
      (code : Text) (later : Time) (w w' : World R K G) (l : Link)
      → (s.repo.get_by_short_code code w.repo).0 ≡ ok l
      → w'.repo ≡ (s.repo.get_by_short_code code w.repo).1
      → w'.cache ≡ (s.cache.set code (resolved l) (cache_ttl_for s l later) w.cache).1
      → IsStep code w w'
  read_and_warmed code later w w' l found er ek = record {
    rows_same = rw er (repo_laws.get_keeps code w.repo);
    cached = λ c r h.
        let (listed, named) = repo_laws.get_ok code w.repo l found in
        elim (cache_laws.set_keeps code c (resolved l) r (cache_ttl_for s l later) w.cache
          (rw ek at h)) [
            | inl old ↦ inl old
            | inr (same, res) ↦ inr (same, (l, listed, named ∙ same, res))
          ];
  }

  resolve_stored-IsStep :
      (code : Text) (now later : Time) (w : World R K G)
      → IsStep code w (resolve_stored s code now later w).1
  unfolding resolve_stored
  resolve_stored-IsStep code now later w =
      continue-elim (λ p. IsStep code w p.1) (s.repo.get_by_short_code code w.repo).0 _ _
        (λ l found. elim (Bool-cases (is_expired l now)) [
          | inl late ↦ rw late (read_only code w)
          | inr valid ↦ rw valid (read_and_warmed code later w _ l found refl refl)
        ])
        (λ _ _. read_only code w) (λ _. read_only code w)

  -- A read of the cache makes up no entry.
  abbrev after_get : Text → World R K G → World R K G
  after_get code w = record w { cache = (s.cache.get code w.cache).1 }

  after_get-IsStep :
      (code : Text) (w w' : World R K G) → IsStep code (after_get code w) w' → IsStep code w w'
  after_get-IsStep code w w' st = record {
    rows_same = st.rows_same;
    cached = λ c r h. elim (st.cached c r h) [
      | inl old ↦ inl (cache_laws.get_keeps code c w.cache r old)
      | inr new ↦ inr new
    ];
  }

  -- Both kinds of a call past the cache differ in the warnings alone.
  resolve-IsStep :
      (code : Text) (now later : Time) (w : World R K G) (reply : CacheReply)
      → IsStep code (after_get code w) (after_cache s code now later reply (after_get code w)).1
  resolve-IsStep code now later w (hit res) = record { rows_same = refl; cached = λ c r h. inl h }
  resolve-IsStep code now later w miss = resolve_stored-IsStep code now later (after_get code w)
  resolve-IsStep code now later w failed =
      let st = resolve_stored-IsStep code now later _ in
      record { rows_same = st.rows_same; cached = st.cached }

  -- Over a repository and a cache that keep their promises, `Resolve` changes no row, and leaves
  -- a coherent cache coherent: whatever it may answer is stored.
  pub resolve-IsCoherent :
      (code : Text) (now later : Time) (w : World R K G)
      → IsCoherent rows Holds w
      → (rows (resolve s code now later w).1.repo ≡ rows w.repo)
        × IsCoherent rows Holds (resolve s code now later w).1
  unfolding resolve
  resolve-IsCoherent code now later w coherent =
      let st =
        after_get-IsStep code w _ (resolve-IsStep code now later w (s.cache.get code w.cache).0) in
      (
        st.rows_same,
        λ c r h.
            rw st.rows_same
              (elim (st.cached c r h) [ inl old ↦ coherent c r old | inr (same, stored) ↦ stored ]),
      )

  after_cache-IsStored :
      (code : Text) (now later : Time) (w : World R K G) (reply : CacheReply) (res : Resolved)
      → IsCoherent rows Holds w
      → (s.cache.get code w.cache).0 ≡ reply
      → (after_cache s code now later reply (after_get code w)).0 ≡ ok res
      → IsStored (rows w.repo) code res
  after_cache-IsStored code now later w (hit r) res coherent got e =
      coherent code res (cache_laws.get_hit code w.cache res (got ∙ cc))
  after_cache-IsStored code now later w miss res coherent got e =
      IsRead-IsStored code now res _ (resolve_stored-IsRead code now later (after_get code w) res e)
  after_cache-IsStored code now later w failed res coherent got e =
      IsRead-IsStored code now res _ (resolve_stored-IsRead code now later _ res e)

  -- Every answer of `Resolve`, from the cache or from the database, is a stored link's.
  pub resolve-IsStored :
      (code : Text) (now later : Time) (w : World R K G) (res : Resolved)
      → IsCoherent rows Holds w
      → (resolve s code now later w).0 ≡ ok res
      → IsStored (rows w.repo) code res
  unfolding resolve
  resolve-IsStored code now later w res coherent e =
      after_cache-IsStored code now later w (s.cache.get code w.cache).0 res coherent refl e
