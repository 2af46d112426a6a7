-- ===== src/Link/Service/Creating.antt =====
-- What `Create` promises: on success, on a refused URL, on an error, and whatever the cache does.
use linkpulse_link.Base.{◌≡◌, ◌≢◌, refl, Option, List, ◌∷◌, All}
use linkpulse_link.Base.Text.{Text}
use linkpulse_link.Base.Word.{Int64}
use linkpulse_link.Shortcode.{encode}
use linkpulse_link.Net.Url.{UrlLib}
use linkpulse_link.Link.{Time, Reason, invalid_url, Error, Result, ok, err, Link}
use linkpulse_link.Link.Action.{World, continue-eq-ok, continue-elim, continue-pair}
use linkpulse_link.Link.Ports.{Cache, fresh, IdReply, IsRepository}
use linkpulse_link.Link.Validate.{normalize_and_validate_url}
use linkpulse_link.Link.Service.{Service, resolved, id_result, cache_ttl_for, create}

module _ {R K G : Type 0} (s : Service R K G) (lib : UrlLib) (user raw : Text)
    (expires : Option Time) (now later : Time) (w : World R K G) where
  -- The link that `Create` makes of an ID.
  abbrev pub made : Int64 → Text → Link
  made id normalized = record {
    id = id;
    short_code = encode id;
    original_url = normalized;
    user_id = user;
    created_at = now;
    expires_at = expires;
  }

  -- The steps of a call that has returned the link `l`.
  pub record IsCreated (l : Link) (w' : World R K G) : Type 0 where
    pub id : Int64
    pub normalized : Text
    pub valid : normalize_and_validate_url lib raw ≡ ok normalized
    pub issued : (s.ids.next w.ids).0 ≡ fresh id
    pub link : l ≡ made id normalized
    pub inserted : (s.repo.create l w.repo).0 ≡ ok tt
    pub repo : w'.repo ≡ (s.repo.create l w.repo).1
    pub ids : w'.ids ≡ (s.ids.next w.ids).1
    pub cache :
        w'.cache ≡ (s.cache.set l.short_code (resolved l) (cache_ttl_for s l later) w.cache).1

  id_result-eq-ok : (r : IdReply) {id : Int64} → id_result r ≡ ok id → r ≡ fresh id
  id_result-eq-ok (fresh id) e = cc
  id_result-eq-ok _ e = cc

  pub create-IsCreated :
      (l : Link)
      → (create s lib user raw expires now later w).0 ≡ ok l
      → IsCreated l (create s lib user raw expires now later w).1
  unfolding create
  create-IsCreated l e =
      let (normalized, valid, e₁) = continue-eq-ok (normalize_and_validate_url lib raw) _ _ e in
      let (id, issued, e₂) = continue-eq-ok (id_result (s.ids.next w.ids).0) _ _ e₁ in
      let (done, inserted, e₃) =
        continue-eq-ok (s.repo.create (made id normalized) w.repo).0 _ _ e₂ in
      let same : l ≡ made id normalized = cc in
      record {
        id = id;
        normalized = normalized;
        valid = valid;
        issued = id_result-eq-ok _ issued;
        link = same;
        inserted = rw same inserted;
        repo = rw (same, valid, issued, inserted);
        ids = rw (valid, issued, inserted);
        cache = rw (same, valid, issued, inserted);
      }

  -- Over a repository that keeps its promises, the link that `Create` has returned is stored,
  -- under a code that no link had, and it has the fields that were asked for and the code of its
  -- ID.
  pub create-stored :
      {rows : R → List Link} (l : Link)
      → IsRepository s.repo rows
      → (create s lib user raw expires now later w).0 ≡ ok l
      → (rows (create s lib user raw expires now later w).1.repo ≡ l ∷ rows w.repo)
        × All (λ x. x.short_code ≢ l.short_code) (rows w.repo)
        × (l.short_code ≡ encode l.id)
        × (normalize_and_validate_url lib raw ≡ ok l.original_url)
        × (l.user_id ≡ user)
        × (l.created_at ≡ now)
        × (l.expires_at ≡ expires)
  create-stored {rows} l laws e =
      let c = create-IsCreated l e in
      let (stored, free) = laws.create_ok l w.repo c.inserted in
      (rw c.repo stored, free, rw c.link, rw c.link c.valid, rw c.link, rw c.link, rw c.link)

  -- A refused URL is reported as it is, and nothing has been touched: no ID is used up.
  pub create-invalid :
      (r : Reason)
      → normalize_and_validate_url lib raw ≡ err (invalid_url r)
      → create s lib user raw expires now later w ≡ (err (invalid_url r), w)
  unfolding create
  create-invalid r e = rw e

  -- A call that ends in an error has written nothing to the cache.
  pub create-err-cache :
      (x : Error)
      → (create s lib user raw expires now later w).0 ≡ err x
      → (create s lib user raw expires now later w).1.cache ≡ w.cache
  unfolding create
  create-err-cache x =
      let P : Result Link × World R K G → Type 0 = λ p. p.0 ≡ err x → p.1.cache ≡ w.cache in
      continue-elim P (normalize_and_validate_url lib raw) _ w
        (λ normalized _.
          continue-elim P (id_result (s.ids.next w.ids).0) _ _
            (λ id _.
              continue-elim P (s.repo.create (made id normalized) w.repo).0 _ _ (λ _ _ h. cc)
                (λ _ _ _. refl) (λ _ _. refl))
            (λ _ _ _. refl) (λ _ _. refl))
        (λ _ _ _. refl) (λ _ _. refl)

-- The same service with another cache.
abbrev pub with_cache : {R K K' G : Type 0} → Service R K G → Cache K' → Service R K' G
with_cache s c = record {
  repo = s.repo;
  cache = c;
  ids = s.ids;
  base_url = s.base_url;
  cache_ttl = s.cache_ttl;
}

abbrev pub with_state : {R K K' G : Type 0} → World R K G → K' → World R K' G
with_state w k = record { repo = w.repo; cache = k; ids = w.ids; warnings = w.warnings }

-- Two outcomes that differ in the cache and the warnings alone.
abbrev pub SameButCache :
    {R K K' G A : Type 0} → Result A × World R K' G → Result A × World R K G → Type 0
SameButCache p q = (p.0 ≡ q.0) × (p.1.repo ≡ q.1.repo) × (p.1.ids ≡ q.1.ids)

-- The cache decides nothing about `Create`: with any other cache in any state, a broken one too,
-- the answer, the stored links and the IDs are the same.
pub create-cache_irrelevant :
    {R K K' G : Type 0} (s : Service R K G) (c : Cache K') (lib : UrlLib) (user raw : Text)
    (expires : Option Time) (now later : Time) (w : World R K G) (k : K')
    → SameButCache
        (create (with_cache s c) lib user raw expires now later (with_state w k))
        (create s lib user raw expires now later w)
unfolding create
create-cache_irrelevant s c lib user raw expires now later w k =
    continue-pair SameButCache (normalize_and_validate_url lib raw) _ _ _ _
      (λ normalized.
        continue-pair SameButCache (id_result (s.ids.next w.ids).0) _ _ _ _
          (λ id.
            continue-pair SameButCache (s.repo.create _ w.repo).0 _ _ _ _ (λ _. (refl, refl, refl))
              (λ _. (refl, refl, refl)))
          (λ _. (refl, refl, refl)))
      (λ _. (refl, refl, refl))
