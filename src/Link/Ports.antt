-- ===== src/Link/Ports.antt =====
-- The interfaces that internal/link/service.go declares for what it depends on, and what their
-- implementations promise. An implementation is a state type and its operations as state passing.
use mathlib.Core.List.{Memᴰ}
use linkpulse_link.Base.{◌≡◌, ◌≢◌, ◌⊎◌, List, ◌∷◌, All}
use linkpulse_link.Base.Text.{Text}
use linkpulse_link.Base.Int.{ℤ}
use linkpulse_link.Base.Word.{Int64}
use linkpulse_link.Link.{Duration, Link, Fault, Error, not_found, internal, Result, ok, err}

-- `Resolved`: what a redirect and a click event need.
pub record Resolved : Type 0 where
  pub link_id : Int64
  pub original_url : Text

-- `Repository`
pub record Repository (R : Type 0) : Type 0 where
  pub create : Link → R → Result (Unit {0}) × R
  pub get_by_short_code : Text → R → Result Link × R
  pub list_by_user : Text → ℤ → ℤ → R → Result (List Link) × R

pub data CacheReply : Type 0 where
  hit : Resolved → CacheReply
  miss failed : CacheReply

pub data Written : Type 0 where
  stored not_stored : Written

-- `Cache`: `failed` and `not_stored` are the errors.
pub record Cache (K : Type 0) : Type 0 where
  pub get : Text → K → CacheReply × K
  pub set : Text → Resolved → Duration → K → Written × K

-- `IDGenerator`: an ID, the error, or a call that has not returned.
pub data IdReply : Type 0 where
  fresh : Int64 → IdReply
  refused blocks : IdReply

pub record IdGenerator (G : Type 0) : Type 0 where
  pub next : G → IdReply × G

-- A repository holds a list of links with different codes. An insert that reports an error may
-- still have taken effect: the connection can break after the commit.
pub record IsRepository {R : Type 0} (repo : Repository R) (rows : R → List Link) : Type 0 where
  pub create_ok :
      (l : Link) (r : R)
      → (repo.create l r).0 ≡ ok tt
      → (rows (repo.create l r).1 ≡ l ∷ rows r) × All (λ x. x.short_code ≢ l.short_code) (rows r)
  pub create_any :
      (l : Link) (r : R)
      → (rows (repo.create l r).1 ≡ rows r)
        ⊎ ((rows (repo.create l r).1 ≡ l ∷ rows r)
            × All (λ x. x.short_code ≢ l.short_code) (rows r))
  pub get_ok :
      (code : Text) (r : R) (l : Link)
      → (repo.get_by_short_code code r).0 ≡ ok l
      → Memᴰ l (rows r) × (l.short_code ≡ code)
  pub get_missing :
      (code : Text) (r : R)
      → (repo.get_by_short_code code r).0 ≡ err not_found
      → All (λ x. x.short_code ≢ code) (rows r)
  pub get_err :
      (code : Text) (r : R) (e : Error)
      → (repo.get_by_short_code code r).0 ≡ err e
      → (e ≡ not_found) ⊎ ((f : Fault) × (e ≡ internal f))
  pub get_keeps : (code : Text) (r : R) → rows (repo.get_by_short_code code r).1 ≡ rows r
  pub list_keeps :
      (user : Text) (limit offset : ℤ) (r : R)
      → rows (repo.list_by_user user limit offset r).1 ≡ rows r

-- What a cache may answer: entries come from `set` alone, and may vanish at any time.
pub record IsCache {K : Type 0} (cache : Cache K) (Holds : K → Text → Resolved → Type 0)
    : Type 0 where
  pub get_hit :
      (code : Text) (k : K) (res : Resolved) → (cache.get code k).0 ≡ hit res → Holds k code res
  pub get_keeps :
      (code c : Text) (k : K) (res : Resolved) → Holds (cache.get code k).1 c res → Holds k c res
  pub set_keeps :
      (code c : Text) (res r : Resolved) (ttl : Duration) (k : K)
      → Holds (cache.set code res ttl k).1 c r
      → Holds k c r ⊎ ((code ≡ c) × (res ≡ r))
