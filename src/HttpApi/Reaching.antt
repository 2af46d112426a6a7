-- ===== src/HttpApi/Reaching.antt =====
-- A redirect reaches the link: what is stored and has not expired is found.
use mathlib.Core.List.{Memᴰ}
use linkpulse_link.Base.{◌≡◌, refl, ap, sym, ◌∙◌, false, none, some, List}
use linkpulse_link.Base.Text.{Text, codes}
use linkpulse_link.Http.{Request, header_of, Sent, Writer}
use linkpulse_link.Link.{Time, Result, ok, err, hangs, Link, is_expired}
use linkpulse_link.Link.Action.{World}
use linkpulse_link.Link.Ports.{Resolved, CacheReply, hit, miss, failed, IsRepository, IsCache}
use linkpulse_link.Link.Service.{resolved, resolve_stored, after_cache, resolve}
use linkpulse_link.Link.Service.Resolving.{resolve-IsStored}
use linkpulse_link.Link.Service.Requests.{IsSound, listed_unique}
use linkpulse_link.HttpApi.{Body, Site}
use linkpulse_link.HttpApi.Handlers.{Library, Handlers, redirect, send_redirect}
use linkpulse_link.HttpApi.Clicking.{answered, click-writer}
use linkpulse_link.HttpApi.Statuses.{send_redirect-sent}

module _ {R K G : Type 0} (lib : Library) (h : Handlers R K G) {rows : R → List Link}
    {Holds : K → Text → Resolved → Type 0} (repo_laws : IsRepository h.svc.repo rows)
    (cache_laws : IsCache h.svc.cache Holds) where
  resolve_stored-reaches :
      (code : Text) (now later : Time) (w : World R K G) (x : Link)
      → (h.svc.repo.get_by_short_code code w.repo).0 ≡ ok x
      → is_expired x now ≡ false
      → (res : Resolved) × ((resolve_stored h.svc code now later w).0 ≡ ok res)
  unfolding resolve_stored
  resolve_stored-reaches code now later w x found valid =
      (resolved x, rw (found, valid, resolve_stored) refl)

  after_cache-reaches :
      (code : Text) (now later : Time) (w : World R K G) (reply : CacheReply) (x : Link)
      → (h.svc.repo.get_by_short_code code w.repo).0 ≡ ok x
      → is_expired x now ≡ false
      → (res : Resolved) × ((after_cache h.svc code now later reply w).0 ≡ ok res)
  after_cache-reaches code now later w (hit res) x found valid = (res, refl)
  after_cache-reaches code now later w miss x found valid =
      resolve_stored-reaches code now later w x found valid
  after_cache-reaches code now later w failed x found valid =
      resolve_stored-reaches code now later _ x found valid

  answered-ok :
      (r : Request) (w : Writer Body) (st : Site R K G) (found : Result Resolved) (res : Resolved)
      → found ≡ ok res
      → (answered lib h r found w st).1.sent ≡ (send_redirect lib h r res.original_url w).sent
  answered-ok r w st (ok y) res e =
      let same : y ≡ res = cc e in
      ap (λ x. x.sent) (click-writer lib h h.clicks y r _ st)
      ∙ ap (λ z. (send_redirect lib h r z.original_url w).sent) same
  answered-ok r w st (err y) res e = cc
  answered-ok r w st hangs res e = cc

  -- In a sound state over a repository and a cache that keep their promises, let a link be stored that
  -- has not expired, and let the lookup of its code answer. Then a redirect for the code, to a
  -- writer that has sent nothing, sends 302 with the URL of the link, whatever the cache answers
  -- and whatever becomes of the click.
  pub redirect-reaches :
      (r : Request) (w : Writer Body) (st : Site R K G) (l x : Link)
      → IsSound h.svc lib.urls repo_laws cache_laws st.world
      → Memᴰ l (rows st.world.repo)
      → r.code ≡ l.short_code
      → is_expired l r.times.first ≡ false
      → (h.svc.repo.get_by_short_code r.code st.world.repo).0 ≡ ok x
      → w.sent ≡ none
      → (s : Sent) × ((redirect lib h r w st).1.sent ≡ some s)
        × (s.status ≡ 302)
        × (header_of (codes "Location") s.fields ≡ lib.location l.original_url)
  unfolding redirect resolve
  redirect-reaches r w st l x sound listed code valid found fresh =
      let (there, named) = repo_laws.get_ok r.code st.world.repo x found in
      let same =
        listed_unique (rows st.world.repo) x l sound.distinct there listed (named ∙ code) in
      let (res, got) =
        after_cache-reaches r.code r.times.first r.times.second _
          (h.svc.cache.get r.code st.world.cache).0 x found
          (ap (λ y. is_expired y r.times.first) same ∙ valid) in
      let (y, m, name, carried) =
        resolve-IsStored h.svc repo_laws cache_laws r.code r.times.first r.times.second st.world res
          sound.coherent got in
      let unique = listed_unique (rows st.world.repo) y l sound.distinct m listed (name ∙ code) in
      let (s, sent, status, location) =
        send_redirect-sent lib h repo_laws cache_laws r res.original_url w fresh in
      (
        s,
        answered-ok r w _ _ res got ∙ sent,
        status,
        location
            ∙ ap (λ z. lib.location z.original_url) (sym carried)
            ∙ ap (λ z. lib.location z.original_url) unique,
      )
