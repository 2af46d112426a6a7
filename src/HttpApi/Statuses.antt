-- ===== src/HttpApi/Statuses.antt =====
-- What the status of a redirect says of the stored links.
use mathlib.Core.List.{Memᴰ}
use linkpulse_link.Base.{
  ℕ, ◌≡◌, ◌≢◌, ◌⊎◌, inl, inr, refl, ap, sym, ◌∙◌, true, none, some, List, ◌∷◌, All, Bool-cases,
}
use linkpulse_link.Base.Text.{Text, codes, text_eq}
use linkpulse_link.Net.Strings.{is_empty}
use linkpulse_link.Http.{Request, header_of, Sent, Writer, send, write_header, write}
use linkpulse_link.Link.{
  Fault, Error, not_found, expired, invalid_url, internal, Result, ok, err, hangs, Link, is_expired,
}
use linkpulse_link.Link.Action.{World}
use linkpulse_link.Link.Ports.{Resolved, CacheReply, hit, miss, failed, IsRepository, IsCache}
use linkpulse_link.Link.Service.{after_cache, resolve}
use linkpulse_link.Link.Service.Resolving.{IsCoherent, resolve-IsStored}
use linkpulse_link.Link.Service.Degraded.{Explains, resolve-Explains}
use linkpulse_link.HttpApi.{
  Message, link_not_found, link_expired, internal_error, Body, Site, write_json, write_error,
  write_domain_error,
}
use linkpulse_link.HttpApi.Handlers.{Library, Handlers, send_redirect, redirect}
use linkpulse_link.HttpApi.Clicking.{answered, click-writer}

pub write_error-sent :
    (status : ℕ) (msg : Message) (w : Writer Body)
    → w.sent ≡ none
    → (write_error status msg w).sent
      ≡ some (record {
        status = status;
        fields = (codes "Content-Type", codes "application/json; charset=utf-8") ∷ w.headers;
      })
unfolding write_error write_json write write_header send
write_error-sent status msg w fresh = rw fresh

module _ {R K G : Type 0} (lib : Library) (h : Handlers R K G) {rows : R → List Link}
    {Holds : K → Text → Resolved → Type 0} (repo_laws : IsRepository h.svc.repo rows)
    (cache_laws : IsCache h.svc.cache Holds) where
  -- What the header of a response says of the links that were stored at the start of the request.
  abbrev pub Says : Request → Site R K G → Sent → Type 0
  Says r st s =
      ((s.status ≡ 302)
        × ((l : Link) × Memᴰ l (rows st.world.repo)
            × (l.short_code ≡ r.code)
            × (header_of (codes "Location") s.fields ≡ lib.location l.original_url)))
      ⊎ ((s.status ≡ 404) × All (λ l. l.short_code ≢ r.code) (rows st.world.repo))
      ⊎ ((s.status ≡ 410)
          × ((l : Link) × Memᴰ l (rows st.world.repo)
              × (l.short_code ≡ r.code)
              × (is_expired l r.times.first ≡ true)))
      ⊎ ((s.status ≡ 500)
          × ((f : Fault) × ((h.svc.repo.get_by_short_code r.code st.world.repo).0
                ≡ err (internal f))))

  -- A response has gone out, or the lookup has not returned.
  abbrev pub IsAnswered : Request → Site R K G → Writer Body → Type 0
  IsAnswered r st w =
      ((s : Sent) × (w.sent ≡ some s) × Says r st s)
      ⊎ ((w.sent ≡ none) × ((resolve h.svc r.code r.times.first r.times.second st.world).0 ≡ hangs))

  after_cache-hit :
      (r : Request) (w : World R K G) (reply : CacheReply) (e : Error)
      → (after_cache h.svc r.code r.times.first r.times.second reply w).0 ≡ err e
      → (res : Resolved) → reply ≢ hit res
  after_cache-hit r w (hit x) e failed_with res = cc
  after_cache-hit r w miss e failed_with res = λ q. cc
  after_cache-hit r w failed e failed_with res = λ q. cc

  resolve-err-no_hit :
      (r : Request) (w : World R K G) (e : Error)
      → (resolve h.svc r.code r.times.first r.times.second w).0 ≡ err e
      → (res : Resolved) → (h.svc.cache.get r.code w.cache).0 ≢ hit res
  unfolding resolve
  resolve-err-no_hit r w e failed_with =
      after_cache-hit r _ (h.svc.cache.get r.code w.cache).0 e failed_with

  explained :
      (r : Request) (w : World R K G) (e : Error)
      → (resolve h.svc r.code r.times.first r.times.second w).0 ≡ err e
      → Explains h.svc repo_laws cache_laws r.code r.times.first w.repo (err e)
  explained r w e failed_with = rw failed_with at (
      resolve-Explains h.svc repo_laws cache_laws r.code r.times.first r.times.second w
        (resolve-err-no_hit r w e failed_with))

  error-IsAnswered :
      (r : Request) (e : Error) (w : Writer Body) (st st' : Site R K G)
      → w.sent ≡ none
      → Explains h.svc repo_laws cache_laws r.code r.times.first st.world.repo (err e)
      → IsAnswered r st (write_domain_error r e w st').0
  unfolding write_domain_error
  error-IsAnswered r not_found w st st' fresh why =
      inl (_, write_error-sent 404 link_not_found w fresh, inr (inl (refl, why)))
  error-IsAnswered r expired w st st' fresh why =
      inl (_, write_error-sent 410 link_expired w fresh, inr (inr (inl (refl, why))))
  error-IsAnswered r (invalid_url x) w st st' fresh why = absurd why
  error-IsAnswered r (internal f) w st st' fresh why =
      inl (_, write_error-sent 500 internal_error w fresh, inr (inr (inr (refl, (f, why)))))

  -- The header of a redirect.
  pub send_redirect-sent :
      (r : Request) (url : Text) (w : Writer Body)
      → w.sent ≡ none
      → (s : Sent) × ((send_redirect lib h r url w).sent ≡ some s)
        × (s.status ≡ 302)
        × (header_of (codes "Location") s.fields ≡ lib.location url)
  unfolding send_redirect write write_header send header_of text_eq
  send_redirect-sent r url w fresh =
      let located = (codes "Location", lib.location url) ∷ w.headers in
      let typed = (codes "Content-Type", codes "text/html; charset=utf-8") ∷ located in
      elim (Bool-cases (is_empty (header_of (codes "Content-Type") w.headers))) [
        | inr set ↦ (record { status = 302; fields = located }, rw (set, fresh), refl, refl)
        | inl unset ↦ elim (Bool-cases (text_eq r.method (codes "GET"))) [
          | inl get ↦ (record { status = 302; fields = typed }, rw (unset, get, fresh), refl, refl)
          | inr other ↦
              (record { status = 302; fields = typed }, rw (unset, other, fresh), refl, refl)
        ]
      ]

  answered-IsAnswered :
      (r : Request) (w : Writer Body) (st st' : Site R K G) (found : Result Resolved)
      → w.sent ≡ none
      → IsCoherent rows Holds st.world
      → (resolve h.svc r.code r.times.first r.times.second st.world).0 ≡ found
      → IsAnswered r st (answered lib h r found w st').1
  answered-IsAnswered r w st st' (ok res) fresh coherent got =
      let (s, sent, found, location) = send_redirect-sent r res.original_url w fresh in
      let (l, m, named, same) =
        resolve-IsStored h.svc repo_laws cache_laws r.code r.times.first r.times.second st.world res
          coherent got in
      let url : res.original_url ≡ l.original_url = ap (λ x. x.original_url) (sym same) in
      inl (
        s,
        ap (λ x. x.sent) (click-writer lib h h.clicks res r _ st') ∙ sent,
        inl (found, (l, m, named, location ∙ ap lib.location url)),
      )
  answered-IsAnswered r w st st' (err e) fresh coherent got =
      error-IsAnswered r e w st st' fresh (explained r st.world e got)
  answered-IsAnswered r w st st' hangs fresh coherent got = inr (fresh, got)

  -- The status of a redirect is explained by the stored links, if the repository and the cache
  -- keep their promises, the cache is coherent and nothing has been sent before: 302 leads to
  -- the URL of a link with the code, 404 says that no link has it, 410 that one with it has
  -- expired, 500 that the lookup failed. There is no other status, and no response only where
  -- the lookup does not return.
  pub redirect-IsAnswered :
      (r : Request) (w : Writer Body) (st : Site R K G)
      → w.sent ≡ none
      → IsCoherent rows Holds st.world
      → IsAnswered r st (redirect lib h r w st).1
  unfolding redirect
  redirect-IsAnswered r w st fresh coherent =
      answered-IsAnswered r w st _ (resolve h.svc r.code r.times.first r.times.second st.world).0
        fresh coherent refl
