-- ===== src/HttpApi/Clicking.antt =====
-- Redirects and their click events.
use linkpulse_link.Base.{◌≡◌, ◌⊎◌, inl, inr, refl, ap, sym, ◌∙◌, Option, none, some, ◌∷◌}
use linkpulse_link.Http.{Request, Writer}
use linkpulse_link.Link.{
  Error, not_found, expired, invalid_url, internal, Result, ok, err, hangs, ◌>>=◌,
}
use linkpulse_link.Link.Ports.{Resolved, IdReply, fresh, refused, blocks}
use linkpulse_link.Link.Service.{id_result, resolve}
use linkpulse_link.Clicks.{ClickEvent, Builder, event, build}
use linkpulse_link.HttpApi.{Body, Site, Outcome, write_domain_error}
use linkpulse_link.HttpApi.Handlers.{
  Library, Handlers, with_world, respond, after_build, click, send_redirect, redirect,
}

module _ {R K G : Type 0} (lib : Library) (h : Handlers R K G) where
  -- The same handlers without a builder.
  abbrev pub silent : Handlers R K G
  silent = record { svc = h.svc; clicks = none }

  after_build-writer :
      (r : Request) (ev : Result ClickEvent) (w : Writer Body) (st : Site R K G)
      → (after_build lib h r ev w st).1 ≡ w
  after_build-writer r (ok ev) w st = refl
  after_build-writer r (err e) w st = refl
  after_build-writer r hangs w st = refl

  pub click-writer :
      (b : Option Builder) (res : Resolved) (r : Request) (w : Writer Body) (st : Site R K G)
      → (click lib h b res r w st).1 ≡ w
  unfolding click
  click-writer none res r w st = refl
  click-writer (some b) res r w st = after_build-writer r _ w _

  -- `Redirect` behind the answer of the service.
  abbrev pub answered : Request → Result Resolved → Writer Body → Site R K G → Outcome R K G
  answered r found w st =
      respond lib h r found
        (λ res w st. click lib h h.clicks res r (send_redirect lib h r res.original_url w) st) w st

  answered-writer :
      (r : Request) (found : Result Resolved) (w : Writer Body) (st : Site R K G)
      → (answered r found w st).1
        ≡ (respond lib silent r found
            (λ res w st.
              click lib silent none res r (send_redirect lib silent r res.original_url w) st)
            w
            st).1
  unfolding send_redirect
  answered-writer r (ok res) w st =
      click-writer h.clicks res r (send_redirect lib h r res.original_url w) st
      ∙ sym (unfold click in refl)
  answered-writer r (err e) w st = refl
  answered-writer r hangs w st = refl

  pub redirect-clicks_irrelevant :
      (r : Request) (w : Writer Body) (st : Site R K G)
      → (redirect lib h r w st).1 ≡ (redirect lib silent r w st).1
  unfolding redirect
  redirect-clicks_irrelevant r w st =
      answered-writer r (resolve h.svc r.code r.times.first r.times.second st.world).0 w _

  -- What a redirect may add to the published events.
  abbrev pub IsPublished : Request → Site R K G → Site R K G → Type 0
  IsPublished r st st' =
      (st'.published ≡ st.published)
      ⊎ ((res : Resolved) × (ev : ClickEvent) × ((resolve h.svc r.code r.times.first r.times.second
              st.world).0
            ≡ ok res)
          × (st'.published ≡ ev ∷ st.published)
          × (ev.link_id ≡ res.link_id)
          × (ev.short_code ≡ r.code)
          × (ev.original_url ≡ res.original_url))

  after_build-IsPublished :
      (b : Builder) (res : Resolved) (r : Request) (reply : IdReply) (w : Writer Body)
      (st : Site R K G)
      → ((after_build lib h r
            (id_result reply >>= λ id. ok (event b id res.link_id r.code res.original_url r))
            w
            st).2.published
          ≡ st.published)
        ⊎ ((ev : ClickEvent) × ((after_build lib h r
                (id_result reply >>= λ id. ok (event b id res.link_id r.code res.original_url r))
                w
                st).2.published
              ≡ ev ∷ st.published)
            × (ev.link_id ≡ res.link_id)
            × (ev.short_code ≡ r.code)
            × (ev.original_url ≡ res.original_url))
  unfolding event
  after_build-IsPublished b res r (fresh id) w st = inr (_, refl, refl, refl, refl)
  after_build-IsPublished b res r refused w st = inl refl
  after_build-IsPublished b res r blocks w st = inl refl

  domain_error-published :
      (r : Request) (e : Error) (w : Writer Body) (st : Site R K G)
      → (write_domain_error r e w st).1.published ≡ st.published
  unfolding write_domain_error
  domain_error-published r not_found w st = refl
  domain_error-published r expired w st = refl
  domain_error-published r (invalid_url x) w st = refl
  domain_error-published r (internal f) w st = refl

  click-IsPublished :
      (b : Option Builder) (res : Resolved) (r : Request) (w : Writer Body) (st st' : Site R K G)
      → st'.published ≡ st.published
      → (resolve h.svc r.code r.times.first r.times.second st.world).0 ≡ ok res
      → IsPublished r st (click lib h b res r w st').2
  unfolding click build
  click-IsPublished none res r w st st' same got = inl same
  click-IsPublished (some b) res r w st st' same got =
      elim (after_build-IsPublished b res r (h.svc.ids.next st'.world.ids).0 w
        (with_world lib h st' (record st'.world { ids = (h.svc.ids.next st'.world.ids).1 }))) [
          | inl kept ↦ inl (kept ∙ same)
          | inr (ev, more, link, code, url) ↦
              inr (res, ev, got, more ∙ ap (λ es. ev ∷ es) same, link, code, url)
        ]

  answered-IsPublished :
      (r : Request) (found : Result Resolved) (w : Writer Body) (st st' : Site R K G)
      → st'.published ≡ st.published
      → (resolve h.svc r.code r.times.first r.times.second st.world).0 ≡ found
      → IsPublished r st (answered r found w st').2
  answered-IsPublished r (ok res) w st st' same got =
      click-IsPublished h.clicks res r (send_redirect lib h r res.original_url w) st st' same got
  answered-IsPublished r (err e) w st st' same got = inl (domain_error-published r e w st' ∙ same)
  answered-IsPublished r hangs w st st' same got = inl same

  -- A redirect publishes at most one event, and only where its code has been resolved; the event
  -- then carries the ID and the URL of the answer and the code of the request.
  pub redirect-IsPublished :
      (r : Request) (w : Writer Body) (st : Site R K G) → IsPublished r st (redirect lib h r w st).2
  unfolding redirect
  redirect-IsPublished r w st =
      answered-IsPublished r (resolve h.svc r.code r.times.first r.times.second st.world).0 w st _
        refl refl
