-- ===== src/HttpApi/Recorded.antt =====
-- The status that the recorder of `Logging` holds, behind each handler.
pub mod Logged
use mathlib.Core.Path.{subst}
use linkpulse_link.Base.{
  ℕ, ◌^◌, ◌≡◌, map, inl, inr, refl, ◌≢◌, sym, ap, ◌∙◌, true, false, Bool-cases, Option, none, some,
  Option-cases, List, [], ◌∷◌, ◌++◌,
}
use linkpulse_link.Base.Int.{pos}
use linkpulse_link.Link.Service.{create, resolve, list_by_user}
use linkpulse_link.Base.Text.{Text, codes, text_eq}
use linkpulse_link.Net.Strings.{is_empty}
use linkpulse_link.Http.{
  Request, user_id_from, request_id_from, header_of, Writer, empty_writer, status_of, send, write,
  write_header, Flow, returns, panics, blocks,
}
use linkpulse_link.Link.{Error, not_found, expired, invalid_url, internal, Result, ok, err, hangs}
use linkpulse_link.Link.Ports.{Resolved}
use linkpulse_link.Clicks.{ClickEvent, Builder}
use linkpulse_link.HttpApi.{
  Message, Body, link_body, links_body, to_response, logged, Entry, request_done, Site, Outcome,
  Handler, write_json, write_error, write_domain_error,
}
use linkpulse_link.HttpApi.Handlers.{
  Library, Handlers, with_world, query_int, is_past, respond, create_decoded, create_link,
  list_links, click, send_redirect, redirect, after_build, healthz,
}
use linkpulse_link.HttpApi.Middleware.{
  Verdict, valid_user, invalid_token, unavailable, cut_prefix, judged, bearer_checked, bearer_auth,
  stub_auth, rescue, after_next,
}
use linkpulse_link.HttpApi.Router.{
  Route, to_create, to_list, to_health, to_code, unknown_path, wrong_method, route, serve_route,
  mux, router,
}
use linkpulse_link.HttpApi.Clicking.{click-writer}
use linkpulse_link.HttpApi.Panics.{id_of, inner, stack-inner}

-- The recorder holds the status that the client sees.
abbrev pub IsRecorded : Writer Body → Type 0
IsRecorded w = w.recorded ≡ status_of w

-- A writer as `Logging` hands it on.
pub record IsNew (w : Writer Body) : Type 0 where
  pub unsent : w.sent ≡ none
  pub preset : w.recorded ≡ 200

pub IsNew-IsRecorded : (w : Writer Body) → IsNew w → IsRecorded w
IsNew-IsRecorded w h = rw (h.unsent, h.preset) refl

pub write_header-IsRecorded : (c : ℕ) (w : Writer Body) → IsNew w → IsRecorded (write_header c w)
unfolding write_header send
write_header-IsRecorded c w h = rw h.unsent refl

write_json-IsRecorded :
    (c : ℕ) (b : Body) (w : Writer Body) → IsNew w → IsRecorded (write_json c b w)
unfolding write_json write write_header send
write_json-IsRecorded c b w h = rw h.unsent refl

pub write_error-IsRecorded :
    (c : ℕ) (msg : Message) (w : Writer Body) → IsNew w → IsRecorded (write_error c msg w)
unfolding write_error
write_error-IsRecorded c msg w h = write_json-IsRecorded c _ w h

module _ {R K G : Type 0} where
  domain_error-IsRecorded :
      (r : Request) (e : Error) (w : Writer Body) (st : Site R K G)
      → IsNew w
      → IsRecorded (write_domain_error r e w st).0
  unfolding write_domain_error
  domain_error-IsRecorded r not_found w st h = write_error-IsRecorded 404 _ w h
  domain_error-IsRecorded r expired w st h = write_error-IsRecorded 410 _ w h
  domain_error-IsRecorded r (invalid_url x) w st h = write_error-IsRecorded 400 _ w h
  domain_error-IsRecorded r (internal f) w st h = write_error-IsRecorded 500 _ w h

  -- An end of a handler without a panic, with the status that is sent in the recorder.
  pub record IsKept (o : Outcome R K G) : Type 0 where
    pub calm : o.0 ≢ panics
    pub kept : IsRecorded o.1

  pub return-IsKept : (w : Writer Body) (st : Site R K G) → IsRecorded w → IsKept (returns, w, st)
  return-IsKept w st kept = record { calm = λ e. cc; kept = kept }

  block-IsKept : (w : Writer Body) (st : Site R K G) → IsRecorded w → IsKept (blocks, w, st)
  block-IsKept w st kept = record { calm = λ e. cc; kept = kept }

  -- A handler that keeps the recorder right, from a new writer on.
  abbrev pub Records : Handler R K G → Type 0
  Records next = (r : Request) (w : Writer Body) (st : Site R K G) → IsNew w → IsKept (next r w st)

module _ {R K G : Type 0} (lib : Library) (h : Handlers R K G) where
  respond-Records :
      {A : Type 0} (r : Request) (found : Result A)
      (f : A → Writer Body → Site R K G → Outcome R K G) (w : Writer Body) (st : Site R K G)
      → IsNew w
      → ((a : A) → IsKept (f a w st))
      → IsKept (respond lib h r found f w st)
  respond-Records r (ok a) f w st new done = done a
  respond-Records r (err e) f w st new done =
      return-IsKept (write_domain_error r e w st).0 (write_domain_error r e w st).1
        (domain_error-IsRecorded r e w st new)
  respond-Records r hangs f w st new done = block-IsKept w st (IsNew-IsRecorded w new)

  pub create_link-Records : Records (create_link lib h)
  unfolding create_link
  create_link-Records r w st new = elim (Option-cases (lib.decode (2 ^ 20) r.body)) [
    | inl unread ↦ rw (unread, create_link) (return-IsKept _ _ (write_error-IsRecorded 400 _ w new))
    | inr (req, read) ↦ elim (Bool-cases (is_past req.expires_at r.times.checked)) [
      | inl past ↦
          rw (read, past, create_link) (return-IsKept _ _ (write_error-IsRecorded 400 _ w new))
      | inr early ↦
          rw (read, early, create_link)
            (let (made, world) =
                create h.svc lib.urls (user_id_from r) req.original_url req.expires_at r.times.first
                  r.times.second st.world in
              respond-Records r made
                (λ l w st. (returns, write_json 201 (link_body (to_response h.svc l)) w, st)) w
                (with_world lib h st world) new
                (λ l. return-IsKept _ _ (write_json-IsRecorded 201 _ w new)))
    ]
  ]

  pub list_links-Records : Records (list_links lib h)
  unfolding list_links
  list_links-Records r w st new =
      let (found, world) =
        list_by_user h.svc (user_id_from r) (query_int r (codes "limit") (pos 20))
          (query_int r (codes "offset") (pos 0)) st.world in
      respond-Records r found
        (λ ls w st. (returns, write_json 200 (links_body (map (to_response h.svc) ls)) w, st)) w
        (with_world lib h st world) new
        (λ ls. return-IsKept _ _ (write_json-IsRecorded 200 _ w new))

  send_redirect-IsRecorded :
      (r : Request) (url : Text) (w : Writer Body)
      → IsNew w
      → IsRecorded (send_redirect lib h r url w)
  unfolding send_redirect write write_header send
  send_redirect-IsRecorded r url w new =
      elim (Bool-cases (is_empty (header_of (codes "Content-Type") w.headers))) [
        | inr set ↦ rw (set, new.unsent) refl
        | inl unset ↦ elim (Bool-cases (text_eq r.method (codes "GET"))) [
          | inl get ↦ rw (unset, get, new.unsent) refl
          | inr other ↦ rw (unset, other, new.unsent) refl
        ]
      ]

  after_build-ne-panics :
      (r : Request) (ev : Result ClickEvent) (w : Writer Body) (st : Site R K G)
      → (after_build lib h r ev w st).0 ≢ panics
  after_build-ne-panics r (ok ev) w st = λ e. cc
  after_build-ne-panics r (err x) w st = λ e. cc
  after_build-ne-panics r hangs w st = λ e. cc

  click-ne-panics :
      (b : Option Builder) (res : Resolved) (r : Request) (w : Writer Body) (st : Site R K G)
      → (click lib h b res r w st).0 ≢ panics
  unfolding click
  click-ne-panics none res r w st = λ e. cc
  click-ne-panics (some b) res r w st = after_build-ne-panics r _ w _

  pub redirect-Records : Records (redirect lib h)
  unfolding redirect
  redirect-Records r w st new =
      let (found, world) = resolve h.svc r.code r.times.first r.times.second st.world in
      respond-Records r found
        (λ res w st. click lib h h.clicks res r (send_redirect lib h r res.original_url w) st) w
        (with_world lib h st world) new
        (λ res.
          let sent = send_redirect lib h r res.original_url w in
          record {
            calm = click-ne-panics h.clicks res r sent (with_world lib h st world);
            kept =
                rw (click-writer lib h h.clicks res r sent (with_world lib h st world))
                  (send_redirect-IsRecorded r res.original_url w new);
          })

  pub healthz-Records : (deps : List (Text × Option Text)) → Records (healthz lib h deps)
  unfolding healthz
  healthz-Records deps r w st new = return-IsKept _ _ (write_json-IsRecorded _ _ w new)
