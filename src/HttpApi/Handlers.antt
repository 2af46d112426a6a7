-- ===== src/HttpApi/Handlers.antt =====
-- internal/httpapi/handlers.go: the four handlers.
use linkpulse_link.Base.{
  ℕ, ◌^◌, Bool, true, false, Option, none, some, List, [], ◌∷◌, map, if◌then◌else◌,
}
use linkpulse_link.Base.Text.{Text, codes, text_eq}
use linkpulse_link.Base.Int.{ℤ, pos, ltb_ℤ}
use linkpulse_link.Net.Strings.{is_empty}
use linkpulse_link.Net.Url.{UrlLib}
use linkpulse_link.Strconv.{atoi}
use linkpulse_link.Http.{
  Request, request_id_from, user_id_from, Writer, header_of, set_header, write_header, write,
  returns, blocks,
}
use linkpulse_link.Link.{Time, Result, ok, err, hangs}
use linkpulse_link.Link.Action.{World}
use linkpulse_link.Link.Ports.{Resolved}
use linkpulse_link.Link.Service.{Service, create, resolve, list_by_user}
use linkpulse_link.Clicks.{ClickEvent, Builder, build}
use linkpulse_link.HttpApi.{
  CreateLinkRequest, bad_json, past_expiry, Body, link_body, links_body, health_body, found_page,
  event_failed, Site, Outcome, Handler, logged, write_json, write_error, write_domain_error,
  to_response,
}

-- What the handlers call: the decoder of a request body of at most so many bytes, and the Location
-- header that http.Redirect makes of a URL.
pub record Library : Type 0 where
  pub urls : UrlLib
  pub decode : ℕ → Text → Option CreateLinkRequest
  pub location : Text → Text

-- `Handlers`; `clicks` is the builder where clicks are published.
pub record Handlers (R K G : Type 0) : Type 0 where
  pub svc : Service R K G
  pub clicks : Option Builder

-- `queryInt`
unfoldable pub query_int : Request → Text → ℤ → ℤ
query_int r name def =
    if is_empty (r.query name) then def else elim (atoi (r.query name)) [ none ↦ def | some n ↦ n ]

-- `req.ExpiresAt != nil && req.ExpiresAt.Before(time.Now())`
unfoldable pub is_past : Option Time → Time → Bool
is_past none now = false
is_past (some t) now = ltb_ℤ t now

module _ {R K G : Type 0} (lib : Library) (h : Handlers R K G) where
  abbrev pub with_world : Site R K G → World R K G → Site R K G
  with_world st w = record st { world = w }

  -- The end of a handler: the answer of the service, or its error.
  abbrev pub respond :
      {A : Type 0}
      → Request
      → Result A
      → (A → Writer Body → Site R K G → Outcome R K G)
      → Writer Body
      → Site R K G
      → Outcome R K G
  respond r (ok a) f w st = f a w st
  respond r (err e) f w st = let (w', st') = write_domain_error r e w st in (returns, w', st')
  respond r hangs f w st = (blocks, w, st)

  abbrev pub create_decoded : CreateLinkRequest → Handler R K G
  create_decoded req r w st =
      if is_past req.expires_at r.times.checked
      then (returns, write_error 400 past_expiry w, st)
      else (let (made, world) =
            create h.svc lib.urls (user_id_from r) req.original_url req.expires_at r.times.first
              r.times.second st.world in
          respond r made
            (λ l w st. (returns, write_json 201 (link_body (to_response h.svc l)) w, st)) w
            (with_world st world))

  -- `CreateLink`
  unfoldable pub create_link : Handler R K G
  create_link r w st = elim (lib.decode (2 ^ 20) r.body) [
    | none ↦ (returns, write_error 400 bad_json w, st)
    | some req ↦ create_decoded req r w st
  ]

  -- `ListLinks`
  unfoldable pub list_links : Handler R K G
  list_links r w st =
      let (links, world) =
        list_by_user h.svc (user_id_from r) (query_int r (codes "limit") (pos 20))
          (query_int r (codes "offset") (pos 0)) st.world in
      respond r links
        (λ ls w st. (returns, write_json 200 (links_body (map (to_response h.svc) ls)) w, st)) w
        (with_world st world)

  -- `Publish`, or the log of an event that could not be built.
  abbrev pub after_build : Request → Result ClickEvent → Writer Body → Site R K G → Outcome R K G
  after_build r (ok ev) w st = (returns, w, record st { published = ev ∷ st.published })
  after_build r (err e) w st = (returns, w, logged (event_failed e r.code (request_id_from r)) st)
  after_build r hangs w st = (blocks, w, st)

  -- The click, behind the response.
  unfoldable pub click : Option Builder → Resolved → Handler R K G
  click none res r w st = (returns, w, st)
  click (some b) res r w st =
      let (event, ids) = build h.svc.ids b res.link_id r.code res.original_url r st.world.ids in
      after_build r event w (with_world st (record st.world { ids = ids }))

  -- `http.Redirect(w, r, url, http.StatusFound)`: only a GET gets a page, and only where no
  -- Content-Type has been set.
  unfoldable pub send_redirect : Request → Text → Writer Body → Writer Body
  send_redirect r url w =
      let located = set_header (codes "Location") (lib.location url) w in
      let typed = set_header (codes "Content-Type") (codes "text/html; charset=utf-8") located in
      if is_empty (header_of (codes "Content-Type") w.headers)
      then (if text_eq r.method (codes "GET")
          then write found_page (write_header 302 typed)
          else write_header 302 typed)
      else write_header 302 located

  -- `Redirect`
  unfoldable pub redirect : Handler R K G
  unfolding send_redirect click
  redirect r w st =
      let (found, world) = resolve h.svc r.code r.times.first r.times.second st.world in
      respond r found (λ res w st. click h.clicks res r (send_redirect r res.original_url w) st) w
        (with_world st world)

  -- The statuses of the dependencies: `none` is "ok", `some` the text of the error.
  unfoldable pub all_ok : List (Text × Option Text) → Bool
  all_ok [] = true
  all_ok ((name, none) ∷ deps) = all_ok deps
  all_ok ((name, some e) ∷ deps) = false

  -- `Healthz`, with what the pings of the dependencies return.
  unfoldable pub healthz : List (Text × Option Text) → Handler R K G
  unfolding all_ok
  healthz deps r w st =
      (returns, write_json (if all_ok deps then 200 else 503) (health_body deps) w, st)
