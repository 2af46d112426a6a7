-- ===== src/HttpApi/Recorded/Logged.antt =====
-- The record of a request: its status is the status of the response.
use linkpulse_link.Base.{ℕ, ◌≡◌, refl, Option, none, some, List, [], ◌∷◌, ◌++◌}
use linkpulse_link.Base.Text.{Text, codes}
use linkpulse_link.Http.{Request, request_id_from, empty_writer, status_of, returns, panics, blocks}
use linkpulse_link.HttpApi.{Entry, request_done, Site, Outcome, Handler}
use linkpulse_link.HttpApi.Handlers.{Library, Handlers, create_link, list_links}
use linkpulse_link.HttpApi.Middleware.{
  Verdict, valid_user, invalid_token, unavailable, cut_prefix, judged, bearer_checked, bearer_auth,
  stub_auth, rescue, after_next,
}
use linkpulse_link.HttpApi.Router.{
  Route, to_create, to_list, to_health, to_code, unknown_path, wrong_method, route, serve_route,
  mux, router,
}
use linkpulse_link.HttpApi.Panics.{id_of, inner, stack-inner}
use linkpulse_link.HttpApi.Recorded.{
  write_header-IsRecorded, write_error-IsRecorded, IsKept, return-IsKept, Records,
  create_link-Records, list_links-Records, redirect-Records, healthz-Records,
}

module _ {R K G : Type 0} where
  judged-Records : (v : Verdict) (next : Handler R K G) → Records next → Records (judged v next)
  judged-Records (valid_user user) next keeps =
      λ r w st. keeps (record r { user_id = some user }) w st
  judged-Records invalid_token next keeps =
      λ r w st new. return-IsKept _ _ (write_error-IsRecorded 401 _ w new)
  judged-Records unavailable next keeps =
      λ r w st new. return-IsKept _ _ (write_error-IsRecorded 503 _ w new)

  bearer_checked-Records :
      (validate : Text → Verdict) (token : Option Text) (next : Handler R K G)
      → Records next
      → Records (bearer_checked validate token next)
  bearer_checked-Records validate none next keeps =
      λ r w st new. return-IsKept _ _ (write_error-IsRecorded 401 _ w new)
  bearer_checked-Records validate (some []) next keeps =
      λ r w st new. return-IsKept _ _ (write_error-IsRecorded 401 _ w new)
  bearer_checked-Records validate (some (c ∷ token)) next keeps =
      judged-Records (validate (c ∷ token)) next keeps

  pub bearer_auth-Records :
      (validate : Text → Verdict) (next : Handler R K G)
      → Records next
      → Records (bearer_auth validate next)
  unfolding bearer_auth
  bearer_auth-Records validate next keeps = λ r w st.
      bearer_checked-Records validate
        (cut_prefix (r.header (codes "Authorization")) (codes "Bearer ")) next keeps r w st

  pub stub_auth-Records :
      (user : Text) (next : Handler R K G) → Records next → Records (stub_auth user next)
  unfolding stub_auth
  stub_auth-Records user next keeps = λ r w st. keeps (record r { user_id = some user }) w st

  -- The log ends with the record of the request, with the status of the response.
  pub record IsLogged (random : ℕ → List ℕ) (r : Request) (st : Site R K G) (o : Outcome R K G)
      : Type 0 where
    pub before : List Entry
    pub last :
        o.2.log ≡ before ++ request_done r.method r.path (status_of o.1) (id_of random r st) ∷ []

  rescued-IsLogged :
      (random : ℕ → List ℕ) (r r' : Request) (st : Site R K G) (o : Outcome R K G)
      → r'.method ≡ r.method
      → r'.path ≡ r.path
      → request_id_from r' ≡ id_of random r st
      → IsKept o
      → (rescue r (after_next r' o)).0 ≡ returns
      → IsLogged random r st (rescue r (after_next r' o))
  rescued-IsLogged random r r' st (returns, w, at_end) method path id o returned = record {
    before = at_end.log;
    last = rw (method, path, id, o.kept) refl;
  }
  rescued-IsLogged random r r' st (panics, w, at_end) method path id o returned =
      absurd (o.calm refl)
  rescued-IsLogged random r r' st (blocks, w, at_end) method path id o returned = cc

module _ {R K G : Type 0} (lib : Library) (h : Handlers R K G) where
  module _ (deps : List (Text × Option Text)) {auth : Handler R K G → Handler R K G}
      (auth-Records : (next : Handler R K G) → Records next → Records (auth next)) where
    serve_route-Records : (to : Route) → Records (serve_route lib h deps auth to)
    unfolding serve_route
    serve_route-Records to_create = auth-Records (create_link lib h) (create_link-Records lib h)
    serve_route-Records to_list = auth-Records (list_links lib h) (list_links-Records lib h)
    serve_route-Records to_health = healthz-Records lib h deps
    serve_route-Records (to_code s) = λ r w st. redirect-Records lib h (record r { code = s }) w st
    serve_route-Records unknown_path =
        λ r w st new. return-IsKept _ st (write_header-IsRecorded 404 w new)
    serve_route-Records wrong_method =
        λ r w st new. return-IsKept _ st (write_header-IsRecorded 405 w new)

    mux-Records : Records (mux lib h deps auth)
    unfolding mux
    mux-Records r w st = serve_route-Records (route r.method r.path) r w st

module _ {R K G : Type 0} (lib : Library) (h : Handlers R K G) (deps : List (Text × Option Text))
    (random : ℕ → List ℕ) where
  -- `NewRouter` around any check of the users that keeps the recorder right.
  router_of-IsLogged :
      (auth : Handler R K G → Handler R K G) (r : Request) (st : Site R K G)
      → ((next : Handler R K G) → Records next → Records (auth next))
      → (router lib h deps auth random r empty_writer st).0 ≡ returns
      → IsLogged random r st (router lib h deps auth random r empty_writer st)
  unfolding router
  router_of-IsLogged auth r st keeps =
      rw (stack-inner random (mux lib h deps auth) r empty_writer st) (
        rescued-IsLogged random r (record r { request_id = some (id_of random r st) }) st
          (inner random (mux lib h deps auth) r empty_writer st) refl refl refl
          (mux-Records lib h deps keeps _ _ _ (record { unsent = refl; preset = refl })))

  -- The record of a request tells the truth: on every route, where the router returns to the
  -- server, the last entry of the log has the method and the path of the request, its request ID,
  -- and the status that the response has, 200 where none was written.
  pub router-IsLogged :
      (validate : Text → Verdict) (r : Request) (st : Site R K G)
      → (router lib h deps (bearer_auth validate) random r empty_writer st).0 ≡ returns
      → IsLogged random r st (router lib h deps (bearer_auth validate) random r empty_writer st)
  router-IsLogged validate r st =
      router_of-IsLogged (bearer_auth validate) r st (bearer_auth-Records validate)
