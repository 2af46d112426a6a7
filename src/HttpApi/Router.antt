-- ===== src/HttpApi/Router.antt =====
-- internal/httpapi/router.go: the routes and the order of the middleware.
-- A path is as the mux matches it: it starts with `/`, is clean and has no escapes.
use linkpulse_link.Base.{ℕ, Bool, ◌||◌, Option, none, some, List, [], ◌∷◌, if◌then◌else◌}
use linkpulse_link.Base.Text.{Text, codes, text_eq}
use linkpulse_link.Net.Strings.{is_empty}
use linkpulse_link.Net.Ip.{has}
use linkpulse_link.Http.{write_header, returns}
use linkpulse_link.HttpApi.{Handler}
use linkpulse_link.HttpApi.Handlers.{Library, Handlers, create_link, list_links, redirect, healthz}
use linkpulse_link.HttpApi.Middleware.{request_id, logging, recover}

-- What the mux chooses: a pattern, or its own answer 404 or 405.
pub data Route : Type 0 where
  to_create to_list to_health unknown_path wrong_method : Route
  to_code : Text → Route

-- The segment of `/{code}`: `none` for the root and for paths of several segments.
abbrev pub single_segment : Text → Option Text
single_segment [] = none
single_segment (c ∷ s) = if is_empty s || has b'/' s then none else some s

-- A pattern with GET matches HEAD as well.
abbrev pub is_get : Text → Bool
is_get method = text_eq method (codes "GET") || text_eq method (codes "HEAD")

abbrev pub by_segment : Text → Option Text → Route
by_segment method none = unknown_path
by_segment method (some s) = if is_get method then to_code s else wrong_method

-- The most specific pattern wins.
unfoldable pub route : Text → Text → Route
route method path =
    if text_eq path (codes "/api/v1/links")
    then (if text_eq method (codes "POST")
        then to_create
        else if is_get method
        then to_list
        else wrong_method)
    else if text_eq path (codes "/healthz")
    then (if is_get method then to_health else wrong_method)
    else by_segment method (single_segment path)

module _ {R K G : Type 0} (lib : Library) (h : Handlers R K G) (deps : List (Text × Option Text))
    (auth : Handler R K G → Handler R K G) where
  unfoldable pub serve_route : Route → Handler R K G
  serve_route to_create r w st = auth (create_link lib h) r w st
  serve_route to_list r w st = auth (list_links lib h) r w st
  serve_route to_health r w st = healthz lib h deps r w st
  serve_route (to_code s) r w st = redirect lib h (record r { code = s }) w st
  serve_route unknown_path r w st = (returns, write_header 404 w, st)
  serve_route wrong_method r w st = (returns, write_header 405 w, st)

  unfoldable pub mux : Handler R K G
  unfolding route serve_route
  mux r w st = serve_route (route r.method r.path) r w st

  -- `NewRouter`
  unfoldable pub router : (ℕ → List ℕ) → Handler R K G
  unfolding mux
  router random = recover (request_id random (logging mux))
