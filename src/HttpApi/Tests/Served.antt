-- ===== src/HttpApi/Tests/Served.antt =====
-- Requests to the whole router, and the theorems there.
use linkpulse_link.Base.{◌≡◌, refl, none, [], ◌∷◌}
use linkpulse_link.Base.Text.{codes, text_eq}
use linkpulse_link.Http.{Request, empty_writer, write_header, write, send, returns}
use linkpulse_link.Link.{ok, is_expired}
use linkpulse_link.Link.Service.{resolved, resolve, serve}
use linkpulse_link.Link.Service.Sample.{service, start, link}
use linkpulse_link.Repository.Memory.{Db, memory, memory-IsTable}
use linkpulse_link.Cache.Memory.{Store}
use linkpulse_link.Snowflake.Ids.{Ids}
use linkpulse_link.HttpApi.{
  CreateLinkRequest, LinkResponse, Message, internal_error, Body, link_body, found_page, Entry,
  request_done, panic_caught, Site, Outcome, Handler, logged, write_json, write_error, to_response,
}
use linkpulse_link.HttpApi.Handlers.{
  Library, Handlers, is_past, create_link, send_redirect, click, redirect,
}
use linkpulse_link.HttpApi.Middleware.{cut_prefix, bearer_auth, recover, request_id, logging}
use linkpulse_link.HttpApi.Listed.{Is200, IsOwn, mux-IsOwn}
use linkpulse_link.HttpApi.Router.{mux, route, to_list}
use linkpulse_link.Repository.{to_row}
use linkpulse_link.HttpApi.Tests.{library, handlers, site, post, knows, random}
use linkpulse_link.HttpApi.Recorded.Logged.{IsLogged, router-IsLogged}
use linkpulse_link.HttpApi.Router.{router}

-- One link is stored.
abbrev stocked : Site Db Store Ids
stocked = record site {
  world = record start { repo = record { table = to_row link ∷ []; faults = [] } };
}

-- The listing of the user whom the token names.
abbrev listing : Request
listing = record post { method = codes "GET" }

abbrev listed : Outcome Db Store Ids
listed =
    mux library (record handlers { clicks = none }) [] (bearer_auth knows) listing empty_writer
      stocked

listing_routed : route listing.method listing.path ≡ to_list
unfolding route text_eq
listing_routed = refl

listing_sent : Is200 listed.1
unfolding mux route text_eq bearer_auth cut_prefix linkpulse_link.HttpApi.Handlers.list_links
    linkpulse_link.Link.Service.list_by_user linkpulse_link.Repository.list_by_user
    linkpulse_link.Repository.rows_result linkpulse_link.Repository.Memory.select_from write_json
    write write_header send
listing_sent = (
  record {
    status = 200;
    fields = (codes "Content-Type", codes "application/json; charset=utf-8") ∷ [];
  },
  refl,
  refl,
)

mux-IsOwn_example :
    IsOwn library memory memory-IsTable service.cache service.ids service.base_url service.cache_ttl
      none [] knows listing stocked listed.1
mux-IsOwn_example =
    mux-IsOwn library memory memory-IsTable service.cache service.ids service.base_url
      service.cache_ttl none [] knows listing stocked listing_routed listing_sent

abbrev served : Outcome Db Store Ids
served = router library handlers [] (bearer_auth knows) random listing empty_writer stocked

served_returns : served.0 ≡ returns
unfolding router mux route text_eq bearer_auth cut_prefix linkpulse_link.HttpApi.Handlers.list_links
    linkpulse_link.Link.Service.list_by_user linkpulse_link.Repository.list_by_user
    linkpulse_link.Repository.rows_result linkpulse_link.Repository.Memory.select_from recover
    request_id logging
served_returns = refl

router-IsLogged_example : IsLogged random listing stocked served
router-IsLogged_example =
    router-IsLogged library handlers [] random knows listing stocked served_returns
