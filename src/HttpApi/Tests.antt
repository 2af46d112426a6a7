-- ===== src/HttpApi/Tests.antt =====
-- Requests to the sample service, and the theorems there.
mod Served
use linkpulse_link.Base.{ℕ, ◌≡◌, refl, ap, ◌∙◌, none, some, List, [], ◌∷◌, if◌then◌else◌}
use linkpulse_link.Base.Text.{Text, codes, text_eq}
use linkpulse_link.Base.Int.{pos}
use linkpulse_link.Http.{
  Request, header_of, set_header, Sent, Writer, empty_writer, status_of, write_header, write, send,
  returns, panics,
}
use linkpulse_link.Link.{ok, is_expired}
use linkpulse_link.Link.Service.{resolved, resolve, serve}
use linkpulse_link.Link.Service.Sample.{
  plain, service, start, raw_url, link, created, session, repo_laws, cache_laws, start-IsSound,
  runs,
}
use linkpulse_link.Repository.Memory.{Db, memory, memory-IsTable}
use linkpulse_link.Cache.Memory.{Store}
use linkpulse_link.Snowflake.Ids.{Ids}
use linkpulse_link.Clicks.{noop_country}
use linkpulse_link.HttpApi.{
  CreateLinkRequest, LinkResponse, Message, Body, link_body, found_page, Entry, request_done, Site,
  Outcome, Handler, logged, write_json, to_response,
}
use linkpulse_link.HttpApi.Handlers.{
  Library, Handlers, is_past, create_link, send_redirect, click, redirect,
}
use linkpulse_link.HttpApi.Middleware.{
  request_id_header, Verdict, valid_user, invalid_token, cut_prefix, bearer_auth, recover,
  request_id, logging,
}
use linkpulse_link.HttpApi.Listed.{Is200, IsOwn, mux-IsOwn}
use linkpulse_link.HttpApi.Router.{mux, route, to_list}
use linkpulse_link.HttpApi.Statuses.{IsAnswered, redirect-IsAnswered}
use linkpulse_link.HttpApi.Clicking.{
  silent, IsPublished, redirect-clicks_irrelevant, redirect-IsPublished,
}
use linkpulse_link.HttpApi.Authorized.{IsGuarded, mux-IsGuarded}
use linkpulse_link.HttpApi.Panics.{stack, id_of, stack-returns}
use linkpulse_link.HttpApi.Reaching.{redirect-reaches}
use linkpulse_link.Link.Service.Requests.{IsSound, created-listed}
use linkpulse_link.Repository.{to_row}
use linkpulse_link.Repository.Laws.{stored}
use mathlib.Core.List.{Memᴰ}
use linkpulse_link.HttpApi.EndToEnd.{IsMade, create_link-IsMade, redirect-create_link}

-- The body is always the one that asks for the sample link.
abbrev pub library : Library
library = record {
  urls = plain;
  decode = λ limit body. some (record { original_url = raw_url; expires_at = some (pos 300) });
  location = λ url. url;
}

abbrev pub handlers : Handlers Db Store Ids
handlers = record {
  svc = service;
  clicks = some (record {
    salt = codes "s";
    digest = record { sha256_hex = λ t. t; ip_string = λ ip. ip };
    country = noop_country;
  });
}

abbrev pub site : Site Db Store Ids
site = record { world = start; published = []; log = []; drawn = 0 }

abbrev pub post : Request
post = record {
  method = codes "POST";
  path = codes "/api/v1/links";
  header = λ name. if text_eq name (codes "Authorization") then codes "Bearer t" else [];
  query = λ name. [];
  body = [];
  remote_addr = codes "10.1.2.3:4711";
  times = record { checked = pos 4; first = pos 5; second = pos 6; clicked = pos 7 };
  code = [];
  request_id = none;
  user_id = some (codes "u");
}

abbrev visit : Request
visit = record post {
  method = codes "GET";
  path = b'/' ∷ link.short_code;
  times = record { checked = pos 9; first = pos 10; second = pos 11; clicked = pos 12 };
  code = link.short_code;
}

redirect-IsPublished_example :
    IsPublished library handlers visit site (redirect library handlers visit empty_writer site).2
redirect-IsPublished_example = redirect-IsPublished library handlers visit empty_writer site

redirect-IsAnswered_example :
    IsAnswered library handlers repo_laws cache_laws visit site
      (redirect library handlers visit empty_writer site).1
redirect-IsAnswered_example =
    redirect-IsAnswered library handlers repo_laws cache_laws visit empty_writer site refl
      start-IsSound.coherent

-- The validator knows one token.
abbrev pub knows : Text → Verdict
knows token = if text_eq token (codes "t") then valid_user (codes "u") else invalid_token

mux-IsGuarded_example :
    IsGuarded library handlers [] knows post empty_writer site
      (mux library handlers [] (bearer_auth knows) post empty_writer site)
mux-IsGuarded_example = mux-IsGuarded library handlers [] knows post empty_writer site refl refl

-- A handler that panics at once.
abbrev broken : Handler Db Store Ids
broken r w st = (panics, w, st)

abbrev pub random : ℕ → List ℕ
random n = 0xde ∷ 0xad ∷ 0 ∷ 0 ∷ 0 ∷ 0 ∷ 0 ∷ n ∷ []

-- The writer and the state that the handler behind the middleware gets.
abbrev seen : Writer Body
seen = record (set_header request_id_header (id_of random post site) empty_writer) {
  recorded = 200;
}

abbrev drawn : Site Db Store Ids
drawn = record site { drawn = 1 }

-- A handler that does nothing.
abbrev quiet : Handler Db Store Ids
quiet r w st = (returns, w, st)

stack-returns_run : stack random quiet post empty_writer site ≡ (
  returns,
  seen,
  logged (request_done (codes "POST") (codes "/api/v1/links") 200 (id_of random post site)) drawn,
)
unfolding text_eq
stack-returns_run = stack-returns random quiet post empty_writer seen site drawn refl

drawn_id : id_of random post site ≡ codes "dead000000000000"
unfolding text_eq linkpulse_link.HttpApi.Middleware.encode_hex
drawn_id = refl

-- The link is created, and its code leads to its URL.
abbrev answer : LinkResponse
answer = to_response service link

post_run : create_link library handlers post empty_writer site ≡ (
  returns,
  write_json 201 (link_body answer) empty_writer,
  record site { world = (created start).1 },
)
unfolding create_link is_past
post_run = rw (runs.creates) refl

post_status : status_of (create_link library handlers post empty_writer site).1 ≡ 201
unfolding write_json write write_header send
post_status = ap (λ o. status_of o.1) post_run

post_pieces : (create_link library handlers post empty_writer site).1.pieces ≡ link_body answer ∷ []
unfolding write_json write write_header
post_pieces = ap (λ o. o.1.pieces) post_run

create_link-IsMade_run :
    IsMade library handlers post empty_writer site
      (create_link library handlers post empty_writer site)
create_link-IsMade_run = create_link-IsMade library handlers post empty_writer site refl post_status

-- The state when the link is visited.
abbrev later : Site Db Store Ids
later = record site {
  world = serve service plain session (create_link library handlers post empty_writer site).2.world;
}

abbrev page : Sent
page = record {
  status = 302;
  fields =
      (codes "Content-Type", codes "text/html; charset=utf-8")
      ∷ (codes "Location", codes "https://example.com")
      ∷ [];
}

visit_resolves :
    (resolve service link.short_code (pos 10) (pos 11) later.world).0 ≡ ok (resolved link)
visit_resolves =
    ap
      (λ o.
        (resolve service link.short_code (pos 10) (pos 11)
          (serve service plain session o.2.world)).0)
      post_run
    ∙ runs.resolves_later

visit-silent :
    (redirect library (silent library handlers) visit empty_writer later).1.sent ≡ some page
unfolding redirect click send_redirect write write_header send text_eq header_of
visit-silent = rw visit_resolves refl

visit_run : (redirect library handlers visit empty_writer later).1.sent ≡ some page
visit_run =
    ap (λ w. w.sent) (redirect-clicks_irrelevant library handlers visit empty_writer later)
    ∙ visit-silent

redirect-create_link_example :
    header_of (codes "Location") page.fields ≡ codes "https://example.com"
unfolding to_response
redirect-create_link_example =
    redirect-create_link library handlers repo_laws cache_laws post visit empty_writer site answer
      session page start-IsSound post_status post_pieces refl refl visit_run refl

abbrev grown : Site Db Store Ids
grown = record site { world = serve service plain session (created start).1 }

stays-IsSound :
    IsSound service plain repo_laws cache_laws grown.world
    × Memᴰ link (stored memory memory-IsTable grown.world.repo)
stays-IsSound =
    created-listed service plain repo_laws cache_laws (codes "u") raw_url (some (pos 300)) (pos 5)
      (pos 6) start link session start-IsSound runs.creates

lookup_run : (service.repo.get_by_short_code visit.code grown.world.repo).0 ≡ ok link
lookup_run = runs.finds_later

redirect-reaches_example :
    (s : Sent) × ((redirect library handlers visit empty_writer grown).1.sent ≡ some s)
    × (s.status ≡ 302)
    × (header_of (codes "Location") s.fields ≡ codes "https://example.com")
redirect-reaches_example =
    redirect-reaches library handlers repo_laws cache_laws visit empty_writer grown link link
      stays-IsSound.0 stays-IsSound.1 refl (unfold is_expired in refl) lookup_run refl
