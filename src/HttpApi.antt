-- ===== src/HttpApi.antt =====
-- internal/httpapi: the HTTP layer. This file has what the handlers and the middleware share: the
-- bodies, the log, the state of the process, and the translation of errors.
pub mod Handlers
pub mod Middleware
pub mod Router
pub mod Statuses
pub mod Clicking
pub mod Authorized
pub mod Panics
pub mod EndToEnd
pub mod Reaching
pub mod Listed
pub mod Recorded
mod Tests
use linkpulse_link.Base.{ℕ, Option, none, some, List, [], ◌∷◌, ◌++◌}
use linkpulse_link.Base.Text.{Text, codes}
use linkpulse_link.Strconv.{format_int}
use linkpulse_link.Http.{
  Request, request_id_from, Writer, set_header, write_header, write, Flow, returns,
}
use linkpulse_link.Link.{
  Time, Reason, Fault, Error, not_found, expired, invalid_url, internal, Link,
}
use linkpulse_link.Link.Action.{World}
use linkpulse_link.Link.Service.{Service, short_url}
use linkpulse_link.Clicks.{ClickEvent}

-- `createLinkRequest`
pub record CreateLinkRequest : Type 0 where
  pub original_url : Text
  pub expires_at : Option Time

-- `linkResponse`
pub record LinkResponse : Type 0 where
  pub id : Text
  pub short_code : Text
  pub short_url : Text
  pub original_url : Text
  pub created_at : Time
  pub expires_at : Option Time

-- The messages of `errorResponse`; `invalid` is the text of the wrapped error.
pub data Message : Type 0 where
  bad_json past_expiry link_not_found link_expired internal_error : Message
  no_bearer auth_unavailable bad_token : Message
  invalid : Reason → Message

-- What a handler encodes; `found_page` is the page that http.Redirect writes.
pub data Body : Type 0 where
  error_body : Message → Body
  link_body : LinkResponse → Body
  links_body : List LinkResponse → Body
  health_body : List (Text × Option Text) → Body
  found_page : Body

-- The records of the log, with the request_id that they carry.
pub data Entry : Type 0 where
  request_done : Text → Text → ℕ → Text → Entry
  panic_caught : Text → Text → Entry
  domain_failed : Error → Text → Entry
  event_failed : Error → Text → Text → Entry
  auth_failed : Text → Entry

-- The state of the process: that of the service, the published events, the log, and the number of
-- request IDs drawn from the random source.
pub record Site (R K G : Type 0) : Type 0 where
  pub world : World R K G
  pub published : List ClickEvent
  pub log : List Entry
  pub drawn : ℕ

module _ (R K G : Type 0) where
  abbrev pub Outcome : Type 0
  Outcome = Flow × Writer Body × Site R K G

  -- `http.Handler`
  abbrev pub Handler : Type 0
  Handler = Request → Writer Body → Site R K G → Outcome

module _ {R K G : Type 0} where
  abbrev pub logged : Entry → Site R K G → Site R K G
  logged e st = record st { log = st.log ++ e ∷ [] }

-- `writeJSON`
unfoldable pub write_json : ℕ → Body → Writer Body → Writer Body
write_json status v w = write v (
    write_header status
      (set_header (codes "Content-Type") (codes "application/json; charset=utf-8") w))

-- `writeError`
unfoldable pub write_error : ℕ → Message → Writer Body → Writer Body
unfolding write_json
write_error status msg w = write_json status (error_body msg) w

module _ {R K G : Type 0} where
  -- `writeDomainError`
  unfoldable pub write_domain_error :
      Request → Error → Writer Body → Site R K G → Writer Body × Site R K G
  unfolding write_error
  write_domain_error r (invalid_url reason) w st = (write_error 400 (invalid reason) w, st)
  write_domain_error r not_found w st = (write_error 404 link_not_found w, st)
  write_domain_error r expired w st = (write_error 410 link_expired w, st)
  write_domain_error r (internal f) w st =
      (write_error 500 internal_error w, logged (domain_failed (internal f) (request_id_from r)) st)

  -- `toResponse`
  unfoldable pub to_response : Service R K G → Link → LinkResponse
  unfolding short_url
  to_response s l = record {
    id = format_int l.id;
    short_code = l.short_code;
    short_url = short_url s l.short_code;
    original_url = l.original_url;
    created_at = l.created_at;
    expires_at = l.expires_at;
  }
