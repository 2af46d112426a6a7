-- ===== src/HttpApi/Listed.antt =====
-- Whose links a listing shows, from the token of the request to the rows of the table.
use linkpulse_link.Base.{
  ℕ, Option, ◌≡◌, ◌≢◌, ◌⊎◌, inl, inr, refl, ap, sym, ◌∙◌, none, some, List, [], ◌∷◌, map, arith,
}
use linkpulse_link.Base.Text.{Text, codes}
use linkpulse_link.Base.Int.{ℤ, pos, ◌≤ℤ◌}
use linkpulse_link.Http.{
  returns, Request, user_id_from, Sent, Writer, empty_writer, status_of, write, write_header,
}
use linkpulse_link.Link.{
  Error, not_found, expired, invalid_url, internal, Result, ok, err, hangs, Link, Duration,
}
use linkpulse_link.Link.Ports.{Cache, IdGenerator}
use linkpulse_link.Link.Service.{Service, page_size, page_start, list_by_user}
use linkpulse_link.Link.Service.Ttl.{page_bounds}
use linkpulse_link.Clicks.{Builder}
use linkpulse_link.Repository.{Pool, IsTable, postgres}
use linkpulse_link.Repository.Sql.{LinkRow}
use linkpulse_link.Repository.Listing.{IsPage, list_by_user-IsPage}
use linkpulse_link.HttpApi.{
  Message, link_not_found, link_expired, internal_error, invalid, Body, links_body, Site, Outcome,
  write_json, write_error, write_domain_error, to_response,
}
use linkpulse_link.HttpApi.Handlers.{Library, Handlers, query_int, respond, list_links}
use linkpulse_link.HttpApi.Middleware.{Verdict, bearer_auth}
use linkpulse_link.HttpApi.Router.{to_list, route, serve_route, mux}
use linkpulse_link.HttpApi.Statuses.{write_error-sent}
use linkpulse_link.HttpApi.Authorized.{IsUser, bearer_auth-cases}

-- A response 200 has gone out.
abbrev pub Is200 : Writer Body → Type 0
Is200 w = (s : Sent) × (w.sent ≡ some s) × (s.status ≡ 200)

error-ne-200 :
    (status : ℕ) (msg : Message) → status ≢ 200 → ¬ Is200 (write_error status msg empty_writer)
error-ne-200 status msg other (s, sent, is_200) =
    let out = write_error-sent status msg empty_writer refl in
    other (ap (λ o. elim o [ none ↦ 200 | some s ↦ s.status ]) (sym out ∙ sent) ∙ is_200)

refused-ne-200 : (w : Writer Body) → (status_of w ≡ 401) ⊎ (status_of w ≡ 503) → ¬ Is200 w
refused-ne-200 w refused (s, sent, is_200) =
    let status : status_of w ≡ 200 =
      ap (λ o. elim o [ none ↦ 200 | some s ↦ s.status ]) sent ∙ is_200 in
    elim refused [ inl e ↦ omega (arith, e, status) | inr e ↦ omega (arith, e, status) ]

module _ {R K G : Type 0} where
  domain_error-ne-200 :
      (r : Request) (e : Error) (st : Site R K G)
      → ¬ Is200 (write_domain_error r e empty_writer st).0
  unfolding write_domain_error
  domain_error-ne-200 r not_found st = error-ne-200 404 link_not_found (λ e. omega (arith, e))
  domain_error-ne-200 r expired st = error-ne-200 410 link_expired (λ e. omega (arith, e))
  domain_error-ne-200 r (invalid_url x) st = error-ne-200 400 (invalid x) (λ e. omega (arith, e))
  domain_error-ne-200 r (internal f) st = error-ne-200 500 internal_error (λ e. omega (arith, e))

-- The page of a user, and the response that shows it.
pub record IsShown {R K G : Type 0} (svc : Service R K G) (user : Text) (limit : ℤ)
    (rows : List LinkRow) (w : Writer Body) : Type 0 where
  pub links : List Link
  pub page : IsPage rows user limit links
  pub few : limit ≤ℤ pos 100
  pub body : w.pieces ≡ links_body (map (to_response svc) links) ∷ []

module _ {R K G : Type 0} (lib : Library) (h : Handlers R K G) where
  -- The end of `ListLinks`.
  abbrev responded : Request → Result (List Link) → Site R K G → Outcome R K G
  responded r found st =
      respond lib h r found
        (λ ls w st. (returns, write_json 200 (links_body (map (to_response h.svc) ls)) w, st))
        empty_writer st

  responded-IsShown :
      (r : Request) (user : Text) (limit : ℤ) (rows : List LinkRow) (found : Result (List Link))
      (st : Site R K G)
      → ((ls : List Link) → found ≡ ok ls → IsPage rows user limit ls)
      → limit ≤ℤ pos 100
      → Is200 (responded r found st).1
      → IsShown h.svc user limit rows (responded r found st).1
  unfolding write_json write write_header
  responded-IsShown r user limit rows (ok ls) st page few is_200 = record {
    links = ls;
    page = page ls refl;
    few = few;
    body = refl;
  }
  responded-IsShown r user limit rows (err e) st page few is_200 =
      absurd (domain_error-ne-200 r e st is_200)
  responded-IsShown r user limit rows hangs st page few (s, sent, is_200) = cc

module _ {P K G : Type 0} (lib : Library) (pool : Pool P) {table : P → List LinkRow}
    (laws : IsTable pool table) (cache : Cache K) (ids : IdGenerator G) (base_url : Text)
    (ttl : Duration) (clicks : Option Builder) where
  -- The handlers on the table.
  abbrev pub on_table : Handlers P K G
  on_table = record {
    svc = record {
      repo = postgres pool;
      cache = cache;
      ids = ids;
      base_url = base_url;
      cache_ttl = ttl;
    };
    clicks = clicks;
  }

  list_links-IsShown :
      (r : Request) (st : Site P K G)
      → Is200 (list_links lib on_table r empty_writer st).1
      → IsShown on_table.svc
          (user_id_from r)
          (page_size (query_int r (codes "limit") (pos 20)))
          (table st.world.repo)
          (list_links lib on_table r empty_writer st).1
  unfolding list_links list_by_user
  list_links-IsShown r st =
      let limit = query_int r (codes "limit") (pos 20) in
      let offset = query_int r (codes "offset") (pos 0) in
      responded-IsShown lib on_table r (user_id_from r) (page_size limit) (table st.world.repo) _ _
        (λ ls found.
          list_by_user-IsPage pool (user_id_from r) (page_size limit) (page_start offset)
            st.world.repo ls laws found)
        (page_bounds limit offset).1

  module _ (deps : List (Text × Option Text)) (validate : Text → Verdict) where
    -- The listing that a user gets.
    pub record IsOwn (r : Request) (st : Site P K G) (w : Writer Body) : Type 0 where
      pub user : Text
      pub vouched : IsUser validate r user
      pub shown :
          IsShown on_table.svc user
            (page_size (query_int r (codes "limit") (pos 20)))
            (table st.world.repo)
            w

    -- A user sees only their own links, over a pool with the laws of the table: where a request for the
    -- listing gets 200, the validator vouches for a user by the token of the request, and the
    -- body shows links of rows of the table that belong to this user, newest first and 100 at
    -- most.
    pub mux-IsOwn :
        (r : Request) (st : Site P K G)
        → route r.method r.path ≡ to_list
        → Is200 (mux lib on_table deps (bearer_auth validate) r empty_writer st).1
        → IsOwn r st (mux lib on_table deps (bearer_auth validate) r empty_writer st).1
    unfolding mux serve_route query_int
    mux-IsOwn r st listing is_200 =
        elim (bearer_auth-cases validate (list_links lib on_table) r empty_writer st refl) [
          | inl (user, vouched, same) ↦
              rw (listing, same)
                (record {
                  user = user;
                  vouched = vouched;
                  shown =
                      list_links-IsShown (record r { user_id = some user }) st
                        (rw (listing, same) at is_200);
                })
          | inr (_, refused, _, _) ↦ absurd (
              refused-ne-200 (bearer_auth validate (list_links lib on_table) r empty_writer st).1
                refused (rw listing at is_200))
        ]
