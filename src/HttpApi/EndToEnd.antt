-- ===== src/HttpApi/EndToEnd.antt =====
-- From the creation of a link to its redirect, through the handlers.
use mathlib.Core.List.{Memᴰ}
use linkpulse_link.Base.{
  ℕ, ◌≡◌, ◌≢◌, inl, inr, refl, ap, sym, ◌∙◌, false, ◌^◌, none, some, List, [], ◌∷◌, Bool-cases,
  Option-cases, arith,
}
use linkpulse_link.Base.Text.{Text, codes}
use linkpulse_link.Http
use linkpulse_link.Http.{
  user_id_from, header_of, Sent, Writer, empty_writer, status_of, Flow, returns, send, write,
  write_header,
}
use linkpulse_link.Link.{
  Error, not_found, expired, invalid_url, internal, Result, ok, err, hangs, Link,
}
use linkpulse_link.Link.Ports.{Resolved, IsRepository, IsCache}
use linkpulse_link.Link.Service.{create, serve, Request}
use linkpulse_link.Link.Service.Requests.{IsSound, listed_unique, created-listed}
use linkpulse_link.HttpApi.{
  CreateLinkRequest, LinkResponse, Message, bad_json, past_expiry, link_not_found, link_expired,
  internal_error, invalid, Body, link_body, Site, Outcome, write_json, write_error,
  write_domain_error, to_response,
}
use linkpulse_link.HttpApi.Handlers.{
  Library, Handlers, is_past, respond, create_decoded, create_link, redirect,
}
use linkpulse_link.HttpApi.Statuses.{Says, redirect-IsAnswered}
use linkpulse_link.HttpApi.Authorized.{write_error-status}

-- A refusal with another status is no creation.
error-ne-201 :
    (status : ℕ) (msg : Message) (w : Writer Body)
    → w.sent ≡ none
    → status ≢ 201
    → status_of (write_error status msg w) ≢ 201
error-ne-201 status msg w fresh other h = other (sym (write_error-status status msg w fresh) ∙ h)

module _ {R K G : Type 0} where
  domain_error-ne-201 :
      (r : Http.Request) (e : Error) (w : Writer Body) (st : Site R K G)
      → w.sent ≡ none
      → status_of (write_domain_error r e w st).0 ≢ 201
  unfolding write_domain_error
  domain_error-ne-201 r not_found w st fresh =
      error-ne-201 404 link_not_found w fresh (λ e. omega (arith, e))
  domain_error-ne-201 r expired w st fresh =
      error-ne-201 410 link_expired w fresh (λ e. omega (arith, e))
  domain_error-ne-201 r (invalid_url x) w st fresh =
      error-ne-201 400 (invalid x) w fresh (λ e. omega (arith, e))
  domain_error-ne-201 r (internal f) w st fresh =
      error-ne-201 500 internal_error w fresh (λ e. omega (arith, e))

module _ {R K G : Type 0} (lib : Library) (h : Handlers R K G) where
  -- The creation behind a response 201 of the handler.
  pub record IsMade (r : Http.Request) (w : Writer Body) (st : Site R K G) (o : Outcome R K G)
      : Type 0 where
    pub asked : CreateLinkRequest
    pub link : Link
    pub decoded : lib.decode (2 ^ 20) r.body ≡ some asked
    pub not_past : is_past asked.expires_at r.times.checked ≡ false
    pub made :
        (create h.svc lib.urls
          (user_id_from r)
          asked.original_url
          asked.expires_at
          r.times.first
          r.times.second
          st.world).0
        ≡ ok link
    pub response : o.1 ≡ write_json 201 (link_body (to_response h.svc link)) w
    pub world :
        o.2.world
        ≡ (create h.svc lib.urls
            (user_id_from r)
            asked.original_url
            asked.expires_at
            r.times.first
            r.times.second
            st.world).1

  module _ (r : Http.Request) (w : Writer Body) (st : Site R K G) (fresh : w.sent ≡ none) where
    -- The handler behind the answer of the service.
    abbrev replied : Result Link → Site R K G → Outcome R K G
    replied made st =
        respond lib h r made
          (λ l w st. (returns, write_json 201 (link_body (to_response h.svc l)) w, st)) w st

    replied-201 :
        (made : Result Link) (st' : Site R K G)
        → status_of (replied made st').1 ≡ 201
        → (l : Link) × (made ≡ ok l)
          × ((replied made st').1 ≡ write_json 201 (link_body (to_response h.svc l)) w)
          × ((replied made st').2.world ≡ st'.world)
    replied-201 (ok l) st' is_201 = (l, refl, refl, refl)
    replied-201 (err e) st' is_201 = absurd (domain_error-ne-201 r e w st' fresh is_201)
    replied-201 hangs st' is_201 = absurd (omega (arith, rw fresh at is_201))

    responded-IsMade :
        (asked : CreateLinkRequest)
        → lib.decode (2 ^ 20) r.body ≡ some asked
        → status_of (create_decoded lib h asked r w st).1 ≡ 201
        → IsMade r w st (create_decoded lib h asked r w st)
    responded-IsMade asked decoded is_201 =
        elim (Bool-cases (is_past asked.expires_at r.times.checked)) [
          | inl late ↦
              absurd
                (error-ne-201 400 past_expiry w fresh (λ e. omega (arith, e)) (rw late at is_201))
          | inr early ↦
              let (l, made, response, world) = replied-201 _ _ (rw early at is_201) in
              record {
                asked = asked;
                link = l;
                decoded = decoded;
                not_past = early;
                made = made;
                response = rw early response;
                world = rw early world;
              }
        ]

    -- To a writer that has sent nothing, a response 201 means that the body was decoded, that
    -- the expiry asked for was not past, and that the service has created the link; the response
    -- is that of the link, and the state is the one that the service has left.
    pub create_link-IsMade :
        status_of (create_link lib h r w st).1 ≡ 201 → IsMade r w st (create_link lib h r w st)
    unfolding create_link
    create_link-IsMade is_201 = elim (Option-cases (lib.decode (2 ^ 20) r.body)) [
      | inl none_read ↦ absurd (
          error-ne-201 400 bad_json w fresh (λ e. omega (arith, e))
            (rw (none_read, status_of, create_link) at is_201))
      | inr (asked, read) ↦
          rw (read, create_link)
            (responded-IsMade asked read (rw (read, status_of, create_link) at is_201))
    ]

one_piece : (status : ℕ) (b : Body) → (write_json status b empty_writer).pieces ≡ b ∷ []
unfolding write_json write write_header
one_piece status b = refl

module _ {R K G : Type 0} (lib : Library) (h : Handlers R K G) {rows : R → List Link}
    {Holds : K → Text → Resolved → Type 0} (repo_laws : IsRepository h.svc.repo rows)
    (cache_laws : IsCache h.svc.cache Holds) where
  Says-302 :
      (r : Http.Request) (st : Site R K G) (s : Sent)
      → Says lib h repo_laws cache_laws r st s
      → s.status ≡ 302
      → (l : Link) × Memᴰ l (rows st.world.repo)
        × (l.short_code ≡ r.code)
        × (header_of (codes "Location") s.fields ≡ lib.location l.original_url)
  Says-302 r st s (inl (_, found)) is_302 = found
  Says-302 r st s (inr (inl (e, _))) is_302 = absurd (omega (arith, e, is_302))
  Says-302 r st s (inr (inr (inl (e, _)))) is_302 = absurd (omega (arith, e, is_302))
  Says-302 r st s (inr (inr (inr (e, _)))) is_302 = absurd (omega (arith, e, is_302))

  redirect-302 :
      (r : Http.Request) (w : Writer Body) (st : Site R K G) (l : Link) (s : Sent)
      → IsSound h.svc lib.urls repo_laws cache_laws st.world
      → Memᴰ l (rows st.world.repo)
      → r.code ≡ l.short_code
      → w.sent ≡ none
      → (redirect lib h r w st).1.sent ≡ some s
      → s.status ≡ 302
      → header_of (codes "Location") s.fields ≡ lib.location l.original_url
  redirect-302 r w st l s sound listed code fresh sent is_302 =
      elim (redirect-IsAnswered lib h repo_laws cache_laws r w st fresh sound.coherent) [
        | inr (none_sent, _) ↦ cc
        | inl (s', sent', says) ↦
            let same : s' ≡ s = cc in
            let (x, m, named, location) = Says-302 r st s (rw same at says) is_302 in
            let unique =
              listed_unique (rows st.world.repo) x l sound.distinct m listed (named ∙ code) in
            location ∙ ap (λ y. lib.location y.original_url) unique
      ]

  -- From one request to the other, in a sound state over a repository and a cache that keep
  -- their promises: after a response 201 and any further requests to the service, a redirect 302
  -- for the code in the response, to a writer that has sent nothing, leads to the URL in the
  -- response.
  pub redirect-create_link :
      (r r' : Http.Request) (w' : Writer Body) (st : Site R K G) (resp : LinkResponse)
      (qs : List Request) (s : Sent)
      → IsSound h.svc lib.urls repo_laws cache_laws st.world
      → status_of (create_link lib h r empty_writer st).1 ≡ 201
      → (create_link lib h r empty_writer st).1.pieces ≡ link_body resp ∷ []
      → r'.code ≡ resp.short_code
      → w'.sent ≡ none
      → (redirect lib h r' w' (record st {
        world = serve h.svc lib.urls qs (create_link lib h r empty_writer st).2.world;
      })).1.sent
        ≡ some s
      → s.status ≡ 302
      → header_of (codes "Location") s.fields ≡ lib.location resp.original_url
  redirect-create_link r r' w' st resp qs s sound is_201 body code fresh sent is_302 =
      let made = create_link-IsMade lib h r empty_writer st refl is_201 in
      let o = create_link lib h r empty_writer st in
      let pieces : link_body (to_response h.svc made.link) ∷ [] ≡ link_body resp ∷ [] =
        sym (
          ap (λ x. x.pieces) made.response
          ∙ one_piece 201 (link_body (to_response h.svc made.link)))
        ∙ body in
      let same : to_response h.svc made.link ≡ resp = cc pieces in
      let (sound₂, listed) =
        created-listed h.svc lib.urls repo_laws cache_laws (user_id_from r) made.asked.original_url
          made.asked.expires_at r.times.first r.times.second st.world made.link qs sound
          made.made in
      let st₂ : Site R K G = record st { world = serve h.svc lib.urls qs o.2.world } in
      let sound' : IsSound h.svc lib.urls repo_laws cache_laws st₂.world = rw made.world sound₂ in
      let listed' : Memᴰ made.link (rows st₂.world.repo) = rw made.world listed in
      let code' : r'.code ≡ made.link.short_code =
        unfold to_response in code ∙ ap (λ x. x.short_code) (sym same) in
      let url : made.link.original_url ≡ resp.original_url =
        unfold to_response in ap (λ x. x.original_url) same in
      redirect-302 r' w' st₂ made.link s sound' listed' code' fresh sent is_302
      ∙ ap lib.location url
