-- ===== src/HttpApi/Authorized.antt =====
-- What requests without a valid token can do.
use linkpulse_link.Base.{
  ℕ, ◌≡◌, ◌≢◌, ◌⊎◌, inl, inr, refl, true, Option, none, some, List, [], ◌∷◌, Bool-cases,
}
use linkpulse_link.Base.Text.{Text, codes, text_eq, text_eq_of_eq}
use linkpulse_link.Http.{Request, Writer, status_of, write_header, returns}
use linkpulse_link.HttpApi.{
  Message, Body, Site, Outcome, Handler, write_error, bad_token, no_bearer, auth_unavailable,
}
use linkpulse_link.HttpApi.Handlers.{Library, Handlers, create_link, list_links}
use linkpulse_link.HttpApi.Middleware.{
  Verdict, valid_user, invalid_token, unavailable, cut_prefix, judged, bearer_checked, bearer_auth,
}
use linkpulse_link.HttpApi.Router.{route, is_get, serve_route, mux}
use linkpulse_link.HttpApi.Statuses.{write_error-sent}

-- The user that the request is made for: its token is there, is not empty, and the validator vouches
-- for it.
abbrev pub IsUser : (Text → Verdict) → Request → Text → Type 0
IsUser validate r user =
    (token : Text) × (cut_prefix (r.header (codes "Authorization")) (codes "Bearer ") ≡ some token)
    × (token ≢ [])
    × (validate token ≡ valid_user user)

pub write_error-status :
    (status : ℕ) (msg : Message) (w : Writer Body)
    → w.sent ≡ none
    → status_of (write_error status msg w) ≡ status
write_error-status status msg w fresh = rw (write_error-sent status msg w fresh)

module _ {R K G : Type 0} where
  -- The handler behind has not been called: a refusal, and nothing but a record in the log.
  abbrev pub IsRefused : Site R K G → Outcome R K G → Type 0
  IsRefused st o =
      (o.0 ≡ returns)
      × ((status_of o.1 ≡ 401) ⊎ (status_of o.1 ≡ 503))
      × (o.2.world ≡ st.world)
      × (o.2.published ≡ st.published)

  judged-cases :
      (v : Verdict) (next : Handler R K G) (r : Request) (w : Writer Body) (st : Site R K G)
      → w.sent ≡ none
      → ((user : Text) × (v ≡ valid_user user)
          × (judged v next r w st ≡ next (record r { user_id = some user }) w st))
        ⊎ IsRefused st (judged v next r w st)
  judged-cases (valid_user user) next r w st fresh = inl (user, refl, refl)
  judged-cases invalid_token next r w st fresh =
      inr (refl, inl (write_error-status 401 bad_token w fresh), refl, refl)
  judged-cases unavailable next r w st fresh =
      inr (refl, inr (write_error-status 503 auth_unavailable w fresh), refl, refl)

  checked-cases :
      (validate : Text → Verdict) (given : Option Text) (next : Handler R K G) (r : Request)
      (w : Writer Body) (st : Site R K G)
      → w.sent ≡ none
      → ((user token : Text) × (given ≡ some token)
          × (token ≢ [])
          × (validate token ≡ valid_user user)
          × (bearer_checked validate given next r w st
              ≡ next (record r { user_id = some user }) w st))
        ⊎ IsRefused st (bearer_checked validate given next r w st)
  checked-cases validate none next r w st fresh =
      inr (refl, inl (write_error-status 401 no_bearer w fresh), refl, refl)
  checked-cases validate (some []) next r w st fresh =
      inr (refl, inl (write_error-status 401 no_bearer w fresh), refl, refl)
  checked-cases validate (some (c ∷ token)) next r w st fresh =
      elim (judged-cases (validate (c ∷ token)) next r w st fresh) [
        | inl (user, valid, same) ↦ inl (user, c ∷ token, refl, (λ e. cc), valid, same)
        | inr refusal ↦ inr refusal
      ]

  -- `BearerAuth` either calls the handler for a user for whom the validator vouches by the token of
  -- the request, or answers 401 or 503 without calling it.
  pub bearer_auth-cases :
      (validate : Text → Verdict) (next : Handler R K G) (r : Request) (w : Writer Body)
      (st : Site R K G)
      → w.sent ≡ none
      → ((user : Text) × IsUser validate r user
          × (bearer_auth validate next r w st ≡ next (record r { user_id = some user }) w st))
        ⊎ IsRefused st (bearer_auth validate next r w st)
  unfolding bearer_auth
  bearer_auth-cases validate next r w st fresh =
      elim (checked-cases validate (cut_prefix (r.header (codes "Authorization")) (codes "Bearer "))
        next r w st fresh) [
          | inl (user, token, given, there, valid, same) ↦
              inl (user, (token, given, there, valid), same)
          | inr refusal ↦ inr refusal
        ]

module _ {R K G : Type 0} (lib : Library) (h : Handlers R K G) (deps : List (Text × Option Text))
    (validate : Text → Verdict) where
  -- What may happen on the path of the API: a refusal, 405, or a handler called for a user.
  abbrev pub IsGuarded : Request → Writer Body → Site R K G → Outcome R K G → Type 0
  IsGuarded r w st o =
      IsRefused st o
      ⊎ (o ≡ (returns, write_header 405 w, st))
      ⊎ ((user : Text) × IsUser validate r user
          × ((o ≡ create_link lib h (record r { user_id = some user }) w st)
              ⊎ (o ≡ list_links lib h (record r { user_id = some user }) w st)))

  -- For a request to the path of the API to which nothing has been sent, no handler is reached
  -- but for a user for whom the validator vouches by the token of the request. Any other request
  -- gets 401, 503 or 405, and changes nothing of the service.
  pub mux-IsGuarded :
      (r : Request) (w : Writer Body) (st : Site R K G)
      → w.sent ≡ none
      → r.path ≡ codes "/api/v1/links"
      → IsGuarded r w st (mux lib h deps (bearer_auth validate) r w st)
  unfolding mux serve_route route
  mux-IsGuarded r w st fresh at_api =
      let here : text_eq r.path (codes "/api/v1/links") ≡ true = text_eq_of_eq r.path _ at_api in
      elim (Bool-cases (text_eq r.method (codes "POST"))) [
        | inl post ↦
            rw (here, post)
              (elim (bearer_auth-cases validate (create_link lib h) r w st fresh) [
                | inl (user, vouched, same) ↦ inr (inr (user, vouched, inl same))
                | inr refusal ↦ inl refusal
              ])
        | inr other ↦ elim (Bool-cases (is_get r.method)) [
          | inl get ↦
              rw (here, other, get)
                (elim (bearer_auth-cases validate (list_links lib h) r w st fresh) [
                  | inl (user, vouched, same) ↦ inr (inr (user, vouched, inr same))
                  | inr refusal ↦ inl refusal
                ])
          | inr none_of ↦ rw (here, other, none_of) (inr (inl refl))
        ]
      ]
