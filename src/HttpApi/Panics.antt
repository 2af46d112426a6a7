-- ===== src/HttpApi/Panics.antt =====
-- What the middleware makes of a panic, and what it logs.
use linkpulse_link.Base.{
  if◌then◌else◌, ℕ, suc, ◌≡◌, ◌≢◌, inl, inr, refl, ap, ◌∙◌, some, List, Bool-cases,
}
use linkpulse_link.Base.Text.{Text}
use linkpulse_link.Net.Strings.{is_empty}
use linkpulse_link.Http.{Request, Writer, set_header, returns, panics, blocks}
use linkpulse_link.HttpApi.{Body, request_done, Site, Outcome, Handler, logged}
use linkpulse_link.HttpApi.Middleware.{
  request_id_header, encode_hex, request_id, after_next, logging, rescue, recover,
}

module _ {R K G : Type 0} where
  rescue-ne-panics : (r : Request) (o : Outcome R K G) → (rescue r o).0 ≢ panics
  rescue-ne-panics r (returns, w, st) = λ e. cc
  rescue-ne-panics r (panics, w, st) = λ e. cc
  rescue-ne-panics r (blocks, w, st) = λ e. cc

  -- No panic gets past `Recover`, whatever the handler behind it does.
  pub recover-ne-panics :
      (next : Handler R K G) (r : Request) (w : Writer Body) (st : Site R K G)
      → (recover next r w st).0 ≢ panics
  unfolding recover
  recover-ne-panics next r w st = rescue-ne-panics r (next r w st)

  -- The middleware of `NewRouter` around a handler.
  abbrev pub stack : (ℕ → List ℕ) → Handler R K G → Handler R K G
  stack random next = recover (request_id random (logging next))

  -- What the handler behind `RequestID` and `Logging` gets.
  abbrev pub id_of : (ℕ → List ℕ) → Request → Site R K G → Text
  id_of random r st =
      if is_empty (r.header request_id_header)
      then encode_hex (random st.drawn)
      else r.header request_id_header

  abbrev pub inner : (ℕ → List ℕ) → Handler R K G → Handler R K G
  inner random next r w st =
      next (record r { request_id = some (id_of random r st) })
        (record (set_header request_id_header (id_of random r st) w) { recorded = 200 })
        (record st {
          drawn = if is_empty (r.header request_id_header) then suc st.drawn else st.drawn;
        })

  pub stack-inner :
      (random : ℕ → List ℕ) (next : Handler R K G) (r : Request) (w : Writer Body) (st : Site R K G)
      → stack random next r w st
        ≡ rescue r (
            after_next
              (record r { request_id = some (id_of random r st) })
              (inner random next r w st))
  unfolding recover request_id logging
  stack-inner random next r w st = elim (Bool-cases (is_empty (r.header request_id_header))) [
    | inl none_given ↦ rw none_given refl
    | inr given ↦ rw given refl
  ]

  -- A handler that returns leaves one record, with the status that the recorder has seen and the
  -- request ID that the handler got: that of the client, or a drawn one.
  pub stack-returns :
      (random : ℕ → List ℕ) (next : Handler R K G) (r : Request) (w w' : Writer Body)
      (st st' : Site R K G)
      → inner random next r w st ≡ (returns, w', st')
      → stack random next r w st
        ≡ (returns, w', logged (request_done r.method r.path w'.recorded (id_of random r st)) st')
  stack-returns random next r w w' st st' e =
      stack-inner random next r w st
      ∙ ap (λ o. rescue r (after_next (record r { request_id = some (id_of random r st) }) o)) e
