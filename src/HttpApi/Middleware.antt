-- ===== src/HttpApi/Middleware.antt =====
-- internal/httpapi/middleware.go: what is put around a handler.
use linkpulse_link.Base.{
  ℕ, suc, ◌+◌, ◌-◌, ◌/◌, ◌%◌, Option, none, some, List, [], ◌∷◌, if◌then◌else◌, ltb, ◌==◌,
}
use linkpulse_link.Base.Text.{Text, codes}
use linkpulse_link.Net.Strings.{is_empty}
use linkpulse_link.Http.{Request, request_id_from, set_header, returns, panics, blocks}
use linkpulse_link.HttpApi.{
  internal_error, no_bearer, auth_unavailable, bad_token, request_done, panic_caught, auth_failed,
  Outcome, Handler, logged, write_error,
}

abbrev pub request_id_header : Text
request_id_header = codes "X-Request-Id"

abbrev hex_digit : ℕ → ℕ
hex_digit n = if ltb n 10 then b'0' + n else b'a' + n - 10

-- `hex.EncodeToString`
unfoldable pub encode_hex : List ℕ → Text
encode_hex [] = []
encode_hex (b ∷ bs) = hex_digit (b / 16) ∷ hex_digit (b % 16) ∷ encode_hex bs

-- `strings.CutPrefix`; `none` where the prefix is missing.
unfoldable pub cut_prefix : Text → Text → Option Text
cut_prefix s [] = some s
cut_prefix [] (p ∷ ps) = none
cut_prefix (c ∷ s) (p ∷ ps) = let rest = cut_prefix s ps in if c == p then rest else none

-- What `TokenValidator.Validate` returns: the user, an invalid token, or the error.
pub data Verdict : Type 0 where
  valid_user : Text → Verdict
  invalid_token unavailable : Verdict

module _ {R K G : Type 0} where
  -- `RequestID`; `random` is the source of randomness, eight bytes for each draw.
  unfoldable pub request_id : (ℕ → List ℕ) → Handler R K G → Handler R K G
  unfolding encode_hex
  request_id random next r w st =
      let given = r.header request_id_header in
      let made = encode_hex (random st.drawn) in
      if is_empty given
      then next (record r { request_id = some made }) (set_header request_id_header made w)
          (record st { drawn = suc st.drawn })
      else next (record r { request_id = some given }) (set_header request_id_header given w) st

  -- The end of `Logging`: behind a panic or in a call that has not returned there is no record.
  abbrev pub after_next : Request → Outcome R K G → Outcome R K G
  after_next r (returns, w, st) =
      (returns, w, logged (request_done r.method r.path w.recorded (request_id_from r)) st)
  after_next r (panics, w, st) = (panics, w, st)
  after_next r (blocks, w, st) = (blocks, w, st)

  -- `Logging`
  unfoldable pub logging : Handler R K G → Handler R K G
  logging next r w st = after_next r (next r (record w { recorded = 200 }) st)

  abbrev pub rescue : Request → Outcome R K G → Outcome R K G
  rescue r (panics, w, st) = (
    returns,
    write_error 500 internal_error w,
    logged (panic_caught r.path (request_id_from r)) st,
  )
  rescue r (returns, w, st) = (returns, w, st)
  rescue r (blocks, w, st) = (blocks, w, st)

  -- `Recover`
  unfoldable pub recover : Handler R K G → Handler R K G
  recover next r w st = rescue r (next r w st)

  -- `StubAuth`
  unfoldable pub stub_auth : Text → Handler R K G → Handler R K G
  stub_auth user next r w st = next (record r { user_id = some user }) w st

  abbrev pub judged : Verdict → Handler R K G → Handler R K G
  judged (valid_user user) next r w st = next (record r { user_id = some user }) w st
  judged invalid_token next r w st = (returns, write_error 401 bad_token w, st)
  judged unavailable next r w st =
      (returns, write_error 503 auth_unavailable w, logged (auth_failed (request_id_from r)) st)

  -- `token, ok := CutPrefix(…)`, and `!ok || token == ""`
  abbrev pub bearer_checked : (Text → Verdict) → Option Text → Handler R K G → Handler R K G
  bearer_checked validate none next r w st = (returns, write_error 401 no_bearer w, st)
  bearer_checked validate (some []) next r w st = (returns, write_error 401 no_bearer w, st)
  bearer_checked validate (some (c ∷ token)) next r w st = judged (validate (c ∷ token)) next r w st

  -- `BearerAuth`; `validate` is what the validator answers while the request is served.
  unfoldable pub bearer_auth : (Text → Verdict) → Handler R K G → Handler R K G
  bearer_auth validate next r w st =
      bearer_checked validate (cut_prefix (r.header (codes "Authorization")) (codes "Bearer ")) next
        r w st
