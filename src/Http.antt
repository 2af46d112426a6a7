-- ===== src/Http.antt =====
-- Go's net/http, as far as the program uses it: a request as a handler sees it, and a response
-- writer. Bodies are kept as the values that the program encodes.
use linkpulse_link.Base.{ℕ, not, ◌&&◌, Option, none, some, List, [], ◌∷◌, ◌++◌, if◌then◌else◌, ◌==◌}
use linkpulse_link.Base.Text.{Text, text_eq}
use linkpulse_link.Net.Strings.{cut}
use linkpulse_link.Net.Ip.{has}
use linkpulse_link.Link.{Time}

-- The readings of `time.Now` while the request is served, in the order in which they are taken.
pub record Times : Type 0 where
  pub checked : Time
  pub first : Time
  pub second : Time
  pub clicked : Time

-- `header` and `query` are `Header.Get` and `URL.Query().Get`: empty where there is none. `code` is
-- `PathValue("code")`; the last two are the values that middleware has put in the context.
pub record Request : Type 0 where
  pub method : Text
  pub path : Text
  pub header : Text → Text
  pub query : Text → Text
  pub body : Text
  pub remote_addr : Text
  pub times : Times
  pub code : Text
  pub request_id : Option Text
  pub user_id : Option Text

abbrev pub value_or : Option Text → Text
value_or none = []
value_or (some v) = v

-- `RequestIDFrom` and `UserIDFrom`
abbrev pub request_id_from : Request → Text
request_id_from r = value_or r.request_id

abbrev pub user_id_from : Request → Text
user_id_from r = value_or r.user_id

abbrev pub Headers : Type 0
Headers = List (Text × Text)

-- `Header.Get` on a header that `Set` has built, the newest entry first.
unfoldable pub header_of : Text → Headers → Text
header_of name [] = []
header_of name ((n, v) ∷ hs) = if text_eq n name then v else header_of name hs

-- What has gone out, by the first `WriteHeader`.
pub record Sent : Type 0 where
  pub status : ℕ
  pub fields : Headers

-- `B` stands for pieces of a body. `recorded` is the `status` of the statusRecorder in front.
pub record Writer (B : Type 0) : Type 0 where
  pub headers : Headers
  pub sent : Option Sent
  pub pieces : List B
  pub recorded : ℕ

module _ {B : Type 0} where
  abbrev pub empty_writer : Writer B
  empty_writer = record { headers = []; sent = none; pieces = []; recorded = 0 }

  -- `w.Header().Set(name, value)`
  abbrev pub set_header : Text → Text → Writer B → Writer B
  set_header name value w = record w { headers = (name, value) ∷ w.headers }

  -- A second `WriteHeader` is ignored.
  unfoldable pub send : ℕ → Writer B → Option Sent → Option Sent
  send code w none = some (record { status = code; fields = w.headers })
  send code w (some s) = some s

  -- `WriteHeader`, through the recorder.
  unfoldable pub write_header : ℕ → Writer B → Writer B
  unfolding send
  write_header code w = record w { sent = send code w w.sent; recorded = code }

  -- `Write`: status 200 if none has been sent.
  unfoldable pub write : B → Writer B → Writer B
  unfolding send
  write b w = record w { sent = send 200 w w.sent; pieces = w.pieces ++ b ∷ [] }

  -- The status that the client sees once the handler has returned.
  abbrev pub status_of : Writer B → ℕ
  status_of w = elim w.sent [ none ↦ 200 | some s ↦ s.status ]

-- How a handler ends: it returns, it panics, or it has not returned.
pub data Flow : Type 0 where
  returns panics blocks : Flow

-- The host of net.SplitHostPort; `none` is the error.
unfoldable pub bracketed_host : Text → Option Text
unfolding cut
bracketed_host rest =
    let (inside, behind, closed) = cut b']' rest in
    elim behind [
      | [] ↦ none
      | c ∷ port ↦
          if closed
            && c == b':'
            && not (has b':' port)
            && not (has b'[' rest)
            && not (has b']' (c ∷ port))
          then some inside
          else none
    ]

unfoldable pub plain_host : Text → Option Text
unfolding cut
plain_host s =
    let (host, port, found) = cut b':' s in
    if found && not (has b':' port) && not (has b'[' s) && not (has b']' s) then some host else none

unfoldable pub split_host : Text → Option Text
unfolding bracketed_host plain_host
split_host [] = none
split_host (c ∷ s) = if c == b'[' then bracketed_host s else plain_host (c ∷ s)
