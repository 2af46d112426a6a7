-- ===== src/Process/Wiring/Served.antt =====
-- What a configuration means for the requests that the process serves.
use mathlib.Core.Path.{subst}
use linkpulse_link.Base.{◌≡◌, ◌≢◌, sym, true, Option, none, List, []}
use linkpulse_link.Base.Text.{Text, codes}
use linkpulse_link.Link.{Duration}
use linkpulse_link.Http.{Request, Writer}
use linkpulse_link.Snowflake.Ids.{Ids}
use linkpulse_link.Config.{Env}
use linkpulse_link.HttpApi.{Body, Site}
use linkpulse_link.HttpApi.Router.{mux}
use linkpulse_link.HttpApi.Authorized.{IsGuarded, mux-IsGuarded}
use linkpulse_link.Process.{Outside, Frame, goes_on}
use linkpulse_link.Process.Run.{App, start}
use linkpulse_link.Process.Wiring.{Parts, handlers_of, auth_by, auth_of}
use linkpulse_link.Process.Wiring.Chosen.{start-IsWired}

module _ {R K : Type 0} (p : Parts R K) (app : App) (deps : List (Text × Option Text)) where
  IsGuarded-mux :
      (r : Request) (w : Writer Body) (st : Site R K Ids)
      → app.has_auth ≡ true
      → w.sent ≡ none
      → r.path ≡ codes "/api/v1/links"
      → IsGuarded p.lib
          (handlers_of p app)
          deps
          p.validate
          r
          w
          st
          (mux p.lib (handlers_of p app) deps (auth_of p app) r w st)
  unfolding auth_of
  IsGuarded-mux r w st has fresh at_api =
      subst
        (λ b.
          IsGuarded p.lib (handlers_of p app) deps p.validate r w st
            (mux p.lib (handlers_of p app) deps (auth_by p app b) r w st))
        (sym has) (mux-IsGuarded p.lib (handlers_of p app) deps p.validate r w st fresh at_api)

  -- In a process whose start goes on and whose configuration names an Auth service, a request to the
  -- path of the API to which nothing has been sent reaches a handler only for a user for whom
  -- the service vouches by the token of the request. Any other gets 401, 503 or 405, and changes
  -- nothing of the service: the stub that lets everybody in is not there.
  pub served-IsGuarded :
      (o : Outside) (parse : Text → Option Duration) (env : Env) (f : Frame) (r : Request)
      (w : Writer Body) (st : Site R K Ids)
      → (start o parse env f).0 ≡ goes_on app
      → app.config.auth_addr ≢ []
      → w.sent ≡ none
      → r.path ≡ codes "/api/v1/links"
      → IsGuarded p.lib
          (handlers_of p app)
          deps
          p.validate
          r
          w
          st
          (mux p.lib (handlers_of p app) deps (auth_of p app) r w st)
  served-IsGuarded o parse env f r w st started named fresh at_api =
      let (cfg, _, wired) = start-IsWired o parse env f app started in
      IsGuarded-mux r w st (wired.auth.1 λ e. named (rw wired.config e)) fresh at_api
