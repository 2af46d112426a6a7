-- ===== src/Process/Wiring.antt =====
-- cmd/link/main.go: how `run` puts the parts together, and which of them a configuration calls for.
-- In the code the publisher is an interface that is set where the producer is not nil; here it is
-- there with the builder.
pub mod Chosen
pub mod Served
mod Tests
use linkpulse_link.Base.{ℕ, Bool, true, false, Option, none, some, List}
use linkpulse_link.Base.Text.{Text, codes}
use linkpulse_link.Base.Int.{pos}
use linkpulse_link.Net.Ip.{Ip}
use linkpulse_link.Link.{Duration}
use linkpulse_link.Link.Ports.{Repository, Cache}
use linkpulse_link.Link.Service.{Service}
use linkpulse_link.Snowflake.Ids.{Ids, snowflake}
use linkpulse_link.Clicks.{Digest, Builder, noop_country}
use linkpulse_link.Clicks.Geo.{Lookup, geoip_country}
use linkpulse_link.HttpApi.{Handler}
use linkpulse_link.HttpApi.Handlers.{Library, Handlers}
use linkpulse_link.HttpApi.Middleware.{Verdict, stub_auth, bearer_auth}
use linkpulse_link.HttpApi.Router.{router}
use linkpulse_link.Process.Run.{Geo, no_database, database, App}

-- One hour.
abbrev pub cache_ttl : Duration
cache_ttl = pos 3_600_000_000_000

abbrev pub stub_user_id : Text
stub_user_id = codes "stub-user"

-- The connections, the libraries and the servers that the process talks to.
pub record Parts (R K : Type 0) : Type 0 where
  pub repo : Repository R
  pub cache : Cache K
  pub lib : Library
  pub digest : Digest
  pub reader : List ℕ → Lookup
  pub validate : Text → Verdict
  pub random : ℕ → List ℕ

module _ {R K : Type 0} (p : Parts R K) (app : App) where
  -- `link.NewService(repo, rds, ids, cfg.BaseURL, cacheTTL, log)`
  unfoldable pub service_of : Service R K Ids
  service_of = record {
    repo = p.repo;
    cache = p.cache;
    ids = snowflake;
    base_url = app.config.base_url;
    cache_ttl = cache_ttl;
  }

  abbrev pub country_of : Geo → Option Ip → Text
  country_of no_database = noop_country
  country_of database = geoip_country p.reader

  abbrev pub builder_of : Option Geo → Option Builder
  builder_of none = none
  builder_of (some geo) =
      some (record { salt = app.config.ip_hash_salt; digest = p.digest; country = country_of geo })

  -- `httpapi.NewHandlers(svc, builder, pub, log)`
  unfoldable pub handlers_of : Handlers R K Ids
  unfolding service_of
  handlers_of = record { svc = service_of; clicks = builder_of app.clicks }

  abbrev pub auth_by : Bool → Handler R K Ids → Handler R K Ids
  auth_by true = bearer_auth p.validate
  auth_by false = stub_auth stub_user_id

  -- `authMW`
  unfoldable pub auth_of : Handler R K Ids → Handler R K Ids
  auth_of = auth_by app.has_auth

  -- The handler of the server, with what the pings of the stores answer.
  unfoldable pub served : List (Text × Option Text) → Handler R K Ids
  unfolding handlers_of auth_of
  served deps = router p.lib handlers_of deps auth_of p.random
