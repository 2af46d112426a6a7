-- ===== src/Process/Wiring/Tests.antt =====
-- The process with an Auth service, over the stores in memory.
use linkpulse_link.Base.{◌≡◌, ◌≢◌, refl, sym, ◌∙◌, true, Option, none, some, [], ◌∷◌, if◌then◌else◌}
use linkpulse_link.Base.Text.{Text, codes, text_eq}
use linkpulse_link.Base.Int.{pos}
use linkpulse_link.Http.{Request, empty_writer}
use linkpulse_link.Link.{Duration}
use linkpulse_link.Link.Service.Sample.{plain, service, start}
use linkpulse_link.Repository.Memory.{Db}
use linkpulse_link.Cache.Memory.{Store}
use linkpulse_link.Snowflake.Ids.{Ids}
use linkpulse_link.Clicks.Geo.{no_record}
use linkpulse_link.Config.{Config, Env, candidate, load}
use linkpulse_link.HttpApi.{Site}
use linkpulse_link.HttpApi.Middleware.{invalid_token}
use linkpulse_link.HttpApi.Router.{mux}
use linkpulse_link.HttpApi.Authorized.{IsGuarded}
use linkpulse_link.Process.{Outside, goes_on, serves_on}
use linkpulse_link.Process.Run.{Geo, no_database, App, fresh_frame}
use linkpulse_link.Process.Wiring.{Parts, handlers_of, auth_of}
use linkpulse_link.Process.Wiring.Served.{served-IsGuarded}

abbrev unread : Text → Option Duration
unread v = none

abbrev guarded : Env
guarded key =
    if text_eq key (codes "POSTGRES_DSN")
    then some (codes "dsn")
    else if text_eq key (codes "AUTH_ADDR")
    then some (codes "auth:1")
    else none

abbrev up : Outside
up = record {
  parses_dsn = λ dsn. true;
  opens_pool = λ dsn. true;
  pings_postgres = λ dsn. true;
  pings_redis = λ addr password db. true;
  makes_kafka_client = λ brokers topic. true;
  pings_kafka = λ brokers topic. true;
  opens_geoip = λ path. true;
  makes_auth_client = λ addr. true;
  ending = serves_on;
}

abbrev app : App
app = record {
  config = candidate unread guarded;
  ids = record { worker_id = 0; last_ms = 0; sequence = 0 };
  clicks = some no_database;
  has_auth = true;
}

started : (linkpulse_link.Process.Run.start up unread guarded fresh_frame).0 ≡ goes_on app
unfolding linkpulse_link.Process.Run.start load text_eq linkpulse_link.Strconv.atoi
    linkpulse_link.Config.getenv linkpulse_link.Snowflake.new linkpulse_link.Config.split_non_empty
    linkpulse_link.Net.Strings.split_seq linkpulse_link.Config.get_env
    linkpulse_link.Net.Strings.trim_space linkpulse_link.Process.Run.geo_for
    linkpulse_link.Process.Run.auth_for
started = refl

-- No token is good.
abbrev parts : Parts Db Store
parts = record {
  repo = service.repo;
  cache = service.cache;
  lib = record { urls = plain; decode = λ limit body. none; location = λ url. url };
  digest = record { sha256_hex = λ t. t; ip_string = λ ip. ip };
  reader = λ addr. no_record;
  validate = λ token. invalid_token;
  random = λ n. n ∷ [];
}

abbrev site : Site Db Store Ids
site = record { world = start; published = []; log = []; drawn = 0 }

abbrev listing : Request
listing = record {
  method = codes "GET";
  path = codes "/api/v1/links";
  header = λ name. if text_eq name (codes "Authorization") then codes "Bearer t" else [];
  query = λ name. [];
  body = [];
  remote_addr = codes "10.1.2.3:4711";
  times = record { checked = pos 4; first = pos 5; second = pos 6; clicked = pos 7 };
  code = [];
  request_id = none;
  user_id = none;
}

addressed : app.config.auth_addr ≡ codes "auth:1"
unfolding candidate linkpulse_link.Config.getenv text_eq
addressed = refl

named : app.config.auth_addr ≢ []
named e = cc (sym addressed ∙ e)

served-IsGuarded_example :
    IsGuarded parts.lib
      (handlers_of parts app)
      []
      parts.validate
      listing
      empty_writer
      site
      (mux parts.lib (handlers_of parts app) [] (auth_of parts app) listing empty_writer site)
served-IsGuarded_example =
    served-IsGuarded parts app [] up unread guarded fresh_frame listing empty_writer site started
      named refl refl
