-- ===== src/Process/Run.antt =====
-- `run` of cmd/link/main.go.
use linkpulse_link.Base.{Bool, true, false, Option, none, some, List, [], ◌∷◌, if◌then◌else◌}
use linkpulse_link.Base.Text.{Text}
use linkpulse_link.Base.Int.{pos_part}
use linkpulse_link.Net.Strings.{is_empty}
use linkpulse_link.Link.{Duration}
use linkpulse_link.Snowflake.{Generator, new}
use linkpulse_link.Config.{Config, Env, Loaded, loaded, refused, load}
use linkpulse_link.Process.{
  Resource, pool, redis_client, geoip_reader, auth_client, Step, closes, serves, server_fails,
  shuts_down, overruns, Failure, bad_config, bad_worker, server_error, shutdown_error, Ending,
  serves_on, fails_itself, stopped_in_time, stopped_late, Outside, Frame, Exit, goes_on, returns,
  waits, Body, ◌>>=◌, ◌>>◌, pure, return, step, defer,
}
use linkpulse_link.Process.Open.{
  new_postgres, new_redis, new_producer, new_geoip, new_auth_client, close_producer,
}

-- Where the country of a click comes from.
pub data Geo : Type 0 where
  no_database database : Geo

-- What `run` has made when it starts to serve, besides the connections. `clicks` is there where
-- the producer and the builder are, and says where the builder gets its countries.
pub record App : Type 0 where
  pub config : Config
  pub ids : Generator
  pub clicks : Option Geo
  pub has_auth : Bool

abbrev pub configured : Loaded → Body Config
configured (loaded cfg) = pure cfg
configured (refused problems) = return (some (bad_config problems))

abbrev pub app_of : Config → Generator → Option Geo → Bool → App
app_of cfg ids clicks has_auth = record {
  config = cfg;
  ids = ids;
  clicks = clicks;
  has_auth = has_auth;
}

-- `snowflake.New`; its error is the only one that is not about a connection.
abbrev pub generator : Option Generator → Body Generator
generator (some g) = pure g
generator none = return (some bad_worker)

module _ (o : Outside) where
  -- The geo base, where there is one.
  unfoldable pub geo_for : Config → Body Geo
  unfolding new_geoip
  geo_for cfg =
      if is_empty cfg.geoip_db_path
      then pure no_database
      else do new_geoip o cfg.geoip_db_path; defer geoip_reader; pure database

  -- The publishing of clicks, where there are brokers. Nothing defers a Close of the producer.
  unfoldable pub clicks_for : Config → List Text → Body (Option Geo)
  unfolding new_producer
  clicks_for cfg [] = pure none
  clicks_for cfg (broker ∷ brokers) = do
    new_producer o (broker ∷ brokers) cfg.kafka_topic
    geo ← geo_for cfg
    pure (some geo)

  -- Whether the tokens are validated by the Auth service.
  unfoldable pub auth_for : Config → Body Bool
  unfolding new_auth_client
  auth_for cfg =
      if is_empty cfg.auth_addr
      then pure false
      else do new_auth_client o cfg.auth_addr; defer auth_client; pure true

  -- `run` behind the configuration, with what `snowflake.New` returns.
  unfoldable pub connect : Config → Option Generator → Body App
  unfolding new_postgres new_redis clicks_for auth_for
  connect cfg made = do
    new_postgres o cfg.postgres_dsn
    defer pool
    new_redis o cfg.redis_addr cfg.redis_password cfg.redis_db
    defer redis_client
    ids ← generator made
    clicks ← clicks_for cfg cfg.kafka_brokers
    has_auth ← auth_for cfg
    pure (app_of cfg ids clicks has_auth)

  -- `run` up to the start of the server.
  unfoldable pub start : (Text → Option Duration) → Env → Body App
  unfolding connect
  start parse env = do cfg ← configured (load parse env); connect cfg (new (pos_part cfg.worker_id))

-- `flushProducer`
unfoldable pub flush_producer : Option Geo → Body (Unit {0})
unfolding close_producer
flush_producer none = pure tt
flush_producer (some geo) = close_producer

-- The `select`. An overrun returns before the producer is flushed.
unfoldable pub await_end : Option Geo → Ending → Body (Option Failure)
unfolding flush_producer
await_end clicks serves_on f = (waits, f)
await_end clicks fails_itself f =
    (do step server_fails; flush_producer clicks; return (some server_error)) f
await_end clicks stopped_in_time f = (do step shuts_down; flush_producer clicks; return none) f
await_end clicks stopped_late f = (do step overruns; return (some shutdown_error)) f

-- The deferred calls, the last one first.
unfoldable pub close_all : List Resource → List Step → List Step
close_all [] steps = steps
close_all (r ∷ rs) steps = close_all rs (closes r ∷ steps)

-- What `run` returns, with its trace, or the trace of a process that serves on.
pub data Ended : Type 0 where
  ended : Option Failure → List Step → Ended
  serving : List Step → Ended

unfoldable pub leave : Exit (Option Failure) → Frame → Ended
unfolding close_all
leave (goes_on e) f = ended e (close_all f.defers f.steps)
leave (returns e) f = ended e (close_all f.defers f.steps)
leave waits f = serving f.steps

abbrev pub fresh_frame : Frame
fresh_frame = record { steps = []; defers = [] }

module _ (o : Outside) (parse : Text → Option Duration) (env : Env) where
  unfoldable pub whole : Body (Option Failure)
  unfolding start await_end
  whole = do app ← start o parse env; step serves; await_end app.clicks o.ending

  -- `run`
  unfoldable pub run : Ended
  unfolding leave whole
  run = leave (whole fresh_frame).0 (whole fresh_frame).1
