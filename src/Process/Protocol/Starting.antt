-- ===== src/Process/Protocol/Starting.antt =====
-- The start of the process follows the protocol, each part of it in turn.
use linkpulse_link.Base.{Bool, true, false, Option, none, some, List, [], ◌∷◌, if◌then◌else◌}
use linkpulse_link.Base.Text.{Text}
use linkpulse_link.Base.Int.{ℤ, pos_part}
use linkpulse_link.Net.Strings.{is_empty}
use linkpulse_link.Link.{Duration}
use linkpulse_link.Snowflake.{Generator, new}
use linkpulse_link.Config.{Config, Env, Loaded, loaded, refused, load}
use linkpulse_link.Process.{
  Resource, pool, redis_client, geoip_reader, auth_client, opens, closes, producer_opens,
  producer_closes, Failure, Outside, Frame, ◌>>◌, pure, step, defer, bad_dsn, no_pool,
  postgres_silent, redis_silent, no_kafka_client, kafka_silent, no_geoip, no_auth_client,
}
use linkpulse_link.Process.Open.{
  ping, new_postgres, new_redis, new_producer, new_geoip, new_auth_client,
}
use linkpulse_link.Process.Run.{
  app_of, no_database, database, configured, generator, geo_for, clicks_for, auth_for, connect,
  start,
}
use linkpulse_link.Process.Reasoning.{next, left, bind-keeps, pure-keeps, check-keeps}
use linkpulse_link.Process.Protocol.{
  starting, closing, failed_start, torn_down, Follows, opened, producer_opened, producer_dropped,
  closed, At, Leavable, Obeys,
}

-- A frame in which a resource is open whose Close is not deferred yet.
abbrev Undeferred : Resource → Frame → Type 0
Undeferred r f = Follows f.steps starting (r ∷ f.defers)

defer-keeps : (r : Resource) → Obeys (Undeferred r) (defer r) (At starting)
defer-keeps r f h = next h

start-Leavable : (f : Frame) → At starting f → Leavable f
start-Leavable f h = (starting, failed_start, h)

ping-keeps :
    (b : Bool) (r : Resource) (e : Failure)
    → Obeys (Undeferred r) (ping b (closes r) e) (Undeferred r)
ping-keeps true r e f h = next h
ping-keeps false r e f h = left (closing, torn_down, closed failed_start h)

producer_ping-keeps :
    (b : Bool) (e : Failure) → Obeys (At starting) (ping b producer_closes e) (At starting)
producer_ping-keeps true e f h = next h
producer_ping-keeps false e f h = left (closing, torn_down, producer_dropped h)

open-keeps : (r : Resource) → Obeys (At starting) (step (opens r)) (Undeferred r)
open-keeps r f h = next (opened r h)

producer_open-keeps : Obeys (At starting) (step producer_opens) (At starting)
producer_open-keeps f h = next (producer_opened h)

configured-keeps : (l : Loaded) → Obeys (At starting) (configured l) (At starting)
configured-keeps (loaded cfg) f h = next h
configured-keeps (refused problems) f h = left (start-Leavable f h)

generator-keeps : (g : Option Generator) → Obeys (At starting) (generator g) (At starting)
generator-keeps (some g) f h = next h
generator-keeps none f h = left (start-Leavable f h)

module _ (o : Outside) where
  new_postgres-keeps : (dsn : Text) → Obeys (At starting) (new_postgres o dsn) (Undeferred pool)
  unfolding new_postgres
  new_postgres-keeps dsn =
      bind-keeps _ _ (check-keeps (o.parses_dsn dsn) bad_dsn start-Leavable) λ _.
        bind-keeps _ _ (check-keeps (o.opens_pool dsn) no_pool start-Leavable) λ _.
          bind-keeps _ _ (open-keeps pool)
            λ _. ping-keeps (o.pings_postgres dsn) pool postgres_silent

  new_redis-keeps :
      (addr password : Text) (db : ℤ)
      → Obeys (At starting) (new_redis o addr password db) (Undeferred redis_client)
  unfolding new_redis
  new_redis-keeps addr password db =
      bind-keeps _ _ (open-keeps redis_client)
        λ _. ping-keeps (o.pings_redis addr password db) redis_client redis_silent

  new_producer-keeps :
      (brokers : List Text) (topic : Text)
      → Obeys (At starting) (new_producer o brokers topic) (At starting)
  unfolding new_producer
  new_producer-keeps brokers topic =
      bind-keeps _ _
        (check-keeps (o.makes_kafka_client brokers topic) no_kafka_client start-Leavable)
        λ _.
          bind-keeps _ _ producer_open-keeps
            λ _. producer_ping-keeps (o.pings_kafka brokers topic) kafka_silent

  new_geoip-keeps : (path : Text) → Obeys (At starting) (new_geoip o path) (Undeferred geoip_reader)
  unfolding new_geoip
  new_geoip-keeps path =
      bind-keeps _ _ (check-keeps (o.opens_geoip path) no_geoip start-Leavable)
        λ _. open-keeps geoip_reader

  new_auth_client-keeps :
      (addr : Text) → Obeys (At starting) (new_auth_client o addr) (Undeferred auth_client)
  unfolding new_auth_client
  new_auth_client-keeps addr =
      bind-keeps _ _ (check-keeps (o.makes_auth_client addr) no_auth_client start-Leavable)
        λ _. open-keeps auth_client

  geo_by-keeps :
      (path : Text) (b : Bool)
      → Obeys
          (At starting)
          (if b then pure no_database else do new_geoip o path; defer geoip_reader; pure database)
          (At starting)
  geo_by-keeps path true = pure-keeps no_database
  geo_by-keeps path false =
      bind-keeps _ _ (new_geoip-keeps path)
        λ _. bind-keeps _ _ (defer-keeps geoip_reader) λ _. pure-keeps database

  geo_for-keeps : (cfg : Config) → Obeys (At starting) (geo_for o cfg) (At starting)
  unfolding geo_for
  geo_for-keeps cfg = geo_by-keeps cfg.geoip_db_path (is_empty cfg.geoip_db_path)

  clicks_for-keeps :
      (cfg : Config) (brokers : List Text)
      → Obeys (At starting) (clicks_for o cfg brokers) (At starting)
  unfolding clicks_for
  clicks_for-keeps cfg [] = pure-keeps none
  clicks_for-keeps cfg (broker ∷ brokers) =
      bind-keeps _ _ (new_producer-keeps (broker ∷ brokers) cfg.kafka_topic)
        λ _. bind-keeps _ _ (geo_for-keeps cfg) λ geo. pure-keeps (some geo)

  auth_by-keeps :
      (addr : Text) (b : Bool)
      → Obeys
          (At starting)
          (if b then pure false else do new_auth_client o addr; defer auth_client; pure true)
          (At starting)
  auth_by-keeps addr true = pure-keeps false
  auth_by-keeps addr false =
      bind-keeps _ _ (new_auth_client-keeps addr)
        λ _. bind-keeps _ _ (defer-keeps auth_client) λ _. pure-keeps true

  auth_for-keeps : (cfg : Config) → Obeys (At starting) (auth_for o cfg) (At starting)
  unfolding auth_for
  auth_for-keeps cfg = auth_by-keeps cfg.auth_addr (is_empty cfg.auth_addr)

  connect-keeps :
      (cfg : Config) (made : Option Generator)
      → Obeys (At starting) (connect o cfg made) (At starting)
  unfolding connect
  connect-keeps cfg made = bind-keeps _ _ (new_postgres-keeps cfg.postgres_dsn) λ _.
      bind-keeps _ _ (defer-keeps pool) λ _.
        bind-keeps _ _ (new_redis-keeps cfg.redis_addr cfg.redis_password cfg.redis_db) λ _.
          bind-keeps _ _ (defer-keeps redis_client) λ _.
            bind-keeps _ _ (generator-keeps made) λ ids.
              bind-keeps _ _ (clicks_for-keeps cfg cfg.kafka_brokers) λ clicks.
                bind-keeps _ _ (auth_for-keeps cfg)
                  λ has_auth. pure-keeps (app_of cfg ids clicks has_auth)

  pub start-keeps :
      (parse : Text → Option Duration) (env : Env)
      → Obeys (At starting) (start o parse env) (At starting)
  unfolding start
  start-keeps parse env =
      bind-keeps _ _ (configured-keeps (load parse env))
        λ cfg. connect-keeps cfg (new (pos_part cfg.worker_id))
