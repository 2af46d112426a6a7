-- ===== src/Process/Serving/Blame.antt =====
-- What stops a start is an error: no early return of `run` is nil.
use linkpulse_link.Base.{◌≢◌, refl, Bool, true, false, none, some, List, [], ◌∷◌, if◌then◌else◌}
use linkpulse_link.Base.Text.{Text}
use linkpulse_link.Net.Strings.{is_empty}
use linkpulse_link.Snowflake.{Generator}
use linkpulse_link.Config.{Config}
use linkpulse_link.Process.{
  Resource, pool, redis_client, geoip_reader, auth_client, Step, opens, closes, producer_opens,
  producer_closes, Failure, Outside, Frame, Exit, goes_on, returns, waits, Body, continue, ◌>>=◌,
  ◌>>◌, pure, step, defer, check, bad_dsn, no_pool, postgres_silent, redis_silent, no_kafka_client,
  kafka_silent, no_geoip, no_auth_client,
}
use linkpulse_link.Process.Open.{
  ping, new_postgres, new_redis, new_producer, new_geoip, new_auth_client,
}
use linkpulse_link.Process.Run.{
  no_database, database, app_of, geo_for, clicks_for, auth_for, connect,
}

-- A part of the start is through without a return of nil.
pub record IsBlamed {A : Type 0} (x : Exit A) (f : Frame) : Type 0 where
  pub told : x ≢ returns none

abbrev pub Blames : {A : Type 0} → Body A → Type 0
Blames m = (f : Frame) → IsBlamed (m f).0 (m f).1

continue-Blames :
    {A B : Type 0} (x : Exit A) (k : A → Body B) (f : Frame)
    → IsBlamed x f
    → ((a : A) → Blames (k a))
    → IsBlamed (continue x k f).0 (continue x k f).1
continue-Blames (goes_on a) k f h rest = rest a f
continue-Blames (returns none) k f h rest = absurd (h.told refl)
continue-Blames (returns (some e)) k f h rest = record { told = λ e. cc }
continue-Blames waits k f h rest = record { told = λ e. cc }

bind-Blames :
    {A B : Type 0} (m : Body A) (k : A → Body B)
    → Blames m
    → ((a : A) → Blames (k a))
    → Blames (m >>= k)
bind-Blames m k first rest f = continue-Blames (m f).0 k (m f).1 (first f) rest

pure-Blames : {A : Type 0} (a : A) → Blames (pure a)
pure-Blames a f = record { told = λ e. cc }

defer-Blames : (r : Resource) → Blames (defer r)
defer-Blames r f = record { told = λ e. cc }

step-Blames : (s : Step) → Blames (step s)
step-Blames s f = record { told = λ e. cc }

check-Blames : (b : Bool) (e : Failure) → Blames (check b e)
check-Blames true e f = record { told = λ e. cc }
check-Blames false e f = record { told = λ e. cc }

ping-Blames : (b : Bool) (s : Step) (e : Failure) → Blames (ping b s e)
ping-Blames true s e f = record { told = λ e. cc }
ping-Blames false s e f = record { told = λ e. cc }

module _ (o : Outside) where
  new_postgres-Blames : (dsn : Text) → Blames (new_postgres o dsn)
  unfolding new_postgres
  new_postgres-Blames dsn = bind-Blames _ _ (check-Blames (o.parses_dsn dsn) bad_dsn) λ _.
      bind-Blames _ _ (check-Blames (o.opens_pool dsn) no_pool) λ _.
        bind-Blames _ _ (step-Blames (opens pool))
          λ _. (ping-Blames (o.pings_postgres dsn) (closes pool) postgres_silent)

  new_producer-Blames : (brokers : List Text) (topic : Text) → Blames (new_producer o brokers topic)
  unfolding new_producer
  new_producer-Blames brokers topic =
      bind-Blames _ _ (check-Blames (o.makes_kafka_client brokers topic) no_kafka_client) λ _.
        bind-Blames _ _ (step-Blames producer_opens)
          λ _. (ping-Blames (o.pings_kafka brokers topic) producer_closes kafka_silent)

  geo_by-Blames :
      (path : Text) (b : Bool)
      → Blames
          (if b then pure no_database else do new_geoip o path; defer geoip_reader; pure database)
  unfolding new_geoip
  geo_by-Blames path true = pure-Blames no_database
  geo_by-Blames path false =
      bind-Blames _ _
        (bind-Blames _ _ (check-Blames (o.opens_geoip path) no_geoip)
          λ _. step-Blames (opens geoip_reader))
        λ _. bind-Blames _ _ (defer-Blames geoip_reader) λ _. (pure-Blames database)

  clicks_for-Blames : (cfg : Config) (brokers : List Text) → Blames (clicks_for o cfg brokers)
  unfolding clicks_for geo_for
  clicks_for-Blames cfg [] = pure-Blames none
  clicks_for-Blames cfg (broker ∷ brokers) =
      bind-Blames _ _ (new_producer-Blames (broker ∷ brokers) cfg.kafka_topic) λ _.
        bind-Blames _ _ (geo_by-Blames cfg.geoip_db_path (is_empty cfg.geoip_db_path))
          λ geo. pure-Blames (some geo)

  auth_by-Blames :
      (addr : Text) (b : Bool)
      → Blames (if b then pure false else do new_auth_client o addr; defer auth_client; pure true)
  unfolding new_auth_client
  auth_by-Blames addr true = pure-Blames false
  auth_by-Blames addr false =
      bind-Blames _ _
        (bind-Blames _ _ (check-Blames (o.makes_auth_client addr) no_auth_client)
          λ _. step-Blames (opens auth_client))
        λ _. bind-Blames _ _ (defer-Blames auth_client) λ _. (pure-Blames true)

  pub connect-Blames : (cfg : Config) (g : Generator) → Blames (connect o cfg (some g))
  unfolding connect new_redis auth_for
  connect-Blames cfg g = bind-Blames _ _ (new_postgres-Blames cfg.postgres_dsn) λ _.
      bind-Blames _ _ (defer-Blames pool) λ _.
        (bind-Blames _ _
          (bind-Blames _ _ (step-Blames (opens redis_client)) λ _.
            (ping-Blames (o.pings_redis cfg.redis_addr cfg.redis_password cfg.redis_db)
              (closes redis_client) redis_silent))
          λ _. bind-Blames _ _ (defer-Blames redis_client) λ _.
            (bind-Blames _ _ (clicks_for-Blames cfg cfg.kafka_brokers) λ clicks.
              bind-Blames _ _ (auth_by-Blames cfg.auth_addr (is_empty cfg.auth_addr))
                λ has_auth. pure-Blames (app_of cfg g clicks has_auth)))
