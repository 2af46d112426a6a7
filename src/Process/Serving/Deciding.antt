-- ===== src/Process/Serving/Deciding.antt =====
-- Each part of the start goes on exactly where what it asks for answers.
use mathlib.Core.Path.{subst}
use linkpulse_link.Base.{
  ◌≡◌, refl, Bool, true, false, ◌&&◌, ◌||◌, none, some, List, [], ◌∷◌, arith, if◌then◌else◌,
}
use linkpulse_link.Base.Text.{Text}
use linkpulse_link.Net.Strings.{is_empty}
use linkpulse_link.Snowflake.{Generator}
use linkpulse_link.Config.{Config}
use linkpulse_link.Process.{
  Resource, pool, redis_client, geoip_reader, auth_client, Step, opens, closes, producer_opens,
  producer_closes, Failure, Outside, Frame, Exit, goes_on, returns, waits, Body, continue, ◌>>=◌,
  ◌>>◌, pure, step, defer, check, bad_dsn, no_pool, postgres_silent, redis_silent, no_kafka_client,
  kafka_silent, no_geoip, no_auth_client,
}
use linkpulse_link.Process.Open.{
  ping, new_postgres, new_redis, new_producer, new_geoip, new_auth_client,
}
use linkpulse_link.Process.Reasoning.{Safe, next, left, hung}
use linkpulse_link.Process.Run.{
  no_database, database, app_of, geo_for, clicks_for, auth_for, connect,
}
use linkpulse_link.Process.Serving.{is_serves, has_served}

abbrev pub NotServed : Frame → Type 0
NotServed f = has_served f.steps ≡ false

-- A part of the start goes on exactly where a test holds, and does not start the server.
abbrev pub Answers : {A : Type 0} → Bool → Exit A → Frame → Type 0
Answers b x f = Safe (λ a f. NotServed f × (b ≡ true)) (λ f. NotServed f × (b ≡ false)) (λ f. ⊥) x f

abbrev pub Decides : {A : Type 0} → Bool → Body A → Type 0
Decides b m = (f : Frame) → NotServed f → Answers b (m f).0 (m f).1

module _ {A : Type 0} (b c : Bool) where
  and-Answers : (x : Exit A) (f : Frame) → b ≡ true → Answers c x f → Answers (b && c) x f
  and-Answers (goes_on a) f t (next (h, u)) = next (h, ground arith)
  and-Answers (returns e) f t (left (h, u)) = left (h, ground arith)
  and-Answers waits f t (hung h) = absurd h

module _ {A B : Type 0} (b c : Bool) where
  continue-Answers :
      (x : Exit A) (k : A → Body B) (f : Frame)
      → Answers b x f
      → ((a : A) → Decides c (k a))
      → Answers (b && c) (continue x k f).0 (continue x k f).1
  continue-Answers (goes_on a) k f (next (h, t)) rest =
      and-Answers b c (k a f).0 (k a f).1 t (rest a f h)
  continue-Answers (returns e) k f (left (h, t)) rest = left (h, ground arith)
  continue-Answers waits k f (hung h) rest = absurd h

  bind-Decides :
      (m : Body A) (k : A → Body B)
      → Decides b m
      → ((a : A) → Decides c (k a))
      → Decides (b && c) (m >>= k)
  bind-Decides m k first rest f h = continue-Answers (m f).0 k (m f).1 (first f h) rest

same-Decides : {A : Type 0} {b c : Bool} {m : Body A} → b ≡ c → Decides b m → Decides c m
same-Decides {m = m} e h = subst (λ b. Decides b m) e h

check-Decides : (b : Bool) (e : Failure) → Decides b (check b e)
check-Decides true e f h = next (h, refl)
check-Decides false e f h = left (h, refl)

pure-Decides : {A : Type 0} (a : A) → Decides true (pure a)
pure-Decides a f h = next (h, refl)

step-Decides : (s : Step) → is_serves s ≡ false → Decides true (step s)
unfolding has_served
step-Decides s quiet f h = next (ground arith, refl)

defer-Decides : (r : Resource) → Decides true (defer r)
defer-Decides r f h = next (h, refl)

ping-Decides : (b : Bool) (s : Step) (e : Failure) → is_serves s ≡ false → Decides b (ping b s e)
unfolding has_served
ping-Decides true s e quiet f h = next (h, refl)
ping-Decides false s e quiet f h = left (ground arith, refl)

-- What each part asks for, as a test.
module _ (o : Outside) (cfg : Config) where
  abbrev pub geo_up : Bool
  geo_up = is_empty cfg.geoip_db_path || o.opens_geoip cfg.geoip_db_path

  abbrev pub clicks_up : List Text → Bool
  clicks_up [] = true
  clicks_up (broker ∷ brokers) =
      (o.makes_kafka_client (broker ∷ brokers) cfg.kafka_topic
        && o.pings_kafka (broker ∷ brokers) cfg.kafka_topic)
      && (geo_up && true)

  abbrev pub auth_up : Bool
  auth_up = is_empty cfg.auth_addr || o.makes_auth_client cfg.auth_addr

  abbrev pub postgres_up : Bool
  postgres_up =
      o.parses_dsn cfg.postgres_dsn
      && (o.opens_pool cfg.postgres_dsn && o.pings_postgres cfg.postgres_dsn)

  abbrev pub redis_up : Bool
  redis_up = o.pings_redis cfg.redis_addr cfg.redis_password cfg.redis_db

  new_postgres-Decides : Decides postgres_up (new_postgres o cfg.postgres_dsn)
  unfolding new_postgres
  new_postgres-Decides =
      bind-Decides _ _ _ _ (check-Decides (o.parses_dsn cfg.postgres_dsn) bad_dsn) λ _.
        bind-Decides _ _ _ _ (check-Decides (o.opens_pool cfg.postgres_dsn) no_pool) λ _.
          bind-Decides _ _ _ _ (step-Decides (opens pool) refl)
            λ _. ping-Decides (o.pings_postgres cfg.postgres_dsn) (closes pool) postgres_silent refl

  new_redis-Decides : Decides redis_up (new_redis o cfg.redis_addr cfg.redis_password cfg.redis_db)
  unfolding new_redis
  new_redis-Decides =
      bind-Decides _ _ _ _ (step-Decides (opens redis_client) refl)
        λ _. ping-Decides redis_up (closes redis_client) redis_silent refl

  new_producer-Decides :
      (brokers : List Text)
      → Decides
          (o.makes_kafka_client brokers cfg.kafka_topic && o.pings_kafka brokers cfg.kafka_topic)
          (new_producer o brokers cfg.kafka_topic)
  unfolding new_producer
  new_producer-Decides brokers =
      bind-Decides _ _ _ _
        (check-Decides (o.makes_kafka_client brokers cfg.kafka_topic) no_kafka_client)
        λ _. bind-Decides _ _ _ _ (step-Decides producer_opens refl) λ _.
          ping-Decides (o.pings_kafka brokers cfg.kafka_topic) producer_closes kafka_silent refl

  new_geoip-Decides : (path : Text) → Decides (o.opens_geoip path && true) (new_geoip o path)
  unfolding new_geoip
  new_geoip-Decides path =
      bind-Decides _ _ _ _ (check-Decides (o.opens_geoip path) no_geoip)
        λ _. step-Decides (opens geoip_reader) refl

  new_auth_client-Decides :
      (addr : Text) → Decides (o.makes_auth_client addr && true) (new_auth_client o addr)
  unfolding new_auth_client
  new_auth_client-Decides addr =
      bind-Decides _ _ _ _ (check-Decides (o.makes_auth_client addr) no_auth_client)
        λ _. step-Decides (opens auth_client) refl

  geo_by-Decides :
      (path : Text) (b : Bool)
      → Decides
          (b || o.opens_geoip path)
          (if b then pure no_database else do new_geoip o path; defer geoip_reader; pure database)
  geo_by-Decides path true = pure-Decides no_database
  geo_by-Decides path false = same-Decides (ground arith) (
      bind-Decides _ _ _ _ (new_geoip-Decides path)
        λ _. bind-Decides _ _ _ _ (defer-Decides geoip_reader) λ _. pure-Decides database)

  geo_for-Decides : Decides geo_up (geo_for o cfg)
  unfolding geo_for
  geo_for-Decides = geo_by-Decides cfg.geoip_db_path (is_empty cfg.geoip_db_path)

  clicks_for-Decides :
      (brokers : List Text) → Decides (clicks_up brokers) (clicks_for o cfg brokers)
  unfolding clicks_for
  clicks_for-Decides [] = pure-Decides none
  clicks_for-Decides (broker ∷ brokers) =
      bind-Decides _ _ _ _ (new_producer-Decides (broker ∷ brokers))
        λ _. bind-Decides _ _ _ _ geo_for-Decides λ geo. pure-Decides (some geo)

  auth_by-Decides :
      (addr : Text) (b : Bool)
      → Decides
          (b || o.makes_auth_client addr)
          (if b then pure false else do new_auth_client o addr; defer auth_client; pure true)
  auth_by-Decides addr true = pure-Decides false
  auth_by-Decides addr false = same-Decides (ground arith) (
      bind-Decides _ _ _ _ (new_auth_client-Decides addr)
        λ _. bind-Decides _ _ _ _ (defer-Decides auth_client) λ _. pure-Decides true)

  auth_for-Decides : Decides auth_up (auth_for o cfg)
  unfolding auth_for
  auth_for-Decides = auth_by-Decides cfg.auth_addr (is_empty cfg.auth_addr)

  abbrev pub all_up : Bool
  all_up = postgres_up && (redis_up && (clicks_up cfg.kafka_brokers && (auth_up && true)))

  pub connect-Decides : (g : Generator) → Decides all_up (connect o cfg (some g))
  unfolding connect
  connect-Decides g = bind-Decides _ _ _ _ new_postgres-Decides λ _.
      bind-Decides _ _ _ _ (defer-Decides pool) λ _. bind-Decides _ _ _ _ new_redis-Decides λ _.
        bind-Decides _ _ _ _ (defer-Decides redis_client) λ _.
          bind-Decides _ _ _ _ (pure-Decides g) λ ids.
            bind-Decides _ _ _ _ (clicks_for-Decides cfg.kafka_brokers) λ clicks.
              bind-Decides _ _ _ _ auth_for-Decides
                λ has_auth. pure-Decides (app_of cfg ids clicks has_auth)
