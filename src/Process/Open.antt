-- ===== src/Process/Open.antt =====
-- The constructors of the parts that hold a connection: NewPostgres of internal/repository,
-- NewRedis of internal/cache, NewProducer and NewGeoIP of internal/clicks, New of
-- internal/authclient; and the Close of the producer.
use linkpulse_link.Base.{Bool, true, false, some, List}
use linkpulse_link.Base.Text.{Text}
use linkpulse_link.Base.Int.{ℤ}
use linkpulse_link.Process.{
  pool, redis_client, geoip_reader, auth_client, Step, opens, closes, producer_opens,
  producer_flushes, producer_closes, Failure, bad_dsn, no_pool, postgres_silent, redis_silent,
  no_kafka_client, kafka_silent, no_geoip, no_auth_client, Outside, Body, ◌>>◌, pure, return, step,
  check,
}

-- `if err := Ping(ctx); err != nil { Close(); return err }`
abbrev pub ping : Bool → Step → Failure → Body (Unit {0})
ping true closing e = pure tt
ping false closing e = do step closing; return (some e)

-- `NewPostgres`
unfoldable pub new_postgres : Outside → Text → Body (Unit {0})
new_postgres o dsn = do
  check (o.parses_dsn dsn) bad_dsn
  check (o.opens_pool dsn) no_pool
  step (opens pool)
  ping (o.pings_postgres dsn) (closes pool) postgres_silent

-- `NewRedis`
unfoldable pub new_redis : Outside → Text → Text → ℤ → Body (Unit {0})
new_redis o addr password db = do
  step (opens redis_client)
  ping (o.pings_redis addr password db) (closes redis_client) redis_silent

-- `NewProducer`
unfoldable pub new_producer : Outside → List Text → Text → Body (Unit {0})
new_producer o brokers topic = do
  check (o.makes_kafka_client brokers topic) no_kafka_client
  step producer_opens
  ping (o.pings_kafka brokers topic) producer_closes kafka_silent

-- `NewGeoIP`
unfoldable pub new_geoip : Outside → Text → Body (Unit {0})
new_geoip o path = do check (o.opens_geoip path) no_geoip; step (opens geoip_reader)

-- `authclient.New`
unfoldable pub new_auth_client : Outside → Text → Body (Unit {0})
new_auth_client o addr = do
  check (o.makes_auth_client addr) no_auth_client
  step (opens auth_client)

-- `Producer.Close`: the client is closed whatever the flush returns.
unfoldable pub close_producer : Body (Unit {0})
close_producer = do step producer_flushes; step producer_closes
