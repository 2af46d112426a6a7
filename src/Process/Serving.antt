-- ===== src/Process/Serving.antt =====
-- When the server is started: what a trace says of it, and what a configuration asks for.
pub mod Deciding
pub mod Asked
pub mod Starts
pub mod Blame
pub mod Result
use linkpulse_link.Base.{◌≡◌, ◌≢◌, Bool, true, false, ◌||◌, List, [], ◌∷◌}
use linkpulse_link.Config.{Config}
use linkpulse_link.Process.{Step, opens, closes, serves, Outside}
use linkpulse_link.Process.Run.{Ended, ended, serving}

abbrev pub is_serves : Step → Bool
is_serves serves = true
is_serves (opens r) = false
is_serves (closes r) = false
is_serves _ = false

-- The server has been started in a trace.
unfoldable pub has_served : List Step → Bool
has_served [] = false
has_served (s ∷ steps) = is_serves s || has_served steps

unfoldable pub trace : Ended → List Step
trace (ended e steps) = steps
trace (serving steps) = steps

-- Everything that a configuration asks for answers.
pub record IsUp (o : Outside) (cfg : Config) : Type 0 where
  pub dsn : o.parses_dsn cfg.postgres_dsn ≡ true
  pub pool : o.opens_pool cfg.postgres_dsn ≡ true
  pub postgres : o.pings_postgres cfg.postgres_dsn ≡ true
  pub redis : o.pings_redis cfg.redis_addr cfg.redis_password cfg.redis_db ≡ true
  pub kafka_client :
      cfg.kafka_brokers ≢ [] → o.makes_kafka_client cfg.kafka_brokers cfg.kafka_topic ≡ true
  pub kafka : cfg.kafka_brokers ≢ [] → o.pings_kafka cfg.kafka_brokers cfg.kafka_topic ≡ true
  -- The geo base is read only where clicks are published.
  pub geoip :
      cfg.kafka_brokers ≢ [] → cfg.geoip_db_path ≢ [] → o.opens_geoip cfg.geoip_db_path ≡ true
  pub auth : cfg.auth_addr ≢ [] → o.makes_auth_client cfg.auth_addr ≡ true
