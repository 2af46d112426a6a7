-- ===== src/Process/Tests.antt =====
-- Runs of the process with an outside that answers, and with faults.
use linkpulse_link.Base.{
  ◌≡◌, ◌≢◌, ◌↔◌, ◌⊎◌, refl, sym, ◌∙◌, true, false, Option, none, some, List, [], ◌∷◌, if◌then◌else◌,
}
use linkpulse_link.Base.Text.{Text, codes, text_eq}
use linkpulse_link.Link.{Duration}
use linkpulse_link.Config.{Config, Env, loaded, candidate, load}
use linkpulse_link.Process.{
  Resource, Step, pool, redis_client, auth_client, opens, closes, producer_opens, producer_flushes,
  producer_closes, serves, shuts_down, overruns, kafka_silent, shutdown_error, serves_on,
  stopped_in_time, stopped_late, Outside,
}
use linkpulse_link.Process.Run.{ended, run}
use linkpulse_link.Process.Protocol.{IsOrderly}
use linkpulse_link.Process.Protocol.Orderly.{run-IsOrderly}
use linkpulse_link.Process.Serving.{trace, IsUp}
use linkpulse_link.Process.Serving.Result.{run-clean_iff}
use linkpulse_link.Process.Producer.{producer_left}
use linkpulse_link.Process.Producer.Ends.{run-producer_left_iff}

abbrev unread : Text → Option Duration
unread v = none

-- Without further variables the defaults hold, with one broker.
abbrev minimal : Env
minimal key = if text_eq key (codes "POSTGRES_DSN") then some (codes "dsn") else none

abbrev stopping : Outside
stopping = record {
  parses_dsn = λ dsn. true;
  opens_pool = λ dsn. true;
  pings_postgres = λ dsn. true;
  pings_redis = λ addr password db. true;
  makes_kafka_client = λ brokers topic. true;
  pings_kafka = λ brokers topic. true;
  opens_geoip = λ path. true;
  makes_auth_client = λ addr. true;
  ending = stopped_in_time;
}

abbrev overrunning : Outside
overrunning = record stopping { ending = stopped_late }

abbrev kafkaless : Outside
kafkaless = record stopping { pings_kafka = λ brokers topic. false }

abbrev config : Config
config = candidate unread minimal

config_loaded : load unread minimal ≡ loaded config
unfolding load text_eq linkpulse_link.Strconv.atoi linkpulse_link.Config.getenv
config_loaded = refl

-- The newest step first.
record Runs : Type 0 where
  stops :
      run stopping unread minimal
      ≡ ended none (
          closes pool
          ∷ closes redis_client
          ∷ producer_closes
          ∷ producer_flushes
          ∷ shuts_down
          ∷ serves
          ∷ producer_opens
          ∷ opens redis_client
          ∷ opens pool
          ∷ [])
  overruns_late :
      run overrunning unread minimal
      ≡ ended (some shutdown_error) (
          closes pool
          ∷ closes redis_client
          ∷ overruns
          ∷ serves
          ∷ producer_opens
          ∷ opens redis_client
          ∷ opens pool
          ∷ [])
  has_no_kafka :
      run kafkaless unread minimal
      ≡ ended (some kafka_silent) (
          closes pool
          ∷ closes redis_client
          ∷ producer_closes
          ∷ producer_opens
          ∷ opens redis_client
          ∷ opens pool
          ∷ [])

runs : Runs
unfolding run load text_eq linkpulse_link.Strconv.atoi linkpulse_link.Config.getenv
    linkpulse_link.Snowflake.new linkpulse_link.Config.split_non_empty
    linkpulse_link.Net.Strings.split_seq linkpulse_link.Config.get_env
    linkpulse_link.Net.Strings.trim_space linkpulse_link.Process.Run.geo_for
    linkpulse_link.Process.Run.auth_for
runs = record { stops = refl; overruns_late = refl; has_no_kafka = refl }

run-IsOrderly_example : IsOrderly (run kafkaless unread minimal)
run-IsOrderly_example = run-IsOrderly kafkaless unread minimal

one_broker : config.kafka_brokers ≡ codes "localhost:9092" ∷ []
unfolding candidate linkpulse_link.Config.split_non_empty linkpulse_link.Net.Strings.split_seq
    linkpulse_link.Config.get_env linkpulse_link.Net.Strings.trim_space text_eq
one_broker = refl

has_brokers : config.kafka_brokers ≢ []
has_brokers e = cc (sym one_broker ∙ e)

all_answer : IsUp overrunning config
all_answer = record {
  dsn = refl;
  pool = refl;
  postgres = refl;
  redis = refl;
  kafka_client = λ _. refl;
  kafka = λ _. refl;
  geoip = λ _ _. refl;
  auth = λ _. refl;
}

run-producer_left_iff_example : (producer_left (trace (run overrunning unread minimal)) ≡ true) ↔ (
    ¬ IsUp overrunning config
    ⊎ ((overrunning.ending ≡ serves_on) ⊎ (overrunning.ending ≡ stopped_late)))
run-producer_left_iff_example =
    run-producer_left_iff overrunning unread minimal config config_loaded has_brokers all_answer

run-clean_iff_example :
    ((steps : List Step) × (run overrunning unread minimal ≡ ended none steps)) ↔ (
      (cfg : Config) × (load unread minimal ≡ loaded cfg)
      × IsUp overrunning cfg
      × (overrunning.ending ≡ stopped_in_time))
run-clean_iff_example = run-clean_iff overrunning unread minimal
