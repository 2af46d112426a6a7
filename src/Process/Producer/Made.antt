-- ===== src/Process/Producer/Made.antt =====
-- A start that has made the producer ends with it, whatever fails behind it.
use linkpulse_link.Base.{
  ◌≡◌, ◌≢◌, refl, Bool, true, false, Option, some, List, [], ◌∷◌, if◌then◌else◌,
}
use linkpulse_link.Base.Text.{Text}
use linkpulse_link.Net.Strings.{is_empty}
use linkpulse_link.Snowflake.{Generator}
use linkpulse_link.Config.{Config}
use linkpulse_link.Process.{
  Resource, pool, redis_client, geoip_reader, auth_client, Step, opens, closes, producer_opens,
  producer_closes, Failure, Outside, Frame, Exit, goes_on, returns, waits, Body, ◌>>◌, pure, step,
  defer, check, no_geoip, no_auth_client, no_kafka_client, kafka_silent, bad_dsn, no_pool,
  postgres_silent, redis_silent,
}
use linkpulse_link.Process.Open.{
  ping, new_postgres, new_redis, new_producer, new_geoip, new_auth_client,
}
use linkpulse_link.Process.Reasoning.{
  Safe, next, left, hung, Yields, bind-keeps, pure-keeps, check-keeps,
}
use linkpulse_link.Process.Run.{
  Geo, no_database, database, app_of, geo_for, clicks_for, auth_for, connect,
}
use linkpulse_link.Process.Serving.{IsUp}
use linkpulse_link.Process.Producer.{producer_left}

abbrev pub IsMade : Frame → Type 0
IsMade f = producer_left f.steps ≡ true

-- A statement that ends, with a producer that has been made and not been closed.
abbrev EndsMade : {A : Type 0} → (Frame → Type 0) → Body A → (A → Frame → Type 0) → Type 0
EndsMade Pre m Next = Yields IsMade (λ f. ⊥) Pre m Next

-- Where the answer is there, the statement goes on.
module _ {Pre : Frame → Type 0} where
  check_passes : (b : Bool) (e : Failure) → b ≡ true → EndsMade Pre (check b e) (λ _. Pre)
  check_passes true e up f h = next h
  check_passes false e up f h = cc

  ping_passes :
      (b : Bool) (s : Step) (e : Failure) → b ≡ true → EndsMade Pre (ping b s e) (λ _. Pre)
  ping_passes true s e up f h = next h
  ping_passes false s e up f h = cc

abbrev Always : Frame → Type 0
Always f = Unit

any_step : (s : Step) → EndsMade Always (step s) (λ _. Always)
any_step s f h = next tt

any_defer : (r : Resource) → EndsMade Always (defer r) (λ _. Always)
any_defer r f h = next tt

producer_step : EndsMade Always (step producer_opens) (λ _. IsMade)
unfolding producer_left
producer_step f h = next refl

IsMade-check : (b : Bool) (e : Failure) → EndsMade IsMade (check b e) (λ _. IsMade)
IsMade-check b e = check-keeps b e (λ f h. h)

IsMade-open : (r : Resource) → EndsMade IsMade (step (opens r)) (λ _. IsMade)
unfolding producer_left
IsMade-open r f h = next h

IsMade-defer : (r : Resource) → EndsMade IsMade (defer r) (λ _. IsMade)
IsMade-defer r f h = next h

module _ {A : Type 0} {P : Type 0} where
  add_fact :
      (x : Exit A) (f : Frame)
      → P
      → Safe (λ _. IsMade) IsMade (λ f. ⊥) x f
      → Safe (λ _ f. P × IsMade f) IsMade (λ f. ⊥) x f
  add_fact (goes_on a) f p (next h) = next (p, h)
  add_fact (returns e) f p (left h) = left h
  add_fact waits f p (hung h) = absurd h

  with_fact :
      {m : Body A}
      → EndsMade IsMade m (λ _. IsMade)
      → EndsMade (λ f. P × IsMade f) m (λ _ f. P × IsMade f)
  with_fact {m = m} keeps f (p, h) = add_fact (m f).0 (m f).1 p (keeps f h)

abbrev pub HasClicks : Option Geo → Type 0
HasClicks clicks = (geo : Geo) × (clicks ≡ some geo)

module _ (o : Outside) (cfg : Config) where
  geo_by-IsMade :
      (path : Text) (b : Bool)
      → EndsMade IsMade
          (if b then pure no_database else do new_geoip o path; defer geoip_reader; pure database)
          (λ _. IsMade)
  unfolding new_geoip
  geo_by-IsMade path true = pure-keeps no_database
  geo_by-IsMade path false =
      bind-keeps _ _
        (bind-keeps _ _ (IsMade-check (o.opens_geoip path) no_geoip) λ _. IsMade-open geoip_reader)
        λ _. bind-keeps _ _ (IsMade-defer geoip_reader) λ _. pure-keeps database

  auth_by-IsMade :
      (addr : Text) (b : Bool)
      → EndsMade IsMade
          (if b then pure false else do new_auth_client o addr; defer auth_client; pure true)
          (λ _. IsMade)
  unfolding new_auth_client
  auth_by-IsMade addr true = pure-keeps false
  auth_by-IsMade addr false =
      bind-keeps _ _
        (bind-keeps _ _ (IsMade-check (o.makes_auth_client addr) no_auth_client)
          λ _. IsMade-open auth_client)
        λ _. bind-keeps _ _ (IsMade-defer auth_client) λ _. pure-keeps true

  clicks_for-IsMade :
      (brokers : List Text)
      → brokers ≢ []
      → o.makes_kafka_client brokers cfg.kafka_topic ≡ true
      → o.pings_kafka brokers cfg.kafka_topic ≡ true
      → EndsMade Always (clicks_for o cfg brokers) (λ clicks f. HasClicks clicks × IsMade f)
  unfolding clicks_for new_producer geo_for
  clicks_for-IsMade [] has_any client ping = absurd (has_any refl)
  clicks_for-IsMade (broker ∷ brokers) has_any client ping =
      bind-keeps _ _
        (bind-keeps _ _ (check_passes _ no_kafka_client client)
          λ _. bind-keeps _ _ producer_step λ _. ping_passes _ producer_closes kafka_silent ping)
        λ _.
          bind-keeps _ _ (geo_by-IsMade cfg.geoip_db_path (is_empty cfg.geoip_db_path))
            λ geo. λ f h. next ((geo, refl), h)

  app-IsMade :
      (g : Generator) (clicks : Option Geo) (has_auth : Bool)
      → EndsMade
          (λ f. HasClicks clicks × IsMade f)
          (pure (app_of cfg g clicks has_auth))
          (λ app f. HasClicks app.clicks × IsMade f)
  app-IsMade g clicks has_auth f h = next h

  pub connect-IsMade :
      (g : Generator)
      → IsUp (record o { opens_geoip = λ path. true; makes_auth_client = λ addr. true }) cfg
      → cfg.kafka_brokers ≢ []
      → EndsMade Always (connect o cfg (some g)) (λ app f. HasClicks app.clicks × IsMade f)
  unfolding connect new_postgres new_redis auth_for
  connect-IsMade g up has_any =
      bind-keeps _ _
        (bind-keeps _ _ (check_passes _ bad_dsn up.dsn) λ _.
          bind-keeps _ _ (check_passes _ no_pool up.pool) λ _.
            bind-keeps _ _ (any_step (opens pool))
              λ _. ping_passes _ (closes pool) postgres_silent up.postgres)
        λ _. bind-keeps _ _ (any_defer pool) λ _.
          bind-keeps _ _
            (bind-keeps _ _ (any_step (opens redis_client))
              λ _. ping_passes _ (closes redis_client) redis_silent up.redis)
            λ _. bind-keeps _ _ (any_defer redis_client) λ _. bind-keeps _ _ (pure-keeps g) λ ids.
              bind-keeps _ _
                (clicks_for-IsMade cfg.kafka_brokers has_any (up.kafka_client has_any)
                  (up.kafka has_any))
                λ clicks.
                  bind-keeps _ _ (with_fact (auth_by-IsMade cfg.auth_addr (is_empty cfg.auth_addr)))
                    λ has_auth. app-IsMade g clicks has_auth
