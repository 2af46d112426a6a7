-- ===== src/Process/Wiring/Chosen.antt =====
-- A start that goes on has made the parts that its configuration names, and no others.
use mathlib.Core.Path.{subst}
use linkpulse_link.Base.{
  ◌≡◌, ◌≢◌, ◌↔◌, refl, true, false, Option, none, some, List, [], ◌∷◌, if◌then◌else◌,
}
use linkpulse_link.Base.Text.{Text}
use linkpulse_link.Base.Int.{pos_part}
use linkpulse_link.Net.Strings.{is_empty}
use linkpulse_link.Link.{Duration}
use linkpulse_link.Snowflake.{Generator, new}
use linkpulse_link.Config.{Config, Env, Loaded, loaded, refused, load}
use linkpulse_link.Process.{
  pool, redis_client, geoip_reader, auth_client, Outside, Frame, Exit, goes_on, returns, waits,
  Body, ◌>>=◌, ◌>>◌, pure, defer,
}
use linkpulse_link.Process.Open.{new_geoip, new_auth_client, new_postgres, new_redis, new_producer}
use linkpulse_link.Process.Reasoning.{Safe, next, left, hung, Yields, bind-keeps}
use linkpulse_link.Process.Run.{
  Geo, no_database, database, App, app_of, configured, generator, geo_for, clicks_for, auth_for,
  connect, start,
}

abbrev Always : Frame → Type 0
Always f = Unit

-- What is known of the value that a statement goes on with, wherever it is run.
abbrev Gives : {A : Type 0} → Body A → (A → Type 0) → Type 0
Gives m P = Yields Always Always Always m (λ a f. P a)

unknown_at : {A : Type 0} (x : Exit A) (f : Frame) → Safe (λ a f. Unit {0}) Always Always x f
unknown_at (goes_on a) f = next tt
unknown_at (returns e) f = left tt
unknown_at waits f = hung tt

unknown : {A : Type 0} (m : Body A) → Gives m (λ a. Unit {0})
unknown m f h = unknown_at (m f).0 (m f).1

given : {A : Type 0} {P : A → Type 0} (a : A) → P a → Gives (pure a) P
given a p f h = next p

forget_at :
    {A : Type 0} {P : A → Type 0} {f : Frame}
    → (x : Exit A) → Safe (λ a f. P a) Always Always x f
    → ((a : A) → x ≡ goes_on a → P a)
forget_at {P = P} (goes_on a) (next p) b e = let same : a ≡ b = cc e in subst P same p
forget_at (returns y) h b e = cc
forget_at waits h b e = cc

module _ {A : Type 0} {P Q : A → Type 0} (f : (a : A) → P a → Q a) where
  weaker_at :
      (x : Exit A) (g : Frame)
      → Safe (λ a f. P a) Always Always x g
      → Safe (λ a f. Q a) Always Always x g
  weaker_at (goes_on a) g (next p) = next (f a p)
  weaker_at (returns y) g h = left tt
  weaker_at waits g h = hung tt

weaker :
    {A : Type 0} {P Q : A → Type 0} {m : Body A} → Gives m P → ((a : A) → P a → Q a) → Gives m Q
weaker {m = m} gives f g h = weaker_at f (m g).0 (m g).1 (gives g h)

bind-gives :
    {A B : Type 0} {P : A → Type 0} {Q : B → Type 0} (m : Body A) (k : A → Body B)
    → Gives m P
    → ((a : A) → P a → Gives (k a) Q)
    → Gives (m >>= k) Q
bind-gives m k first rest = bind-keeps m k first λ a f p. rest a p f tt

then-gives :
    {A B : Type 0} {Q : B → Type 0} (m : Body A) (k : A → Body B)
    → ((a : A) → Gives (k a) Q)
    → Gives (m >>= k) Q
then-gives m k rest = bind-gives m k (unknown m) λ a p. rest a

-- Which parts there are: clicks with brokers, countries with a geo base, tokens with an address.
abbrev GeoFits : Config → Geo → Type 0
GeoFits cfg geo = (geo ≡ database) ↔ (cfg.geoip_db_path ≢ [])

abbrev ClicksFit : Config → List Text → Option Geo → Type 0
ClicksFit cfg [] clicks = clicks ≡ none
ClicksFit cfg (broker ∷ brokers) clicks = (geo : Geo) × (clicks ≡ some geo) × GeoFits cfg geo

module _ (o : Outside) (cfg : Config) where
  geo_by-fits :
      (path : Text)
      → Gives
          (if is_empty path
            then pure no_database
            else do new_geoip o path; defer geoip_reader; pure database)
          (λ geo. (geo ≡ database) ↔ (path ≢ []))
  geo_by-fits [] = given no_database (λ e. cc, λ is_set. absurd (is_set refl))
  geo_by-fits (c ∷ path) =
      then-gives (new_geoip o (c ∷ path)) _
        λ _. then-gives (defer geoip_reader) _ λ _. given database (λ e e'. cc e', λ is_set. refl)

  clicks_for-fits : (brokers : List Text) → Gives (clicks_for o cfg brokers) (ClicksFit cfg brokers)
  unfolding clicks_for geo_for
  clicks_for-fits [] = given none refl
  clicks_for-fits (broker ∷ brokers) =
      then-gives (new_producer o (broker ∷ brokers) cfg.kafka_topic) _ λ _.
        bind-gives _ _ (geo_by-fits cfg.geoip_db_path)
          λ geo fits. given (some geo) (geo, refl, fits)

  auth_by-fits :
      (addr : Text)
      → Gives
          (if is_empty addr
            then pure false
            else do new_auth_client o addr; defer auth_client; pure true)
          (λ has_auth. (has_auth ≡ true) ↔ (addr ≢ []))
  auth_by-fits [] = given false (λ e. cc, λ is_set. absurd (is_set refl))
  auth_by-fits (c ∷ addr) =
      then-gives (new_auth_client o (c ∷ addr)) _
        λ _. then-gives (defer auth_client) _ λ _. given true (λ e e'. cc e', λ is_set. refl)

-- What `run` serves with, against the configuration.
pub record IsWired (cfg : Config) (app : App) : Type 0 where
  pub config : app.config ≡ cfg
  pub generator : new (pos_part cfg.worker_id) ≡ some app.ids
  pub clicks : ClicksFit cfg cfg.kafka_brokers app.clicks
  pub auth : (app.has_auth ≡ true) ↔ (cfg.auth_addr ≢ [])

generator-gives : (made : Option Generator) → Gives (generator made) (λ g. made ≡ some g)
generator-gives none f h = left tt
generator-gives (some g) f h = next refl

configured-gives : (l : Loaded) → Gives (configured l) (λ cfg. l ≡ loaded cfg)
configured-gives (loaded cfg) f h = next refl
configured-gives (refused problems) f h = left tt

module _ (o : Outside) where
  connect-gives :
      (cfg : Config) → Gives (connect o cfg (new (pos_part cfg.worker_id))) (IsWired cfg)
  unfolding connect auth_for
  connect-gives cfg = then-gives (new_postgres o cfg.postgres_dsn) _ λ _.
      then-gives (defer pool) _ λ _.
        then-gives (new_redis o cfg.redis_addr cfg.redis_password cfg.redis_db) _ λ _.
          then-gives (defer redis_client) _ λ _.
            bind-gives _ _ (generator-gives (new (pos_part cfg.worker_id))) λ ids made.
              bind-gives _ _ (clicks_for-fits o cfg cfg.kafka_brokers) λ clicks fits.
                bind-gives _ _ (auth_by-fits o cfg cfg.auth_addr) λ has_auth asked.
                  given (app_of cfg ids clicks has_auth)
                    (record { config = refl; generator = made; clicks = fits; auth = asked })

  start-gives :
      (parse : Text → Option Duration) (env : Env)
      → Gives
          (start o parse env)
          (λ app. (cfg : Config) × (load parse env ≡ loaded cfg) × IsWired cfg app)
  unfolding start
  start-gives parse env =
      bind-gives _ _ (configured-gives (load parse env))
        λ cfg e. weaker (connect-gives cfg) λ app wired. (cfg, e, wired)

  pub start-IsWired :
      (parse : Text → Option Duration) (env : Env) (f : Frame) (app : App)
      → (start o parse env f).0 ≡ goes_on app
      → (cfg : Config) × (load parse env ≡ loaded cfg) × IsWired cfg app
  start-IsWired parse env f app e =
      forget_at (start o parse env f).0 (start-gives parse env f tt) app e
