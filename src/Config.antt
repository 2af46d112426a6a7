-- ===== src/Config.antt =====
-- internal/config/config.go: the configuration from the environment.
-- `time.ParseDuration` is a parameter; `none` is its error.
pub mod Loading
pub mod Brokers
mod Tests
use linkpulse_link.Base.{
  ℕ, Bool, true, false, ◌||◌, Option, none, some, List, [], ◌∷◌, ◌++◌, if◌then◌else◌,
}
use linkpulse_link.Base.Text.{Text, codes}
use linkpulse_link.Base.Int.{ℤ, pos, ltb_ℤ}
use linkpulse_link.Net.Strings.{is_empty, trim_space, split_seq}
use linkpulse_link.Strconv.{atoi}
use linkpulse_link.Link.{Duration}

-- `Config`
pub record Config : Type 0 where
  pub http_addr : Text
  pub shutdown_timeout : Duration
  pub postgres_dsn : Text
  pub redis_addr : Text
  pub redis_password : Text
  pub redis_db : ℤ
  pub worker_id : ℤ
  pub base_url : Text
  pub kafka_brokers : List Text
  pub kafka_topic : Text
  pub ip_hash_salt : Text
  pub geoip_db_path : Text
  pub auth_addr : Text

-- The errors that are joined.
pub data Problem : Type 0 where
  not_a_number not_a_duration : Text → Text → Problem
  no_dsn : Problem
  worker_out_of_range : ℤ → Problem

-- `os.LookupEnv`
abbrev pub Env : Type 0
Env = Text → Option Text

-- `os.Getenv`
unfoldable pub getenv : Env → Text → Text
getenv env key = elim (env key) [ none ↦ [] | some v ↦ v ]

-- `getEnv`
unfoldable pub get_env : Env → Text → Text → Text
get_env env key def = elim (env key) [ none ↦ def | some v ↦ v ]

-- What a helper returns, and what it appends to `errs`.
abbrev pub parsed_or : {A : Type 0} → A → Problem → Option A → A × List Problem
parsed_or def problem none = (def, problem ∷ [])
parsed_or def problem (some a) = (a, [])

-- `getEnvInt`
unfoldable pub get_env_int : Env → Text → ℤ → ℤ × List Problem
get_env_int env key def = elim (env key) [
  | none ↦ (def, [])
  | some v ↦ parsed_or def (not_a_number key v) (atoi v)
]

-- `getEnvDuration`
unfoldable pub get_env_duration :
    (Text → Option Duration) → Env → Text → Duration → Duration × List Problem
get_env_duration parse env key def = elim (env key) [
  | none ↦ (def, [])
  | some v ↦ parsed_or def (not_a_duration key v) (parse v)
]

abbrev pub keep_nonempty : List Text → List Text
keep_nonempty [] = []
keep_nonempty (part ∷ parts) =
    let p = trim_space part in
    let rest = keep_nonempty parts in if is_empty p then rest else p ∷ rest

-- `splitNonEmpty`
unfoldable pub split_non_empty : Text → List Text
split_non_empty s = keep_nonempty (split_seq b',' s)

pub data Loaded : Type 0 where
  loaded : Config → Loaded
  refused : List Problem → Loaded

-- Ten seconds.
abbrev pub default_timeout : Duration
default_timeout = pos 10_000_000_000

module _ (parse : Text → Option Duration) (env : Env) where
  abbrev pub timeout : Duration × List Problem
  timeout = get_env_duration parse env (codes "SHUTDOWN_TIMEOUT") default_timeout

  abbrev pub redis_db : ℤ × List Problem
  redis_db = get_env_int env (codes "REDIS_DB") (pos 0)

  abbrev pub worker : ℤ × List Problem
  worker = get_env_int env (codes "WORKER_ID") (pos 0)

  -- The literal of `Load`.
  unfoldable pub candidate : Config
  unfolding get_env_int get_env_duration
  candidate = record {
    http_addr = get_env env (codes "HTTP_ADDR") (codes ":8080");
    shutdown_timeout = timeout.0;
    postgres_dsn = getenv env (codes "POSTGRES_DSN");
    redis_addr = get_env env (codes "REDIS_ADDR") (codes "localhost:6379");
    redis_password = getenv env (codes "REDIS_PASSWORD");
    redis_db = redis_db.0;
    worker_id = worker.0;
    base_url = get_env env (codes "BASE_URL") (codes "http://localhost:8080");
    kafka_brokers = split_non_empty (get_env env (codes "KAFKA_BROKERS") (codes "localhost:9092"));
    kafka_topic = get_env env (codes "KAFKA_TOPIC") (codes "link-clicks");
    ip_hash_salt = get_env env (codes "IP_HASH_SALT") (codes "dev-salt-not-secret");
    geoip_db_path = getenv env (codes "GEOIP_DB_PATH");
    auth_addr = getenv env (codes "AUTH_ADDR");
  }

  -- The two checks behind it.
  abbrev pub checks : Config → List Problem
  checks cfg =
      (if is_empty cfg.postgres_dsn then no_dsn ∷ [] else [])
      ++ (if ltb_ℤ cfg.worker_id (pos 0) || ltb_ℤ (pos 1023) cfg.worker_id
          then worker_out_of_range cfg.worker_id ∷ []
          else [])

  -- `errs` at the end of `Load`.
  unfoldable pub problems : List Problem
  unfolding candidate
  problems = timeout.1 ++ (redis_db.1 ++ (worker.1 ++ checks candidate))

  abbrev pub outcome : List Problem → Loaded
  outcome [] = loaded candidate
  outcome (p ∷ ps) = refused (p ∷ ps)

  -- `Load`
  unfoldable pub load : Loaded
  unfolding problems
  load = outcome problems
