-- ===== src/Process.antt =====
-- cmd/link/main.go, and the constructors that it calls: the life of the process, as a trace.
-- The contexts, their cancel functions and the log are left out. A deadline is a reason why the
-- outside answers with an error, and an error of a deferred Close is only logged.
pub mod Reasoning
pub mod Open
pub mod Run
pub mod Protocol
pub mod Serving
pub mod Producer
pub mod Wiring
mod Tests
use linkpulse_link.Base.{Bool, true, false, Option, none, some, List, [], ◌∷◌}
use linkpulse_link.Base.Text.{Text}
use linkpulse_link.Base.Int.{ℤ}
use linkpulse_link.Config.{Problem}

-- What is closed by a deferred call.
pub data Resource : Type 0 where
  pool redis_client geoip_reader auth_client : Resource

pub data Step : Type 0 where
  opens closes : Resource → Step
  producer_opens producer_flushes producer_closes : Step
  -- `ListenAndServe` is called, and ends by itself.
  serves server_fails : Step
  -- `Shutdown` returns nil, or an error because requests run on for too long.
  shuts_down overruns : Step

-- The errors that `run` returns.
pub data Failure : Type 0 where
  bad_config : List Problem → Failure
  bad_dsn no_pool postgres_silent redis_silent bad_worker : Failure
  no_kafka_client kafka_silent no_geoip no_auth_client server_error shutdown_error : Failure

-- How the `select` at the end of `run` comes out. A process that is not told to stop serves on.
pub data Ending : Type 0 where
  serves_on fails_itself stopped_in_time stopped_late : Ending

-- What the libraries and the servers answer: `true` where there is no error.
pub record Outside : Type 0 where
  pub parses_dsn : Text → Bool
  pub opens_pool : Text → Bool
  pub pings_postgres : Text → Bool
  pub pings_redis : Text → Text → ℤ → Bool
  pub makes_kafka_client : List Text → Text → Bool
  pub pings_kafka : List Text → Text → Bool
  pub opens_geoip : Text → Bool
  pub makes_auth_client : Text → Bool
  pub ending : Ending

-- The call of a Go function: what it has done and what it has deferred, the newest first.
pub record Frame : Type 0 where
  pub steps : List Step
  pub defers : List Resource

-- A statement goes on with a value, returns from the function, or is not through.
pub data Exit (A : Type 0) : Type 0 where
  goes_on : A → Exit A
  returns : Option Failure → Exit A
  waits : Exit A

abbrev pub Body : Type 0 → Type 0
Body A = Frame → Exit A × Frame

module _ {A B : Type 0} where
  abbrev pub continue : Exit A → (A → Body B) → Body B
  continue (goes_on a) k f = k a f
  continue (returns e) k f = (returns e, f)
  continue waits k f = (waits, f)

  infixl 5 ◌>>=◌
  abbrev pub ◌>>=◌ : Body A → (A → Body B) → Body B
  ◌>>=◌ m k f = continue (m f).0 k (m f).1

module _ {B : Type 0} where
  infixl 5 ◌>>◌
  abbrev pub ◌>>◌ : Body (Unit {0}) → Body B → Body B
  m >> n = m >>= λ _. n

module _ {A : Type 0} where
  abbrev pub pure : A → Body A
  pure a f = (goes_on a, f)

  abbrev pub return : Option Failure → Body A
  return e f = (returns e, f)

abbrev pub step : Step → Body (Unit {0})
step s f = (goes_on tt, record f { steps = s ∷ f.steps })

abbrev pub defer : Resource → Body (Unit {0})
defer r f = (goes_on tt, record f { defers = r ∷ f.defers })

-- `if err != nil { return err }`
abbrev pub check : Bool → Failure → Body (Unit {0})
check true e = pure tt
check false e = return (some e)
