-- ===== src/Lib.antt =====
-- The link service of linkpulse-link: it shortens URLs, redirects short codes, and publishes clicks.
--
-- The parts, and how they work together. A request comes in through the middleware and the mux
-- (HttpApi). A creation goes through the service (Link.Service), which validates the URL
-- (Link.Validate), draws an ID (Snowflake), encodes it (Shortcode), stores the link (Repository) and
-- warms the cache (Cache). A redirect asks the cache, then the repository; behind the response it
-- builds a click event and publishes it (Clicks). The process (Process) reads the configuration
-- (Config), opens the connections, puts the parts together, serves, and shuts down.
--
-- The files, and the code that they model:
--   Snowflake    internal/snowflake/snowflake.go: `next` is Next, `wait_next_millis` its loop, `new`
--                is New, `decompose` is Decompose. A Generator is the state behind the mutex, and
--                `issue` is a sequence of calls. Snowflake.Ids is the generator as an IDGenerator.
--   Shortcode    internal/shortcode/base62.go: `encode`, `decode`.
--   Link         internal/link/link.go. Link.Validate is validate.go; Link.Ports has the interfaces of
--                service.go with the laws that an implementation owes; Link.Service has Create,
--                Resolve, ListByUser, ShortURL and cacheTTLFor as `create`, `resolve`, `list_by_user`,
--                `short_url` and `cache_ttl_for`. Link.Action is the monad of these methods.
--   Repository   internal/repository/postgres.go; Repository.Sql gives the SELECT of ListByUser its
--                meaning, `IsTable` the table of migrations/000001_create_links.up.sql.
--   Cache        internal/cache/redis.go: `get`, `set`.
--   Clicks       internal/clicks/builder.go: `build`, `client_ip`, `hash_ip`. Clicks.Producer is
--                producer.go: `publish` is Publish, `on_called` its promise, `close` is Close;
--                Clicks.Geo is geoip.go.
--   HttpApi      internal/httpapi: HttpApi.Handlers is handlers.go, HttpApi.Middleware middleware.go,
--                HttpApi.Router router.go; the other files below HttpApi hold theorems.
--   Authclient   internal/authclient/client.go: `validate`.
--   Config       internal/config/config.go: `load`.
--   Process      cmd/link/main.go: Process.Run has `run` as a trace of steps, with its early returns,
--                its deferred calls and its `select`; Process.Open has the constructors of
--                internal/repository, cache, clicks and authclient that open a connection;
--                Process.Wiring is what `run` makes of the parts.
--   Base, Net, Strconv, Http hold what the parts share: the numbers and texts of Go, and the parts of
--                its standard library that the program calls.
--
-- State. A method of the service is a function from a World (the states of the repository, the cache
-- and the generator, and the warnings) to a result and a World; what was written before an error
-- stays written. A handler maps a request, a response writer and a Site to a Flow, a writer and a
-- Site: it returns, panics, or has not returned. Concurrent requests are sequences of calls; each
-- call of a dependency may fail at any time, and a write that reports an error may have taken
-- effect. An int64 is its bit pattern, a number below 2 ^ 64, with the wrap-around written out. An
-- instant is an integer of nanoseconds, and each reading of a clock is an argument. The call of `run`
-- is a Frame: the steps that it has taken and the calls that it has deferred; what the outside answers
-- is an argument. The client of Kafka calls its promises between two calls or during a flush.
--
-- Bounds and fuel. The swaps of Encode run on the length of the buffer, and each brings the indices
-- closer; its digits run on the well-founded order of the numbers. FormatInt has twenty digits of
-- fuel, above the nineteen of an int64. The wait of Next runs over the list of readings: at its end
-- the call has not returned.
--
-- Parameters, as code of other libraries: the pool of Postgres, the client of Redis, the validator of
-- tokens, the JSON codec, url.Parse, the Location header of http.Redirect, SHA-256, IP.String,
-- time.ParseDuration, the MaxMind reader, proto.Marshal, the client of Kafka, and what opening and
-- testing a connection answers. Repository.Memory and Cache.Memory are concrete instances of the
-- first two; Clicks.Producer.Tests has one of the client of Kafka.
--
-- The lifetime of an entry of the cache is stated against a clock of the cache (`IsTimed`), and `lag`
-- bounds by how much this clock runs behind the readings of the service.
--
-- Not modelled: `main`, which logs the error of `run` and exits; contexts, deadlines and durations; the
-- log of cmd/link/main.go; the Close and Ping methods that only hand a call on; the bytes of JSON
-- bodies; and of the mux the cleaning and unescaping of paths.
pub mod Base
pub mod Snowflake
pub mod Shortcode
pub mod Net
pub mod Link
pub mod Repository
pub mod Cache
pub mod Strconv
pub mod Http
pub mod Clicks
pub mod HttpApi
pub mod Authclient
pub mod Config
pub mod Process
