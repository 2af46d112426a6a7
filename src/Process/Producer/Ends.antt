-- ===== src/Process/Producer/Ends.antt =====
-- When the producer is closed at the end of the process, and when it is left open.
use linkpulse_link.Base.{
  ◌≡◌, ◌≢◌, ◌↔◌, ◌⊎◌, inl, inr, refl, sym, ap, ◌∙◌, Bool, true, false, not, ◌||◌, Option, none,
  some, List, [], ◌∷◌, arith,
}
use linkpulse_link.Base.Text.{Text}
use linkpulse_link.Link.{Duration}
use linkpulse_link.Base.Int.{pos_part}
use linkpulse_link.Config.Loading.{load-new}
use linkpulse_link.Snowflake.{Generator, new}
use linkpulse_link.Config.{Config, Env, loaded, load}
use linkpulse_link.Process.{
  Resource, pool, redis_client, geoip_reader, auth_client, Step, opens, closes, producer_opens,
  producer_flushes, producer_closes, serves, server_fails, shuts_down, overruns, Failure, Ending,
  serves_on, fails_itself, stopped_in_time, stopped_late, Outside, Frame, Exit, goes_on, returns,
  waits, Body, continue, ◌>>=◌, ◌>>◌, pure, step, defer, check, no_geoip, no_auth_client,
  no_kafka_client, kafka_silent, bad_dsn, no_pool, postgres_silent, redis_silent,
}
use linkpulse_link.Process.Open.{close_producer}
use linkpulse_link.Process.Reasoning.{Safe, next, left, hung}
use linkpulse_link.Process.Run.{
  Geo, App, connect, flush_producer, await_end, close_all, leave, run, fresh_frame,
}
use linkpulse_link.Process.Serving.{trace, IsUp}
use linkpulse_link.Process.Serving.Deciding.{Answers, all_up, connect-Decides}
use linkpulse_link.Process.Serving.Asked.{all_up_iff}
use linkpulse_link.Process.Serving.Starts.{finish, run_by}
use linkpulse_link.Process.Producer.{producer_left}
use linkpulse_link.Process.Producer.Made.{IsMade, HasClicks, connect-IsMade}

close_all-left :
    (rs : List Resource) (steps : List Step)
    → producer_left (close_all rs steps) ≡ producer_left steps
unfolding close_all producer_left
close_all-left [] steps = refl
close_all-left (r ∷ rs) steps = close_all-left rs (closes r ∷ steps)

-- The ends of a serving process that leave the producer open.
abbrev leaves_open : Ending → Bool
leaves_open serves_on = true
leaves_open stopped_late = true
leaves_open fails_itself = false
leaves_open stopped_in_time = false

leaves_open_iff : (e : Ending) → (leaves_open e ≡ true) ↔ ((e ≡ serves_on) ⊎ (e ≡ stopped_late))
leaves_open_iff serves_on = (λ h. inl refl, λ h. refl)
leaves_open_iff stopped_late = (λ h. inr refl, λ h. refl)
leaves_open_iff fails_itself = (λ h. cc, λ h. elim h [ inl e ↦ cc e | inr e ↦ cc e ])
leaves_open_iff stopped_in_time = (λ h. cc, λ h. elim h [ inl e ↦ cc e | inr e ↦ cc e ])

await_end-left :
    (geo : Geo) (ending : Ending) (f : Frame)
    → IsMade f
    → producer_left
        (trace (leave (await_end (some geo) ending f).0 (await_end (some geo) ending f).1))
      ≡ leaves_open ending
unfolding leave await_end flush_producer close_producer trace producer_left
await_end-left geo serves_on f h = h
await_end-left geo fails_itself f h = close_all-left f.defers _
await_end-left geo stopped_in_time f h = close_all-left f.defers _
await_end-left geo stopped_late f h = close_all-left f.defers _ ∙ h

module _ (o : Outside) where
  finish-left :
      (b : Bool) (x : Exit App) (f : Frame)
      → Answers b x f
      → Safe (λ app f. HasClicks app.clicks × IsMade f) IsMade (λ f. ⊥) x f
      → producer_left (trace (finish o x f)) ≡ (not b || leaves_open o.ending)
  unfolding leave trace producer_left
  finish-left b (goes_on app) f (next (h, up)) (next ((geo, has), made)) =
      rw (up, has) (await_end-left geo o.ending (record f { steps = serves ∷ f.steps }) made)
  finish-left b (returns e) f (left (h, down)) (left made) =
      rw down (close_all-left f.defers f.steps ∙ made)
  finish-left b waits f (hung h) made = absurd h

unless_iff :
    {P Q : Type 0} {a : Bool} (b c : Bool)
    → a ≡ (not b || c)
    → (b ≡ true) ↔ P
    → (c ≡ true) ↔ Q
    → (a ≡ true) ↔ (¬ P ⊎ Q)
unless_iff true c e p q = (
  λ h. inr (q.0 (sym e ∙ h)),
  λ h. elim h [ inl not_p ↦ absurd (not_p (p.0 refl)) | inr holds ↦ e ∙ q.1 holds ],
)
unless_iff false c e p q = (λ h. inl λ holds. ground (arith, p.1 holds), λ h. e)

module _ (o : Outside) (parse : Text → Option Duration) (env : Env) where
  run-left :
      (cfg : Config)
      → load parse env ≡ loaded cfg
      → cfg.kafka_brokers ≢ []
      → IsUp (record o { opens_geoip = λ path. true; makes_auth_client = λ addr. true }) cfg
      → producer_left (trace (run o parse env)) ≡ (not (all_up o cfg) || leaves_open o.ending)
  run-left cfg e has_any up =
      ap (λ r. producer_left (trace r)) (run_by o parse env (loaded cfg) e)
      ∙ begun (new (pos_part cfg.worker_id)) (load-new parse env cfg e)
    where
      begun :
          (made : Option Generator)
          → made ≢ none
          → producer_left (
              trace
                (finish o (connect o cfg made fresh_frame).0 (connect o cfg made fresh_frame).1))
            ≡ (not (all_up o cfg) || leaves_open o.ending)
      begun none is_made = absurd (is_made refl)
      begun (some g) is_made =
          finish-left o (all_up o cfg) _ _
            (connect-Decides o cfg g fresh_frame
              (unfold linkpulse_link.Process.Serving.has_served in refl))
            (connect-IsMade o cfg g up has_any fresh_frame tt)

  -- Where the configuration is loaded and names brokers, and the database, Redis and Kafka answer: at
  -- the end of the trace the producer of clicks is still open exactly if the start failed behind
  -- it, at the geo base or at the Auth client, or the process serves on, or Shutdown ran out of time.
  pub run-producer_left_iff :
      (cfg : Config)
      → load parse env ≡ loaded cfg
      → cfg.kafka_brokers ≢ []
      → IsUp (record o { opens_geoip = λ path. true; makes_auth_client = λ addr. true }) cfg
      → (producer_left (trace (run o parse env)) ≡ true)
        ↔ (¬ IsUp o cfg ⊎ ((o.ending ≡ serves_on) ⊎ (o.ending ≡ stopped_late)))
  run-producer_left_iff cfg e has_any up =
      unless_iff (all_up o cfg) (leaves_open o.ending) (run-left cfg e has_any up)
        (all_up_iff o cfg) (leaves_open_iff o.ending)
