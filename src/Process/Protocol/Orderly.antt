-- ===== src/Process/Protocol/Orderly.antt =====
-- `run` follows the protocol from its first step to the last deferred call.
use linkpulse_link.Base.{Option, none, some, List, [], ◌∷◌}
use linkpulse_link.Base.Text.{Text}
use linkpulse_link.Link.{Duration}
use linkpulse_link.Config.{Env}
use linkpulse_link.Process.{
  Resource, Step, closes, serves, Failure, Ending, serves_on, fails_itself, stopped_in_time,
  stopped_late, Outside, Frame, Exit, goes_on, returns, waits, ◌>>◌, step, return, server_error,
}
use linkpulse_link.Process.Run.{Geo, flush_producer, await_end, close_all, leave, whole, run}
use linkpulse_link.Process.Reasoning.{Safe, next, left, hung, bind-keeps}
use linkpulse_link.Process.Protocol.{
  Phase, starting, running, stopped, closing, MayClose, unflushed, torn_down, Follows, begun,
  served, failed, shut, overrun, flushed_clicks, producer_closed, closed, At, Leavable, Obeys,
  IsOrderly,
}
use linkpulse_link.Process.Protocol.Starting.{start-keeps}

-- The end, whose statements all return.
module _ (e : Option Failure) where
  flush_producer-keeps :
      (clicks : Option Geo)
      → Obeys (At stopped) (do flush_producer clicks; return {A = Option Failure} e) Leavable
  unfolding flush_producer
  flush_producer-keeps none f h = left (stopped, unflushed, h)
  flush_producer-keeps (some geo) f h =
      left (closing, torn_down, producer_closed (flushed_clicks h))

await_end-keeps :
    (clicks : Option Geo) (ending : Ending) → Obeys (At running) (await_end clicks ending) Leavable
unfolding await_end
await_end-keeps clicks serves_on f h = hung h
await_end-keeps clicks fails_itself f h =
    flush_producer-keeps (some server_error) clicks _ (failed h)
await_end-keeps clicks stopped_in_time f h = flush_producer-keeps none clicks _ (shut h)
await_end-keeps clicks stopped_late f h = left (closing, torn_down, overrun h)

serve-keeps : Obeys (At starting) (step serves) (At running)
serve-keeps f h = next (served h)

close_all-Follows :
    (rs : List Resource) (steps : List Step) (p : Phase)
    → MayClose p
    → Follows steps p rs
    → (q : Phase) × MayClose q × Follows (close_all rs steps) q []
unfolding close_all
close_all-Follows [] steps p may h = (p, may, h)
close_all-Follows (r ∷ rs) steps p may h =
    close_all-Follows rs (closes r ∷ steps) closing torn_down (closed may h)

leave-IsOrderly :
    (x : Exit (Option Failure)) (f : Frame)
    → Safe (λ _. Leavable) Leavable (At running) x f
    → IsOrderly (leave x f)
unfolding leave IsOrderly
leave-IsOrderly (goes_on e) f (next (p, may, h)) = close_all-Follows f.defers f.steps p may h
leave-IsOrderly (returns e) f (left (p, may, h)) = close_all-Follows f.defers f.steps p may h
leave-IsOrderly waits f (hung h) = (f.defers, h)

module _ (o : Outside) (parse : Text → Option Duration) (env : Env) where
  whole-keeps : Obeys (At starting) (whole o parse env) Leavable
  unfolding whole
  whole-keeps =
      bind-keeps _ _ (start-keeps o parse env)
        λ app. bind-keeps _ _ serve-keeps λ _. await_end-keeps app.clicks o.ending

  -- Whatever the outside answers, the trace of `run` follows the protocol: each resource is closed
  -- once, in the reverse order of the opening, and not while the server runs; clicks are flushed
  -- only behind the end of the server and before anything is closed. When `run` has returned,
  -- no resource with a deferred Close is open; until then the server runs.
  pub run-IsOrderly : IsOrderly (run o parse env)
  unfolding run
  run-IsOrderly = leave-IsOrderly _ _ (whole-keeps _ begun)
