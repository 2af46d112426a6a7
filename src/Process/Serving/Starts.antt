-- ===== src/Process/Serving/Starts.antt =====
-- `run` starts the server exactly where everything answers.
use linkpulse_link.Base.{◌≡◌, Option, some, []}
use linkpulse_link.Base.Text.{Text}
use linkpulse_link.Base.Int.{pos_part}
use linkpulse_link.Link.{Duration}
use linkpulse_link.Snowflake.{new}
use linkpulse_link.Config.{Config, Env, Loaded, loaded, refused, load}
use linkpulse_link.Process.{
  serves, Failure, Outside, Frame, Exit, Body, continue, ◌>>◌, step, bad_config,
}
use linkpulse_link.Process.Run.{
  App, connect, start, await_end, Ended, ended, leave, whole, run, fresh_frame,
}

module _ (o : Outside) where
  abbrev pub rest_of : App → Body (Option Failure)
  rest_of app = do step serves; await_end app.clicks o.ending

  abbrev pub finish : Exit App → Frame → Ended
  finish x f = leave (continue x rest_of f).0 (continue x rest_of f).1

  -- `run` by what `Load` returns.
  abbrev pub run_of : Loaded → Ended
  run_of (loaded cfg) =
      let made = new (pos_part cfg.worker_id) in
      finish (connect o cfg made fresh_frame).0 (connect o cfg made fresh_frame).1
  run_of (refused problems) = ended (some (bad_config problems)) []

  pub run_by :
      (parse : Text → Option Duration) (env : Env) (l : Loaded)
      → load parse env ≡ l
      → run o parse env ≡ run_of l
  unfolding run whole start
  run_by parse env (loaded cfg) e = rw e
  run_by parse env (refused problems) e = rw e
