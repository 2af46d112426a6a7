-- ===== src/Process/Serving/Result.antt =====
-- When `run` returns nil.
use mathlib.Core.Path.{subst}
use linkpulse_link.Base.{
  ◌≡◌, ◌≢◌, ◌↔◌, refl, sym, ap, ◌∙◌, Bool, true, false, ◌&&◌, Option, none, some, List, ◌∷◌, arith,
}
use linkpulse_link.Base.Text.{Text}
use linkpulse_link.Base.Int.{pos_part}
use linkpulse_link.Link.{Duration}
use linkpulse_link.Snowflake.{Generator, new}
use linkpulse_link.Config.{Config, Env, Loaded, loaded, refused, load}
use linkpulse_link.Config.Loading.{load-new}
use linkpulse_link.Process.{
  Step, serves, Ending, serves_on, fails_itself, stopped_in_time, stopped_late, Outside, Frame,
  Exit, goes_on, returns, waits,
}
use linkpulse_link.Process.Open.{close_producer}
use linkpulse_link.Process.Reasoning.{next, left, hung}
use linkpulse_link.Process.Run.{
  Geo, App, connect, flush_producer, await_end, Ended, ended, serving, leave, run, fresh_frame,
}
use linkpulse_link.Process.Serving.{has_served, IsUp}
use linkpulse_link.Process.Serving.Deciding.{Answers, all_up, connect-Decides}
use linkpulse_link.Process.Serving.Asked.{all_up_iff}
use linkpulse_link.Process.Serving.Starts.{finish, run_of, run_by}
use linkpulse_link.Process.Serving.Blame.{connect-Blames}

abbrev is_clean : Ended → Bool
is_clean (ended none steps) = true
is_clean (ended (some e) steps) = false
is_clean (serving steps) = false

is_clean_iff : (r : Ended) → (is_clean r ≡ true) ↔ ((steps : List Step) × (r ≡ ended none steps))
is_clean_iff (ended none steps) = (λ h. (steps, refl), λ h. refl)
is_clean_iff (ended (some e) steps) = (λ h. cc, λ (steps, h). cc)
is_clean_iff (serving steps) = (λ h. cc, λ (steps, h). cc)

abbrev in_time : Ending → Bool
in_time stopped_in_time = true
in_time serves_on = false
in_time fails_itself = false
in_time stopped_late = false

in_time_iff : (e : Ending) → (in_time e ≡ true) ↔ (e ≡ stopped_in_time)
in_time_iff stopped_in_time = (λ h. refl, λ h. refl)
in_time_iff serves_on = (λ h. cc, λ h. cc)
in_time_iff fails_itself = (λ h. cc, λ h. cc)
in_time_iff stopped_late = (λ h. cc, λ h. cc)

await_end-clean :
    (clicks : Option Geo) (e : Ending) (f : Frame)
    → is_clean (leave (await_end clicks e f).0 (await_end clicks e f).1) ≡ in_time e
unfolding leave await_end flush_producer close_producer
await_end-clean clicks serves_on f = refl
await_end-clean none fails_itself f = refl
await_end-clean (some geo) fails_itself f = refl
await_end-clean none stopped_in_time f = refl
await_end-clean (some geo) stopped_in_time f = refl
await_end-clean clicks stopped_late f = refl

module _ (o : Outside) where
  finish-clean :
      (b : Bool) (x : Exit App) (f : Frame)
      → Answers b x f
      → x ≢ returns none
      → is_clean (finish o x f) ≡ (b && in_time o.ending)
  unfolding leave
  finish-clean b (goes_on app) f (next (h, up)) blames =
      rw up (await_end-clean app.clicks o.ending (record f { steps = serves ∷ f.steps }))
  finish-clean b (returns none) f (left (h, down)) blames = absurd (blames refl)
  finish-clean b (returns (some e)) f (left (h, down)) blames = rw down refl
  finish-clean b waits f (hung h) blames = absurd h

  begun-clean :
      (cfg : Config) (made : Option Generator)
      → made ≢ none
      → is_clean (finish o (connect o cfg made fresh_frame).0 (connect o cfg made fresh_frame).1)
        ≡ (all_up o cfg && in_time o.ending)
  begun-clean cfg none is_made = absurd (is_made refl)
  begun-clean cfg (some g) is_made =
      finish-clean (all_up o cfg) _ _
        (connect-Decides o cfg g fresh_frame (unfold has_served in refl))
        (connect-Blames o cfg g fresh_frame).told

  clean_by :
      (parse : Text → Option Duration) (env : Env) (l : Loaded)
      → load parse env ≡ l
      → (is_clean (run_of o l) ≡ true)
        ↔ ((cfg : Config) × (l ≡ loaded cfg) × IsUp o cfg × (o.ending ≡ stopped_in_time))
  clean_by parse env (loaded cfg) e =
      let same = begun-clean cfg (new (pos_part cfg.worker_id)) (load-new parse env cfg e) in
      (
        λ h.
            let both : all_up o cfg && in_time o.ending ≡ true = sym same ∙ h in
            (
              cfg,
              refl,
              (all_up_iff o cfg).0 (ground arith),
              (in_time_iff o.ending).0 (ground arith),
            ),
        λ (cfg', e', up, stopped).
            let alike : cfg' ≡ cfg = cc e' in
            let a = (all_up_iff o cfg).1 (subst (IsUp o) alike up) in
            let t = (in_time_iff o.ending).1 stopped in same ∙ ground arith,
      )
  clean_by parse env (refused problems) e = (λ h. cc, λ (cfg, e', up, stopped). cc)

module _ (o : Outside) (parse : Text → Option Duration) (env : Env) where
  -- `run` returns nil exactly if the configuration is loaded, everything that it asks for answers, and
  -- the process is told to stop and stops in time. In every other case `run` returns an error, or
  -- the process serves on.
  pub run-clean_iff :
      ((steps : List Step) × (run o parse env ≡ ended none steps))
      ↔ ((cfg : Config) × (load parse env ≡ loaded cfg) × IsUp o cfg × (o.ending ≡ stopped_in_time))
  run-clean_iff =
      let same = run_by o parse env (load parse env) refl in
      let by = clean_by o parse env (load parse env) refl in
      let clean = is_clean_iff (run o parse env) in
      (λ h. by.0 (ap is_clean (sym same) ∙ clean.1 h), λ h. clean.0 (ap is_clean same ∙ by.1 h))
