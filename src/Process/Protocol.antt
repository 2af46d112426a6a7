-- ===== src/Process/Protocol.antt =====
-- The protocol of a start and of a shutdown, as a state machine over traces.
pub mod Starting
pub mod Orderly
use linkpulse_link.Base.{List, [], ◌∷◌}
use linkpulse_link.Process.{
  Resource, Step, opens, closes, producer_opens, producer_flushes, producer_closes, serves,
  server_fails, shuts_down, overruns, Frame, Body, step, return,
}
use linkpulse_link.Process.Run.{Ended, ended, serving}
use linkpulse_link.Process.Reasoning.{Keeps}

-- `stopped` is behind the end of the server, `flushed` behind the flush of the clicks.
pub data Phase : Type 0 where
  starting running stopped flushed closing : Phase

-- Where a resource may be closed: not while the server runs, and not between the flush of the
-- clicks and the end of the producer.
pub data MayClose : Phase → Type 0 where
  failed_start : MayClose starting
  unflushed : MayClose stopped
  torn_down : MayClose closing

-- The traces of the protocol, the newest step first, with the phase that they end in and the
-- resources that are open, the last one first.
pub data Follows : List Step → Phase → List Resource → Type 0 where
  begun : Follows [] starting []
  opened :
      {steps : List Step} {rs : List Resource}
      → (r : Resource) → Follows steps starting rs
      → Follows (opens r ∷ steps) starting (r ∷ rs)
  producer_opened :
      {steps : List Step} {rs : List Resource}
      → Follows steps starting rs
      → Follows (producer_opens ∷ steps) starting rs
  producer_dropped :
      {steps : List Step} {rs : List Resource}
      → Follows steps starting rs
      → Follows (producer_closes ∷ steps) closing rs
  served :
      {steps : List Step} {rs : List Resource}
      → Follows steps starting rs
      → Follows (serves ∷ steps) running rs
  failed :
      {steps : List Step} {rs : List Resource}
      → Follows steps running rs
      → Follows (server_fails ∷ steps) stopped rs
  shut :
      {steps : List Step} {rs : List Resource}
      → Follows steps running rs
      → Follows (shuts_down ∷ steps) stopped rs
  overrun :
      {steps : List Step} {rs : List Resource}
      → Follows steps running rs
      → Follows (overruns ∷ steps) closing rs
  flushed_clicks :
      {steps : List Step} {rs : List Resource}
      → Follows steps stopped rs
      → Follows (producer_flushes ∷ steps) flushed rs
  producer_closed :
      {steps : List Step} {rs : List Resource}
      → Follows steps flushed rs
      → Follows (producer_closes ∷ steps) closing rs
  closed :
      {steps : List Step} {rs : List Resource} {p : Phase} {r : Resource}
      → MayClose p
      → Follows steps p (r ∷ rs)
      → Follows (closes r ∷ steps) closing rs

-- What is open is what the deferred calls close.
abbrev pub At : Phase → Frame → Type 0
At p f = Follows f.steps p f.defers

abbrev pub Leavable : Frame → Type 0
Leavable f = (p : Phase) × MayClose p × At p f

-- A statement that may only return where what is open may be closed, and only hang while the server
-- runs.
abbrev pub Obeys : {A : Type 0} → (Frame → Type 0) → Body A → (Frame → Type 0) → Type 0
Obeys Pre m Next = Keeps Leavable (At running) Pre m Next

-- What the protocol asks of a process: one that has returned has left nothing open that is closed by
-- a deferred call.
unfoldable pub IsOrderly : Ended → Type 0
IsOrderly (ended e steps) = (p : Phase) × MayClose p × Follows steps p []
IsOrderly (serving steps) = (rs : List Resource) × Follows steps running rs
