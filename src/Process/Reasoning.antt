-- ===== src/Process/Reasoning.antt =====
-- What holds behind a statement of a Go function: where it goes on, where it returns, and where it
-- is not through.
use linkpulse_link.Base.{Bool, true, false, Option}
use linkpulse_link.Process.{
  Failure, Frame, Exit, goes_on, returns, waits, Body, continue, ◌>>=◌, pure, check,
}

pub data Safe {A : Type 0} (Next : A → Frame → Type 0) (Left Hung : Frame → Type 0)
    : Exit A → Frame → Type 0 where
  next : {a : A} {f : Frame} → Next a f → Safe Next Left Hung (goes_on a) f
  left : {e : Option Failure} {f : Frame} → Left f → Safe Next Left Hung (returns e) f
  hung : {f : Frame} → Hung f → Safe Next Left Hung waits f

module _ (Left Hung : Frame → Type 0) where
  -- The value that a statement goes on with is among what is known behind it.
  abbrev pub Yields : {A : Type 0} → (Frame → Type 0) → Body A → (A → Frame → Type 0) → Type 0
  Yields Pre m Next = (f : Frame) → Pre f → Safe Next Left Hung (m f).0 (m f).1

  abbrev pub Keeps : {A : Type 0} → (Frame → Type 0) → Body A → (Frame → Type 0) → Type 0
  Keeps Pre m Next = Yields Pre m (λ _. Next)

module _ {Left Hung : Frame → Type 0} where
  continue-safe :
      {A B : Type 0} {Mid : A → Frame → Type 0} {Next : B → Frame → Type 0} (x : Exit A)
      (k : A → Body B) (f : Frame)
      → Safe Mid Left Hung x f
      → ((a : A) → Yields Left Hung (Mid a) (k a) Next)
      → Safe Next Left Hung (continue x k f).0 (continue x k f).1
  continue-safe (goes_on a) k f (next h) rest = rest a f h
  continue-safe (returns e) k f (left h) rest = left h
  continue-safe waits k f (hung h) rest = hung h

  pub bind-keeps :
      {A B : Type 0} {Pre : Frame → Type 0} {Mid : A → Frame → Type 0} {Next : B → Frame → Type 0}
      (m : Body A) (k : A → Body B)
      → Yields Left Hung Pre m Mid
      → ((a : A) → Yields Left Hung (Mid a) (k a) Next)
      → Yields Left Hung Pre (m >>= k) Next
  bind-keeps m k first rest f h = continue-safe (m f).0 k (m f).1 (first f h) rest

  pub pure-keeps : {A : Type 0} {Pre : Frame → Type 0} (a : A) → Keeps Left Hung Pre (pure a) Pre
  pure-keeps a f h = next h

  pub check-keeps :
      {Pre : Frame → Type 0} (b : Bool) (e : Failure)
      → ((f : Frame) → Pre f → Left f)
      → Keeps Left Hung Pre (check b e) Pre
  check-keeps true e leavable f h = next h
  check-keeps false e leavable f h = left (leavable f h)
