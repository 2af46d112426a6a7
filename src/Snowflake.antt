-- ===== src/Snowflake.antt =====
-- internal/snowflake/snowflake.go: the ID generator.
-- `g.now().UnixMilli()` is the next entry of a list of clock readings, which the environment
-- chooses. The mutex makes a call of `Next` atomic, so calls from several goroutines are a
-- sequence of calls. A reading list that ends inside a call means that the call has not returned.
pub mod Layout
pub mod Order
pub mod Unique
pub mod Loop
pub mod Early
pub mod Ids
pub mod History
mod Tests
use Prim.Native.Nat.{bit_and, bit_or}
use linkpulse_link.Base.{
  ℕ, zero, suc, ◌+◌, ◌-◌, ◌^◌, ◌≤◌, ◌<◌, ◌||◌, Option, none, some, List, [], ◌∷◌, ◌==◌,
  if◌then◌else◌,
}
use linkpulse_link.Base.Word.{Int64, add64, sub64, slt, shl, sar}

abbrev pub worker_bits : ℕ
worker_bits = 10

abbrev pub sequence_bits : ℕ
sequence_bits = 12

abbrev pub max_worker_id : Int64
max_worker_id = 2 ^ worker_bits - 1

abbrev pub max_sequence : Int64
max_sequence = 2 ^ sequence_bits - 1

abbrev pub worker_shift : ℕ
worker_shift = sequence_bits

abbrev pub timestamp_shift : ℕ
timestamp_shift = sequence_bits + worker_bits

-- 2024-01-01T00:00:00Z in Unix milliseconds.
abbrev pub epoch : Int64
epoch = 1_704_067_200_000

pub record Generator : Type 0 where
  pub worker_id : Int64
  pub last_ms : Int64
  pub sequence : Int64

abbrev pub Clock : Type 0
Clock = List Int64

-- What `Next` returns: an ID, or the error with how far the clock went back.
pub data Reply : Type 0 where
  issued : Int64 → Reply
  clock_back : Int64 → Reply

-- `spinning`: the call has used up the readings and is still in it.
pub data Call : Type 0 where
  done : Reply → Generator → Clock → Call
  spinning : Call

-- `New`; `none` is the error.
unfoldable pub new : Int64 → Option Generator
new worker_id =
    if slt worker_id 0 || slt max_worker_id worker_id
    then none
    else some (record { worker_id = worker_id; last_ms = 0; sequence = 0 })

-- `for nowMs <= g.lastMs { nowMs = … }`, then the readings that are left.
unfoldable pub wait_next_millis : Int64 → Int64 → Clock → Option (Int64 × Clock)
wait_next_millis last_ms now_ms [] = if slt last_ms now_ms then some (now_ms, []) else none
wait_next_millis last_ms now_ms (r ∷ clock) =
    let again = wait_next_millis last_ms r clock in
    if slt last_ms now_ms then some (now_ms, r ∷ clock) else again

-- `((nowMs - epoch) << timestampShift) | (g.workerID << workerShift) | g.sequence`
unfoldable pub pack : Int64 → Int64 → Int64 → Int64
pack now_ms worker_id sequence =
    bit_or (bit_or (shl (sub64 now_ms epoch) timestamp_shift) (shl worker_id worker_shift)) sequence

-- The end of `Next`: store the time, return the ID.
unfoldable pub stamp : Generator → Int64 → Clock → Call
stamp g now_ms clock =
    done (issued (pack now_ms g.worker_id g.sequence)) (record g { last_ms = now_ms }) clock

unfoldable pub stamp_after : Generator → Option (Int64 × Clock) → Call
unfolding stamp
stamp_after g none = spinning
stamp_after g (some (now_ms, clock)) = stamp g now_ms clock

-- `Next`
unfoldable pub next : Generator → Clock → Call
unfolding stamp stamp_after
next g [] = spinning
next g (now_ms ∷ clock) =
    if slt now_ms g.last_ms
    then done (clock_back (sub64 g.last_ms now_ms)) g clock
    else if now_ms == g.last_ms
    then (let bumped = record g { sequence = bit_and (add64 g.sequence 1) max_sequence } in
        if bumped.sequence == 0
        then stamp_after bumped (wait_next_millis bumped.last_ms now_ms clock)
        else stamp bumped now_ms clock)
    else stamp (record g { sequence = 0 }) now_ms clock

-- `n` calls of `Next` one after another: the IDs of those that returned one. A caller that gets
-- the error goes on without an ID; a call that does not return blocks all later ones.
unfoldable pub issue : ℕ → Generator → Clock → List Int64
issue zero g clock = []
issue (suc n) g clock = elim (next g clock) [
  | spinning ↦ []
  | done (clock_back _) g' clock' ↦ issue n g' clock'
  | done (issued id) g' clock' ↦ id ∷ issue n g' clock'
]

pub record Parts : Type 0 where
  pub timestamp_ms : Int64
  pub worker_id : Int64
  pub sequence : Int64

-- `Decompose`
unfoldable pub decompose : Int64 → Parts
decompose id = record {
  timestamp_ms = add64 (sar id timestamp_shift) epoch;
  worker_id = bit_and (sar id worker_shift) max_worker_id;
  sequence = bit_and id max_sequence;
}

-- What holds between two calls.
pub record IsValid (g : Generator) : Type 0 where
  pub worker : g.worker_id < 1024
  pub last : g.last_ms < 2 ^ 63
  pub counter : g.sequence < 4096

-- The readings whose distance from the epoch fits 41 bits: from 2024 on for 69 years.
abbrev pub InRange : Int64 → Type 0
InRange ms = (epoch ≤ ms) × (ms < epoch + 2 ^ 41)
