-- ===== src/Snowflake/Early.antt =====
-- `New`, and what a clock that runs before the epoch of 2024 does to `Next`.
use linkpulse_link.Base.{◌+◌, ◌-◌, ◌*◌, ◌^◌, ◌≤◌, ◌<◌, ◌≡◌, ◌↔◌, none, some, [], ◌∷◌, arith}
use linkpulse_link.Base.Word.{Int64, IsInt64, sub64, shl}
use linkpulse_link.Shortcode.{encode}
use linkpulse_link.Shortcode.RoundTrip.{encode-negative}
use linkpulse_link.Snowflake.{Generator, Clock, issued, done, new, pack, next, epoch, IsValid}
use linkpulse_link.Snowflake.Layout.{or_fields}

-- `New` refuses exactly the numbers outside 0..1023; a negative one is a pattern from 2 ^ 63 on.
pub new-eq-none_iff : (worker : Int64) → IsInt64 worker → (new worker ≡ none) ↔ (1024 ≤ worker)
unfolding new
new-eq-none_iff worker h = ground arith

-- What `New` returns is a valid generator of the given worker that has issued nothing.
pub new-IsValid :
    (worker : Int64) {g : Generator}
    → IsInt64 worker
    → new worker ≡ some g
    → IsValid g × (g.worker_id ≡ worker) × (g.last_ms ≡ 0) × (g.sequence ≡ 0)
unfolding new
new-IsValid worker h e = ground arith

pack_early :
    (r w : Int64)
    → r < epoch
    → w < 1024
    → pack r w 0 ≡ (2 ^ 42 + r - epoch) * 2 ^ 22 + w * 2 ^ 12 + 0
unfolding pack
pack_early r w hr hw =
    let time : shl (sub64 r epoch) 22 ≡ (2 ^ 42 + r - epoch) * 2 ^ 22 = omega arith in
    let worker : shl w 12 ≡ w * 2 ^ 12 = omega arith in
    rw (time, worker) (or_fields (2 ^ 42 + r - epoch) w 0 hw (omega arith))

next_early :
    (g : Generator) (r : Int64) (clock : Clock)
    → IsValid g
    → g.last_ms < r
    → r < epoch
    → next g (r ∷ clock)
      ≡ done (issued (pack r g.worker_id 0)) (record g { last_ms = r; sequence = 0 }) clock
unfolding next
next_early g r clock v lt hr = ground arith

-- A new reading before the epoch gives a valid generator no error but a negative ID, and its
-- code is empty.
pub next-negative :
    (g : Generator) (r : Int64) (clock : Clock)
    → IsValid g
    → g.last_ms < r
    → r < epoch
    → (id : Int64) × (g' : Generator) × (next g (r ∷ clock) ≡ done (issued id) g' clock)
      × (2 ^ 63 ≤ id)
      × (encode id ≡ [])
next-negative g r clock v lt hr =
    let negative : 2 ^ 63 ≤ pack r g.worker_id 0 =
      omega (arith, pack_early r g.worker_id hr v.worker) in
    (
      pack r g.worker_id 0,
      record g { last_ms = r; sequence = 0 },
      next_early g r clock v lt hr,
      negative,
      encode-negative _ negative,
    )
