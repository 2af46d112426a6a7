-- ===== src/Snowflake/Order.antt =====
-- What one call of `Next` does to the generator, on the branch with an ID and on the error.
use Prim.Native.Nat.{bit_and}
use linkpulse_link.Base.{
  ℕ, ◌+◌, ◌-◌, ◌*◌, ◌%◌, ◌<◌, ◌≡◌, ◌↔◌, ◌≢◌, true, Option, none, some, [], ◌∷◌, arith, All,
  Bool-cases, Option-cases, inl, inr, ◌==◌,
}
use linkpulse_link.Base.Word.{Int64, IsNonneg, add64, slt, slt-nonneg}
use linkpulse_link.Base.Bits.{bit_and_mask}
use linkpulse_link.Snowflake.{
  Generator, Clock, issued, clock_back, done, wait_next_millis, stamp, stamp_after, next, IsValid,
  max_sequence, InRange,
}
use linkpulse_link.Snowflake.Layout.{layout, pack-layout}

-- The pair of time and sequence as one number, which grows with every ID.
abbrev pub position : Generator → ℕ
position g = g.last_ms * 4096 + g.sequence

-- A step from `g` to `g'` that issues `id`.
pub record Advances (g g' : Generator) (id : Int64) : Type 0 where
  pub fields : id ≡ layout g'.last_ms g'.worker_id g'.sequence
  pub valid : IsValid g'
  pub worker : g'.worker_id ≡ g.worker_id
  pub later : position g < position g'
  pub dated : InRange g'.last_ms

-- The wait ends at a reading past the last stored time.
wait_sound :
    (last now : Int64) (clock : Clock) {ms : Int64} {rest : Clock}
    → IsNonneg last
    → InRange now
    → All InRange clock
    → wait_next_millis last now clock ≡ some (ms, rest)
    → (last < ms) × InRange ms × All InRange rest
unfolding wait_next_millis
wait_sound last now [] hl hn hc e = ground (arith, slt-nonneg last now)
wait_sound last now (r ∷ clock) hl hn (hr, hc) e = elim (Bool-cases (slt last now)) [
  | inl past ↦ ground (arith, slt-nonneg last now)
  | inr early ↦ wait_sound last r clock hl hr hc (rw early at e)
]

stamp-Advances :
    (g : Generator) (s ms : Int64) (clock : Clock) {id : Int64} {g' : Generator} {rest : Clock}
    → IsValid g
    → s < 4096
    → InRange ms
    → position g < ms * 4096 + s
    → stamp (record g { sequence = s }) ms clock ≡ done (issued id) g' rest
    → Advances g g' id × (rest ≡ clock)
unfolding stamp
stamp-Advances g s ms clock v hs hm lt e = ground (arith, pack-layout ms g.worker_id s)

abbrev bumped : Generator → Int64
bumped g = bit_and (add64 g.sequence 1) max_sequence

bumped_lem : (g : Generator) → IsValid g → bumped g ≡ (g.sequence + 1) % 4096
bumped_lem g v = omega (arith, bit_and_mask 12 (add64 g.sequence 1))

-- Sequence exhausted: the ID is of a later millisecond, so any sequence number will do.
rollover-Advances :
    (g : Generator) (s now : Int64) (clock : Clock) {id : Int64} {g' : Generator} {rest : Clock}
    → IsValid g
    → s < 4096
    → InRange now
    → All InRange clock
    → stamp_after (record g { sequence = s }) (wait_next_millis g.last_ms now clock)
      ≡ done (issued id) g' rest
    → Advances g g' id × All InRange rest
unfolding stamp_after
rollover-Advances g s now clock v hs hn hc e =
    elim (Option-cases (wait_next_millis g.last_ms now clock)) [
      | inl stuck ↦ ground arith
      | inr ((ms, left), found) ↦
          let (past, dated, all) = wait_sound g.last_ms now clock v.last hn hc found in
          let (step, same) =
            stamp-Advances g s ms left v hs dated (ground (arith, v.counter))
              (rw (found, stamp_after) at e) in
          (step, rw same all)
    ]

-- Every ID that `Next` returns, from a valid generator and readings within 2 ^ 41 milliseconds
-- from the epoch, carries the new time, the worker and the new sequence number; the generator
-- stays valid, and the pair of time and sequence number has grown.
pub next-Advances :
    (g : Generator) (clock : Clock) {id : Int64} {g' : Generator} {rest : Clock}
    → IsValid g
    → All InRange clock
    → next g clock ≡ done (issued id) g' rest
    → Advances g g' id × All InRange rest
unfolding next
next-Advances g [] v h e = cc
next-Advances g (r ∷ clock) v (hr, hc) e = elim (Bool-cases (slt r g.last_ms)) [
  | inl back ↦ ground arith
  | inr onward ↦ elim (Bool-cases (r == g.last_ms)) [
    | inl same ↦ elim (Bool-cases (bumped g == 0)) [
      | inl full ↦
          rollover-Advances g (bumped g) r clock v (omega (arith, bumped_lem g v)) hr hc
            (rw (onward, same, full) at e)
      | inr free ↦
          let (step, same_rest) =
            stamp-Advances g (bumped g) r clock v (omega (arith, bumped_lem g v)) hr
              (ground (arith, bumped_lem g v)) (rw (onward, same, free) at e) in
          (step, rw same_rest hc)
    ]
    | inr newer ↦
        let (step, same_rest) =
          stamp-Advances g 0 r clock v (omega arith) hr (ground (arith, slt-nonneg r g.last_ms))
            (rw (onward, newer) at e) in
        (step, rw same_rest hc)
  ]
]

rollover-ne-clock_back :
    (g : Generator) (o : Option (Int64 × Clock)) {d : Int64} {g' : Generator} {rest : Clock}
    → stamp_after g o ≢ done (clock_back d) g' rest
unfolding stamp_after stamp
rollover-ne-clock_back g none = cc
rollover-ne-clock_back g (some (ms, left)) = cc

pub next-clock_back :
    (g : Generator) (r : Int64) (clock : Clock) {d : Int64} {g' : Generator} {rest : Clock}
    → next g (r ∷ clock) ≡ done (clock_back d) g' rest
    → (slt r g.last_ms ≡ true) × (g' ≡ g) × (rest ≡ clock)
unfolding next
next-clock_back g r clock e =
    unfold stamp in
    ground (
      arith,
      rollover-ne-clock_back (record g { sequence = bumped g })
          (wait_next_millis g.last_ms r clock),
    )

-- A valid generator returns the error exactly when the reading is before the stored time. The
-- error says how far, leaves the generator as it was, and has used up this one reading.
pub next-clock_back_iff :
    (g : Generator) (r : Int64) (clock : Clock)
    → IsValid g
    → IsNonneg r
    → (r < g.last_ms)
      ↔ ((d : Int64) × (next g (r ∷ clock) ≡ done (clock_back d) g clock) × (d + r ≡ g.last_ms))
unfolding next
next-clock_back_iff g r clock v h = (
  λ lt. (g.last_ms - r, ground (arith, slt-nonneg r g.last_ms), omega arith),
  λ back. ground (arith, slt-nonneg r g.last_ms, (next-clock_back g r clock back.1).0),
)
