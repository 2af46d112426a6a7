-- ===== src/Snowflake/History.antt =====
-- The IDs that exist already, from this generator, from its worker before a restart, and from other
-- workers: a new ID is none of them.
use Prim.Native.Nat.{bit_and}
use linkpulse_link.Base.{
  ℕ, ◌+◌, ◌*◌, ◌<◌, ◌≤◌, ◌≡◌, ◌≢◌, ◌⊎◌, inl, inr, refl, ap, sym, ◌∙◌, [], ◌∷◌, arith, All,
  Bool-cases, Option-cases, some, ◌==◌,
}
use linkpulse_link.Base.Word.{Int64, IsNonneg, add64, slt}
use linkpulse_link.Link.Ports.{fresh, refused, blocks}
use linkpulse_link.Snowflake.{
  Generator, Clock, Call, issued, clock_back, done, spinning, next, IsValid, InRange, decompose,
  stamp, stamp_after, wait_next_millis, max_sequence,
}
use linkpulse_link.Snowflake.Layout.{layout, decompose-layout}
use linkpulse_link.Snowflake.Order.{Advances, position, next-Advances, next-clock_back}
use linkpulse_link.Snowflake.Ids.{Ids, next_reply, reply}

-- An ID carries a time that the generator has read in this call: it is past what all readings are
-- past.
abbrev PastAll : ℕ → Clock → Type 0
PastAll old clock = All (λ r. old < r) clock

module _ (old : ℕ) where
  wait-past :
      (last now : Int64) (clock : Clock) {ms : Int64} {rest : Clock}
      → old < now
      → PastAll old clock
      → wait_next_millis last now clock ≡ some (ms, rest)
      → (old < ms) × PastAll old rest
  unfolding wait_next_millis
  wait-past last now [] hn hc e = ground arith
  wait-past last now (r ∷ clock) hn (hr, hc) e = elim (Bool-cases (slt last now)) [
    | inl past ↦ ground arith
    | inr early ↦ wait-past last r clock hr hc (rw early at e)
  ]

  stamp-past :
      (g : Generator) (ms : Int64) (clock : Clock) {id : Int64} {g' : Generator} {rest : Clock}
      → old < ms
      → PastAll old clock
      → stamp g ms clock ≡ done (issued id) g' rest
      → (old < g'.last_ms) × PastAll old rest
  unfolding stamp
  stamp-past g ms clock hm hc e = ground arith

  stamp_after-past :
      (g : Generator) (last now : Int64) (clock : Clock) {id : Int64} {g' : Generator}
      {rest : Clock}
      → old < now
      → PastAll old clock
      → stamp_after g (wait_next_millis last now clock) ≡ done (issued id) g' rest
      → (old < g'.last_ms) × PastAll old rest
  unfolding stamp_after
  stamp_after-past g last now clock hn hc e =
      elim (Option-cases (wait_next_millis last now clock)) [
        | inl stuck ↦ cc (rw (stuck, stamp_after) at e)
        | inr ((ms, left), found) ↦
            let (hm, hl) = wait-past last now clock hn hc found in
            stamp-past g ms left hm hl (rw (found, stamp_after) at e)
      ]

  next-past :
      (g : Generator) (clock : Clock) {id : Int64} {g' : Generator} {rest : Clock}
      → PastAll old clock
      → next g clock ≡ done (issued id) g' rest
      → (old < g'.last_ms) × PastAll old rest
  unfolding next
  next-past g [] h e = cc
  next-past g (r ∷ clock) (hr, hc) e =
      let bumped = bit_and (add64 g.sequence 1) max_sequence in
      elim (Bool-cases (slt r g.last_ms)) [
        | inl back ↦ cc (rw back at e)
        | inr onward ↦ elim (Bool-cases (r == g.last_ms)) [
          | inl same ↦ elim (Bool-cases (bumped == 0)) [
            | inl full ↦
                stamp_after-past (record g { sequence = bumped }) g.last_ms r clock hr hc
                  (rw (onward, same, full) at e)
            | inr free ↦
                stamp-past (record g { sequence = bumped }) r clock hr hc
                  (rw (onward, same, free) at e)
          ]
          | inr newer ↦
              stamp-past (record g { sequence = 0 }) r clock hr hc (rw (onward, newer) at e)
        ]
      ]

-- An ID that exists already: another worker's, one of this generator, or one of this worker from a
-- time that all its readings to come are past.
pub record IsOld (ids : Ids) (id : Int64) : Type 0 where
  pub ms : Int64
  pub worker : Int64
  pub sequence : Int64
  pub fields : id ≡ layout ms worker sequence
  pub dated : InRange ms
  pub small : worker < 1024
  pub counter : sequence < 4096
  pub gone : (worker ≢ ids.0.worker_id) ⊎ (ms * 4096 + sequence ≤ position ids.0) ⊎ PastAll ms ids.1

pub IsOld-IsNonneg : (ids : Ids) (id : Int64) → IsOld ids id → IsNonneg id
IsOld-IsNonneg ids id h = omega (arith, h.fields, h.dated, h.small, h.counter)

-- A valid generator with readings in range.
pub record IsLive (ids : Ids) : Type 0 where
  pub valid : IsValid ids.0
  pub dated : All InRange ids.1

module _ (g g' : Generator) (clock rest : Clock) (made : Int64) (valid : IsValid g)
    (step : Advances g g' made) (e : next g clock ≡ done (issued made) g' rest) where
  old-stays : (id : Int64) → IsOld (g, clock) id → IsOld (g', rest) id
  old-stays id h = record {
    ms = h.ms;
    worker = h.worker;
    sequence = h.sequence;
    fields = h.fields;
    dated = h.dated;
    small = h.small;
    counter = h.counter;
    gone = elim h.gone [
      | inl other ↦ inl λ same. other (same ∙ step.worker)
      | inr (inl early) ↦ inr (inl (omega (arith, early, step.later)))
      | inr (inr past) ↦ inr (inr (next-past h.ms g clock past e).1)
    ];
  }

  made-old : IsOld (g', rest) made
  made-old = record {
    ms = g'.last_ms;
    worker = g'.worker_id;
    sequence = g'.sequence;
    fields = step.fields;
    dated = step.dated;
    small = step.valid.worker;
    counter = step.valid.counter;
    gone = inr (inl (omega arith));
  }

  made-ne-old : (id : Int64) → IsOld (g, clock) id → id ≢ made
  made-ne-old id h same =
      let parts =
        sym (decompose-layout h.ms h.worker h.sequence h.dated h.small h.counter)
        ∙ ap decompose (sym h.fields ∙ same ∙ step.fields)
        ∙ decompose-layout g'.last_ms g'.worker_id g'.sequence step.dated step.valid.worker
            step.valid.counter in
      elim h.gone [
        | inl other ↦ other (ap (λ p. p.worker_id) parts ∙ step.worker)
        | inr (inl early) ↦
            omega
              (arith, early, step.later, ap (λ p. p.timestamp_ms) parts, ap (λ p. p.sequence) parts)
        | inr (inr past) ↦
            omega (arith, (next-past h.ms g clock past e).0, ap (λ p. p.timestamp_ms) parts)
      ]

-- What a call of the generator does to the IDs that exist.
pub record IsFresh (ids : Ids) (id : Int64) (ids' : Ids) : Type 0 where
  pub differs : (old : Int64) → IsOld ids old → old ≢ id
  pub stays : (old : Int64) → IsOld ids old → IsOld ids' old
  pub counted : IsOld ids' id
  pub live : IsLive ids'

pub record IsKept (ids ids' : Ids) : Type 0 where
  pub stays : (old : Int64) → IsOld ids old → IsOld ids' old
  pub live : IsLive ids'

-- A reading that is used up.
read-kept :
    (g : Generator) (r : Int64) (clock : Clock)
    → IsLive (g, r ∷ clock)
    → IsKept (g, r ∷ clock) (g, clock)
read-kept g r clock live = record {
  stays = λ old h. record {
    ms = h.ms;
    worker = h.worker;
    sequence = h.sequence;
    fields = h.fields;
    dated = h.dated;
    small = h.small;
    counter = h.counter;
    gone = elim h.gone [
      | inl other ↦ inl other
      | inr (inl early) ↦ inr (inl early)
      | inr (inr past) ↦ inr (inr past.1)
    ];
  };
  live = record { valid = live.valid; dated = live.dated.1 };
}

called-cases :
    (g : Generator) (clock : Clock) (c : Call)
    → IsLive (g, clock)
    → next g clock ≡ c
    → ((id : Int64) × ((reply c (g, clock)).0 ≡ fresh id)
        × IsFresh (g, clock) id (reply c (g, clock)).1)
      ⊎ (((reply c (g, clock)).0 ≡ refused) ⊎ ((reply c (g, clock)).0 ≡ blocks))
        × IsKept (g, clock) (reply c (g, clock)).1
unfolding reply
called-cases g clock spinning live e = inr (inr refl, record { stays = λ old h. h; live = live })
called-cases g clock (done (issued id) g' rest) live e =
    let (step, dated) = next-Advances g clock live.valid live.dated e in
    inl (
      id,
      refl,
      record {
        differs = made-ne-old g g' clock rest id live.valid step e;
        stays = old-stays g g' clock rest id live.valid step e;
        counted = made-old g g' clock rest id live.valid step e;
        live = record { valid = step.valid; dated = dated };
      },
    )
called-cases g [] (done (clock_back d) g' rest) live e = unfold next in cc e
called-cases g (r ∷ clock) (done (clock_back d) g' rest) live e =
    let (_, same, left) = next-clock_back g r clock e in
    inr (inl refl, rw (same, left) (read-kept g r clock live))

-- A call of a live generator gives an ID that no old one is, and that is old behind the call; or it
-- gives none. What is old stays old, and the generator stays live.
pub next_reply-cases :
    (ids : Ids)
    → IsLive ids
    → ((id : Int64) × ((next_reply ids).0 ≡ fresh id) × IsFresh ids id (next_reply ids).1)
      ⊎ (((next_reply ids).0 ≡ refused) ⊎ ((next_reply ids).0 ≡ blocks))
        × IsKept ids (next_reply ids).1
unfolding next_reply
next_reply-cases ids live = called-cases ids.0 ids.1 (next ids.0 ids.1) live refl
