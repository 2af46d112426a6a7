-- ===== src/Snowflake/Unique.antt =====
-- The IDs of a generator's whole life: they grow, they name their worker, and no other worker
-- issues one of them.
use linkpulse_link.Base.{
  ℕ, zero, suc, ◌+◌, ◌*◌, ◌<◌, ◌≡◌, ◌≢◌, refl, sym, ◌∙◌, [], ◌∷◌, arith, All, All-mono, ap,
  IsIncreasing,
}
use linkpulse_link.Base.Word.{Int64, IsNonneg}
use linkpulse_link.Snowflake.{
  Generator, Clock, Call, issued, clock_back, done, spinning, next, issue, decompose, IsValid,
  InRange,
}
use linkpulse_link.Snowflake.Layout.{layout, decompose-layout}
use linkpulse_link.Snowflake.Order.{Advances, position, next-Advances, next-clock_back}

-- An ID that a generator in state `g`, or in a later one, may issue.
pub record IsAfter (g : Generator) (id : Int64) : Type 0 where
  pub ms : Int64
  pub sequence : Int64
  pub fields : id ≡ layout ms g.worker_id sequence
  pub dated : InRange ms
  pub counter : sequence < 4096
  pub worker : g.worker_id < 1024
  pub later : position g < ms * 4096 + sequence

Advances-IsAfter : (g g' : Generator) (id : Int64) → IsValid g → Advances g g' id → IsAfter g id
Advances-IsAfter g g' id v a = record {
  ms = g'.last_ms;
  sequence = g'.sequence;
  fields = ground (arith, a.fields, a.worker);
  dated = a.dated;
  counter = a.valid.counter;
  worker = v.worker;
  later = a.later;
}

IsAfter-mono : (g g' : Generator) (id y : Int64) → Advances g g' id → IsAfter g' y → IsAfter g y
IsAfter-mono g g' id y a h = record {
  ms = h.ms;
  sequence = h.sequence;
  fields = ground (arith, h.fields, a.worker);
  dated = h.dated;
  counter = h.counter;
  worker = omega (arith, a.worker, h.worker);
  later = omega (arith, a.later, h.later);
}

Advances-lt : (g g' : Generator) (id y : Int64) → Advances g g' id → IsAfter g' y → id < y
Advances-lt g g' id y a h =
    omega (arith, a.fields, a.valid.counter, a.dated, h.fields, h.dated, h.later)

-- A call of `Next` is done with an ID, done with the error, or not done.
data Outcome (c : Call) : Type 0 where
  gave : (id : Int64) (g : Generator) (rest : Clock) → c ≡ done (issued id) g rest → Outcome c
  refused : (d : Int64) (g : Generator) (rest : Clock) → c ≡ done (clock_back d) g rest → Outcome c
  stays : c ≡ spinning → Outcome c

outcome : (c : Call) → Outcome c
outcome spinning = stays refl
outcome (done (issued id) g rest) = gave id g rest refl
outcome (done (clock_back d) g rest) = refused d g rest refl

module _ (n : ℕ) (g : Generator) (clock : Clock) where
  issue-issued :
      {id : Int64} {g' : Generator} {rest : Clock}
      → next g clock ≡ done (issued id) g' rest
      → issue (suc n) g clock ≡ id ∷ issue n g' rest
  unfolding issue
  issue-issued e = rw (e, issue)

  issue-clock_back :
      {d : Int64} {g' : Generator} {rest : Clock}
      → next g clock ≡ done (clock_back d) g' rest
      → issue (suc n) g clock ≡ issue n g' rest
  unfolding issue
  issue-clock_back e = rw (e, issue)

  issue-spinning : next g clock ≡ spinning → issue (suc n) g clock ≡ []
  unfolding issue
  issue-spinning e = rw (e, issue)

issue-IsAfter :
    (n : ℕ) (g : Generator) (clock : Clock)
    → IsValid g
    → All InRange clock
    → All (IsAfter g) (issue n g clock) × IsIncreasing (issue n g clock)
issue-IsAfter zero g clock v h = unfold issue in (tt, tt)
issue-IsAfter (suc n) g [] v h = rw (issue-spinning n g [] (unfold next in refl)) (tt, tt)
issue-IsAfter (suc n) g (r ∷ clock) v (hr, hc) = elim (outcome (next g (r ∷ clock))) [
  | stays e ↦ rw (issue-spinning n g (r ∷ clock) e) (tt, tt)
  | refused d g' rest e ↦
      let (back, same, left) = next-clock_back g r clock e in
      rw (issue-clock_back n g (r ∷ clock) e, same, left) (issue-IsAfter n g clock v hc)
  | gave id g' rest e ↦
      let (step, all) = next-Advances g (r ∷ clock) v (hr, hc) e in
      let (after, grows) = issue-IsAfter n g' rest step.valid all in
      rw (issue-issued n g (r ∷ clock) e) (
        (Advances-IsAfter g g' id v step, All-mono _ _ (λ y. IsAfter-mono g g' id y step) _ after),
        (All-mono _ _ (λ y. Advances-lt g g' id y step) _ after, grows),
      )
]

-- The IDs that a valid generator issues in its life grow strictly, over any sequence of calls
-- and any readings within 2 ^ 41 milliseconds from the epoch; so no two are the same.
pub issue-IsIncreasing :
    (n : ℕ) (g : Generator) (clock : Clock)
    → IsValid g
    → All InRange clock
    → IsIncreasing (issue n g clock)
issue-IsIncreasing n g clock v h = (issue-IsAfter n g clock v h).1

abbrev pub IsOf : Int64 → Int64 → Type 0
IsOf worker id = (IsNonneg id) × ((decompose id).worker_id ≡ worker)

IsAfter-IsOf : (g : Generator) (id : Int64) → IsAfter g id → IsOf g.worker_id id
IsAfter-IsOf g id h = (
  omega (arith, h.fields, h.dated, h.counter, h.worker),
  rw h.fields (
      ap (λ p. p.worker_id)
        (decompose-layout h.ms g.worker_id h.sequence h.dated h.worker h.counter)),
)

-- Every ID of a valid generator, at readings within 2 ^ 41 milliseconds from the epoch, is
-- nonnegative as an int64 and carries the worker number of the generator.
pub issue-IsOf :
    (n : ℕ) (g : Generator) (clock : Clock)
    → IsValid g
    → All InRange clock
    → All (IsOf g.worker_id) (issue n g clock)
issue-IsOf n g clock v h = All-mono _ _ (IsAfter-IsOf g) _ (issue-IsAfter n g clock v h).0

-- Two valid generators with different worker numbers never issue the same ID, whatever their
-- clocks show within 2 ^ 41 milliseconds from the epoch.
pub issue_disjoint :
    (m n : ℕ) (g g' : Generator) (clock clock' : Clock)
    → IsValid g
    → IsValid g'
    → All InRange clock
    → All InRange clock'
    → g.worker_id ≢ g'.worker_id
    → All (λ x. All (λ y. x ≢ y) (issue n g' clock')) (issue m g clock)
issue_disjoint m n g g' clock clock' v v' h h' differ =
    All-mono _ _
      (λ x of_x.
        All-mono _ _
          (λ y of_y e. differ (sym of_x.1 ∙ ap (λ id. (decompose id).worker_id) e ∙ of_y.1)) _
          (issue-IsOf n g' clock' v' h'))
      _ (issue-IsOf m g clock v h)
