-- ===== src/Snowflake/Tests.antt =====
-- Runs of the generator and its theorems at concrete clocks.
use linkpulse_link.Base.{
  ◌+◌, ◌-◌, ◌*◌, ◌^◌, ◌≤◌, ◌<◌, ◌≡◌, ◌≢◌, ◌↔◌, refl, [], ◌∷◌, ◌++◌, arith, All, IsIncreasing,
}
use linkpulse_link.Base.Word.{Int64}
use linkpulse_link.Shortcode.{encode}
use linkpulse_link.Snowflake.{
  Generator, Clock, issued, clock_back, done, spinning, pack, wait_next_millis, next, issue,
  decompose, epoch, InRange,
}
use linkpulse_link.Snowflake.Layout.{decompose-pack}
use linkpulse_link.Snowflake.Order.{Advances, next-Advances, next-clock_back_iff}
use linkpulse_link.Snowflake.Unique.{issue-IsIncreasing, IsOf, issue-IsOf, issue_disjoint}
use linkpulse_link.Snowflake.Loop.{next-ne-spinning}
use linkpulse_link.Snowflake.Early.{next-negative}

abbrev fresh : Int64 → Generator
fresh w = record { worker_id = w; last_ms = 0; sequence = 0 }

abbrev day : Int64
day = epoch + 86_400_000

-- A generator that has used up the millisecond `day`.
abbrev full : Generator
full = record { worker_id = 7; last_ms = day; sequence = 4095 }

abbrev readings : Clock
readings = day ∷ day ∷ (day + 5) ∷ (day + 4) ∷ (day + 6) ∷ []

next_runs :
    (next (fresh 1) (day ∷ [])
      ≡ done (issued (86_400_000 * 2 ^ 22 + 4096)) (record (fresh 1) { last_ms = day }) [])
    × (next full (day ∷ day ∷ (day + 1) ∷ [])
        ≡ done
            (issued (86_400_001 * 2 ^ 22 + 7 * 4096))
            (record { worker_id = 7; last_ms = day + 1; sequence = 0 })
            [])
    × (next full (day ∷ day ∷ []) ≡ spinning)
    × (next full ((day - 3) ∷ []) ≡ done (clock_back 3) full [])
unfolding next pack wait_next_millis
next_runs = (refl, refl, refl, refl)

issue_runs :
    issue 9 (fresh 1) readings
    ≡ (86_400_000 * 2 ^ 22 + 4096)
      ∷ (86_400_000 * 2 ^ 22 + 4097)
      ∷ (86_400_005 * 2 ^ 22 + 4096)
      ∷ (86_400_006 * 2 ^ 22 + 4096)
      ∷ []
unfolding issue next pack wait_next_millis
issue_runs = refl

decompose-pack_example :
    decompose (pack day 7 3) ≡ record { timestamp_ms = day; worker_id = 7; sequence = 3 }
decompose-pack_example = decompose-pack day 7 3 (omega arith) (omega arith) (omega arith)

next-Advances_run :
    Advances (fresh 1) (record (fresh 1) { last_ms = day }) (86_400_000 * 2 ^ 22 + 4096)
    × All InRange []
next-Advances_run = next-Advances (fresh 1) (day ∷ []) (omega arith) (omega arith) next_runs.0

next-clock_back_iff_run : (day - 3 < day) ↔ (
    (d : Int64) × (next full ((day - 3) ∷ []) ≡ done (clock_back d) full [])
    × (d + (day - 3) ≡ day))
next-clock_back_iff_run = next-clock_back_iff full (day - 3) [] (omega arith) (omega arith)

issue-IsIncreasing_example : IsIncreasing (issue 9 (fresh 1) readings)
issue-IsIncreasing_example = issue-IsIncreasing 9 (fresh 1) readings (omega arith) (omega arith)

issue-IsOf_run : All (IsOf 1) (issue 9 (fresh 1) readings)
issue-IsOf_run = issue-IsOf 9 (fresh 1) readings (omega arith) (omega arith)

issue_disjoint_example :
    All (λ x. All (λ y. x ≢ y) (issue 9 (fresh 2) readings)) (issue 9 (fresh 1) readings)
issue_disjoint_example =
    issue_disjoint 9 9 (fresh 1) (fresh 2) readings readings (omega arith) (omega arith)
      (omega arith) (omega arith) (omega arith)

next-ne-spinning_example : next full (day ∷ (day ∷ []) ++ (day + 1) ∷ []) ≢ spinning
next-ne-spinning_example =
    next-ne-spinning full day (day + 1) (day ∷ []) [] (omega arith) (omega arith) (omega arith)

next-negative_example :
    (id : Int64) × (g' : Generator) × (next (fresh 0) ((epoch - 1) ∷ []) ≡ done (issued id) g' [])
    × (2 ^ 63 ≤ id)
    × (encode id ≡ [])
next-negative_example =
    next-negative (fresh 0) (epoch - 1) [] (omega arith) (omega arith) (omega arith)
