-- ===== src/Snowflake/Loop.antt =====
-- When a call of `Next` returns.
use linkpulse_link.Base.{◌<◌, ◌≢◌, refl, Option, none, some, [], ◌∷◌, ◌++◌, arith}
use linkpulse_link.Base.Word.{Int64, IsNonneg, slt-nonneg}
use linkpulse_link.Snowflake.{
  Generator, Clock, spinning, wait_next_millis, stamp, stamp_after, next, IsValid,
}

-- The wait ends at the latest with the first reading past the stored time.
wait_ends :
    (last now ms : Int64) (early later : Clock)
    → IsNonneg last
    → IsNonneg ms
    → last < ms
    → wait_next_millis last now (early ++ ms ∷ later) ≢ none
unfolding wait_next_millis
wait_ends last now ms [] [] hl hm lt = ground (arith, slt-nonneg last ms)
wait_ends last now ms [] (r ∷ later) hl hm lt = ground (arith, slt-nonneg last ms)
wait_ends last now ms (r ∷ early) later hl hm lt =
    ground (arith, wait_ends last r ms early later hl hm lt)

stamp_after-ne-spinning :
    (g : Generator) (o : Option (Int64 × Clock)) → o ≢ none → stamp_after g o ≢ spinning
unfolding stamp_after stamp
stamp_after-ne-spinning g none h = absurd (h refl)
stamp_after-ne-spinning g (some (ms, left)) h = cc

-- A call of `Next` on a valid generator returns, with an ID or with the error, once the clock
-- has shown any time past the stored one, whatever it shows before and after.
pub next-ne-spinning :
    (g : Generator) (r ms : Int64) (early later : Clock)
    → IsValid g
    → IsNonneg ms
    → g.last_ms < ms
    → next g (r ∷ early ++ ms ∷ later) ≢ spinning
unfolding next
next-ne-spinning g r ms early later v hm lt =
    unfold stamp in ground (arith, wait_ends g.last_ms r ms early later v.last hm lt)
