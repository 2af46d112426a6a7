-- ===== src/Process/Producer.antt =====
-- What becomes of the producer of clicks: whether it is open at the end of a trace.
pub mod Made
pub mod Ends
use linkpulse_link.Base.{Bool, true, false, List, [], ◌∷◌}
use linkpulse_link.Process.{Step, producer_opens, producer_closes}

-- A producer has been made in a trace and not been closed.
unfoldable pub producer_left : List Step → Bool
producer_left [] = false
producer_left (producer_opens ∷ steps) = true
producer_left (producer_closes ∷ steps) = false
producer_left (s ∷ steps) = producer_left steps
