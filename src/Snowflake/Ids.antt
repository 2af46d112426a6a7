-- ===== src/Snowflake/Ids.antt =====
-- The generator as the `IDGenerator` of the service, as cmd/link/main.go passes it.
use linkpulse_link.Link.Ports.{IdReply, fresh, refused, blocks, IdGenerator}
use linkpulse_link.Snowflake.{Generator, Clock, issued, clock_back, Call, done, spinning, next}

-- The generator with the readings of its clock that are to come.
abbrev pub Ids : Type 0
Ids = Generator × Clock

unfoldable pub reply : Call → Ids → IdReply × Ids
reply spinning ids = (blocks, ids)
reply (done (issued id) g clock) ids = (fresh id, (g, clock))
reply (done (clock_back _) g clock) ids = (refused, (g, clock))

unfoldable pub next_reply : Ids → IdReply × Ids
next_reply ids = reply (next ids.0 ids.1) ids

abbrev pub snowflake : IdGenerator Ids
snowflake = record { next = next_reply }
