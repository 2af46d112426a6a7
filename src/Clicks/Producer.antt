-- ===== src/Clicks/Producer.antt =====
-- internal/clicks/producer.go: publishing on the client of Kafka.
-- The client is a parameter. A promise is the event that its closure holds; it is called in the
-- background or during a flush, with or without an error. `proto.Marshal` is a parameter as well.
-- NewProducer is in Process.Open.
pub mod Accounted
pub mod Order
mod Tests
use mathlib.Core.List.{Memᴰ}
use linkpulse_link.Base.{ℕ, ◌≡◌, Bool, true, false, Option, none, some, List, [], ◌∷◌, ◌++◌}
use linkpulse_link.Base.Text.{Text}
use linkpulse_link.Base.Word.{Int64}
use linkpulse_link.Clicks.{ClickEvent}

-- `kgo.Record`, less what the client fills in.
pub record Record : Type 0 where
  pub key : Text
  pub value : List ℕ

-- A promise that has been called: the event, and whether it was called without an error.
abbrev pub Called : Type 0
Called = ClickEvent × Bool

-- The calls of the client. `work` is what happens in the background between two calls.
pub record Client (C : Type 0) : Type 0 where
  pub produce : Record → ClickEvent → C → C
  pub work : C → List Called × C
  pub flush : C → Bool × List Called × C

-- What franz-go documents: a produced record is accepted, each promise is called with the fate of its
-- record, and a flush without an error has waited until the promises of all records have been
-- called. The newest is first.
pub record IsClient {C : Type 0} (client : Client C) (accepted : C → List (Record × ClickEvent))
    (settled : C → List Called) : Type 0 where
  pub produce_accepts :
      (r : Record) (ev : ClickEvent) (c : C)
      → accepted (client.produce r ev c) ≡ (r, ev) ∷ accepted c
  pub produce_settles :
      (r : Record) (ev : ClickEvent) (c : C) → settled (client.produce r ev c) ≡ settled c
  pub work_accepts : (c : C) → accepted (client.work c).1 ≡ accepted c
  pub work_settles : (c : C) → settled (client.work c).1 ≡ (client.work c).0 ++ settled c
  pub flush_accepts : (c : C) → accepted (client.flush c).2 ≡ accepted c
  pub flush_settles : (c : C) → settled (client.flush c).2 ≡ (client.flush c).1 ++ settled c
  pub flush_waits :
      (c : C) (r : Record) (ev : ClickEvent)
      → (client.flush c).0 ≡ true
      → Memᴰ (r, ev) (accepted c)
      → (good : Bool) × Memᴰ (ev, good) (settled (client.flush c).2)

-- The records of the log.
pub data Lost : Type 0 where
  not_marshalled : Int64 → Lost
  not_delivered : Int64 → Text → Lost

-- `Producer`, with its log, and whether the client has been closed.
pub record Producer (C : Type 0) : Type 0 where
  pub client : C
  pub log : List Lost
  pub closed : Bool

-- The promise of `Publish`.
abbrev pub on_called : Called → List Lost → List Lost
on_called (ev, true) log = log
on_called (ev, false) log = not_delivered ev.event_id ev.short_code ∷ log

abbrev pub on_all : List Called → List Lost → List Lost
on_all [] log = log
on_all (c ∷ calls) log = on_called c (on_all calls log)

module _ {C : Type 0} (client : Client C) (marshal : ClickEvent → Option (List ℕ)) where
  -- `Publish`, behind `proto.Marshal`.
  abbrev pub publish_marshalled : ClickEvent → Option (List ℕ) → Producer C → Producer C
  publish_marshalled ev none p = record p { log = not_marshalled ev.event_id ∷ p.log }
  publish_marshalled ev (some payload) p =
      let r : Record = record { key = ev.short_code; value = payload } in
      record p { client = client.produce r ev p.client }

  -- `Publish`
  unfoldable pub publish : ClickEvent → Producer C → Producer C
  publish ev p = publish_marshalled ev (marshal ev) p

  -- Work of the client in the background.
  unfoldable pub work : Producer C → Producer C
  work p =
      let (calls, c) = client.work p.client in record p { client = c; log = on_all calls p.log }

  -- `Close`: the result of the flush; the client is closed in any case.
  unfoldable pub close : Producer C → Bool × Producer C
  close p =
      let (good, calls, c) = client.flush p.client in
      (good, record { client = c; log = on_all calls p.log; closed = true })

-- What happens to a producer between its creation and its end.
pub data Action : Type 0 where
  publishes : ClickEvent → Action
  works : Action

module _ {C : Type 0} (client : Client C) (marshal : ClickEvent → Option (List ℕ)) where
  -- The state after actions, the newest first.
  unfoldable pub after : List Action → Producer C → Producer C
  unfolding publish work
  after [] p = p
  after (publishes ev ∷ actions) p = publish client marshal ev (after actions p)
  after (works ∷ actions) p = work client marshal (after actions p)

-- The events that were published, the newest first.
abbrev pub published : List Action → List ClickEvent
published [] = []
published (publishes ev ∷ actions) = ev ∷ published actions
published (works ∷ actions) = published actions
