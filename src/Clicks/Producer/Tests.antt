-- ===== src/Clicks/Producer/Tests.antt =====
-- A client in memory, on a network that is up or down.
use mathlib.Core.List.{Memᴰ}
use linkpulse_link.Base.{
  ℕ, ◌≡◌, refl, ap, Bool, true, false, Option, none, some, List, [], ◌∷◌, ◌++◌, map, if◌then◌else◌,
  ◌==◌,
}
use linkpulse_link.Base.Text.{Text, codes, text_eq}
use linkpulse_link.Base.Int.{pos}
use linkpulse_link.Clicks.{ClickEvent}
use linkpulse_link.Clicks.Producer.{
  Record, Called, Client, IsClient, not_marshalled, not_delivered, Producer, close, Action,
  publishes, works, after, published,
}
use linkpulse_link.Clicks.Producer.Accounted.{IsSettled, close-IsSettled}
use linkpulse_link.Clicks.Producer.Order.{values_for, payloads_for, after-values}

record Buffer : Type 0 where
  pending : List (Record × ClickEvent)
  done : List ((Record × ClickEvent) × Bool)
  is_up : Bool

abbrev called : (Record × ClickEvent) × Bool → Called
called ((r, ev), good) = (ev, good)

abbrev fated : Bool → Record × ClickEvent → (Record × ClickEvent) × Bool
fated good x = (x, good)

abbrev sent : (Record × ClickEvent) × Bool → Record × ClickEvent
sent (x, good) = x

abbrev held : Buffer → List (Record × ClickEvent)
held b = b.pending ++ map sent b.done

abbrev calls : Buffer → List Called
calls b = map called b.done

-- All that is pending is sent.
abbrev emptied : Buffer → Buffer
emptied b = record { pending = []; done = map (fated b.is_up) b.pending ++ b.done; is_up = b.is_up }

abbrev new_calls : Buffer → List Called
new_calls b = map called (map (fated b.is_up) b.pending)

abbrev client : Client Buffer
client = record {
  produce = λ r ev b. record b { pending = (r, ev) ∷ b.pending };
  work = λ b. (new_calls b, emptied b);
  flush = λ b. (true, new_calls b, emptied b);
}

map-append : {A B : Type 0} (f : A → B) (xs ys : List A) → map f (xs ++ ys) ≡ map f xs ++ map f ys
map-append f [] ys = refl
map-append f (x ∷ xs) ys = ap (λ zs. f x ∷ zs) (map-append f xs ys)

emptied-held :
    (up : Bool) (xs : List (Record × ClickEvent)) (ds : List ((Record × ClickEvent) × Bool))
    → map sent (map (fated up) xs ++ ds) ≡ xs ++ map sent ds
emptied-held up [] ds = refl
emptied-held up (x ∷ xs) ds = ap (λ zs. x ∷ zs) (emptied-held up xs ds)

waited :
    (r : Record) (ev : ClickEvent) (up : Bool) (xs : List (Record × ClickEvent))
    (ds : List ((Record × ClickEvent) × Bool))
    → Memᴰ (r, ev) (xs ++ map sent ds)
    → (good : Bool) × Memᴰ (ev, good) (map called (map (fated up) xs ++ ds))
waited r ev up [] [] m = elim m [ ]
waited r ev up [] ((x, good) ∷ ds) (Memᴰ.head e) = (good, Memᴰ.head (ap (λ y. (y.1, good)) e))
waited r ev up [] (d ∷ ds) (Memᴰ.tail m) =
    let (good, n) = waited r ev up [] ds m in (good, Memᴰ.tail n)
waited r ev up (x ∷ xs) ds (Memᴰ.head e) = (up, Memᴰ.head (ap (λ y. (y.1, up)) e))
waited r ev up (x ∷ xs) ds (Memᴰ.tail m) =
    let (good, n) = waited r ev up xs ds m in (good, Memᴰ.tail n)

client-IsClient : IsClient client held calls
client-IsClient = record {
  produce_accepts = λ r ev b. refl;
  produce_settles = λ r ev b. refl;
  work_accepts = λ b. emptied-held b.is_up b.pending b.done;
  work_settles = λ b. map-append called (map (fated b.is_up) b.pending) b.done;
  flush_accepts = λ b. emptied-held b.is_up b.pending b.done;
  flush_settles = λ b. map-append called (map (fated b.is_up) b.pending) b.done;
  flush_waits = λ b r ev flushed m. waited r ev b.is_up b.pending b.done m;
}

abbrev click : ℕ → Text → ClickEvent
click id code = record {
  event_id = id;
  link_id = 1;
  short_code = code;
  original_url = codes "https://example.com";
  clicked_at = pos 1;
  referrer = [];
  ip_hash = [];
  user_agent = [];
  country = [];
}

-- The event 3 cannot be encoded.
abbrev marshal : ClickEvent → Option (List ℕ)
marshal ev = if ev.event_id == 3 then none else some (ev.event_id ∷ [])

abbrev fresh : Bool → Producer Buffer
fresh up = record {
  client = record { pending = []; done = []; is_up = up };
  log = [];
  closed = false;
}

abbrev session : List Action
session =
    publishes (click 4 (codes "a"))
    ∷ publishes (click 3 (codes "a"))
    ∷ works
    ∷ publishes (click 2 (codes "b"))
    ∷ publishes (click 1 (codes "a"))
    ∷ []

-- With the network down every event is in the log.
down_run :
    (close client marshal (after client marshal session (fresh false))).1.log
    ≡ not_delivered 4 (codes "a")
      ∷ not_marshalled 3
      ∷ not_delivered 2 (codes "b")
      ∷ not_delivered 1 (codes "a")
      ∷ []
unfolding close after
down_run = refl

close-IsSettled_example :
    ((close client marshal (after client marshal session (fresh false))).1.closed ≡ true)
    × ((ev : ClickEvent)
        → Memᴰ ev (published session)
        → IsSettled client marshal client-IsClient ev
            (close client marshal (after client marshal session (fresh false))).1)
close-IsSettled_example =
    close-IsSettled client marshal client-IsClient session (fresh false) refl (unfold close in refl)

after-values_example :
    values_for (codes "a") (held (after client marshal session (fresh true)).client)
    ≡ payloads_for marshal (codes "a") (published session)
after-values_example =
    after-values client marshal client-IsClient (codes "a") session (fresh true) refl

values_run :
    values_for (codes "a") (held (after client marshal session (fresh true)).client)
    ≡ (4 ∷ []) ∷ (1 ∷ []) ∷ []
unfolding values_for after text_eq
values_run = refl
