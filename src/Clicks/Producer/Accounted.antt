-- ===== src/Clicks/Producer/Accounted.antt =====
-- No click is lost in silence: once the producer is closed without an error, each published event
-- has been delivered or is in the log.
use mathlib.Core.List.{Memᴰ}
use mathlib.Core.Path.{subst}
use linkpulse_link.Base.{
  ℕ, ◌≡◌, ◌⊎◌, inl, inr, refl, ap, Bool, true, false, Option, none, some, List, [], ◌∷◌, ◌++◌,
}
use linkpulse_link.Clicks.{ClickEvent}
use linkpulse_link.Clicks.Producer.{
  Record, Called, Client, IsClient, Lost, not_marshalled, not_delivered, Producer, on_called,
  on_all, publish_marshalled, publish, work, close, Action, publishes, works, after, published,
}

Mem-split : {A : Type 0} (x : A) (xs ys : List A) → Memᴰ x (xs ++ ys) → Memᴰ x xs ⊎ Memᴰ x ys
Mem-split x [] ys m = inr m
Mem-split x (y ∷ xs) ys (Memᴰ.head e) = inl (Memᴰ.head e)
Mem-split x (y ∷ xs) ys (Memᴰ.tail m) = elim (Mem-split x xs ys m) [
  | inl left ↦ inl (Memᴰ.tail left)
  | inr right ↦ inr right
]

on_called-keeps : (x : Lost) (c : Called) (log : List Lost) → Memᴰ x log → Memᴰ x (on_called c log)
on_called-keeps x (ev, true) log m = m
on_called-keeps x (ev, false) log m = Memᴰ.tail m

on_all-keeps :
    (x : Lost) (calls : List Called) (log : List Lost) → Memᴰ x log → Memᴰ x (on_all calls log)
on_all-keeps x [] log m = m
on_all-keeps x (c ∷ calls) log m = on_called-keeps x c _ (on_all-keeps x calls log m)

abbrev lost : ClickEvent → Lost
lost ev = not_delivered ev.event_id ev.short_code

-- A promise that is called with an error leaves a record in the log.
on_all-lost :
    (ev : ClickEvent) (calls : List Called) (log : List Lost)
    → Memᴰ (ev, false) calls
    → Memᴰ (lost ev) (on_all calls log)
on_all-lost ev [] log m = elim m [ ]
on_all-lost ev (c ∷ calls) log (Memᴰ.head e) =
    subst (λ c. Memᴰ (lost ev) (on_called c (on_all calls log))) e (Memᴰ.head refl)
on_all-lost ev (c ∷ calls) log (Memᴰ.tail m) =
    on_called-keeps (lost ev) c _ (on_all-lost ev calls log m)

module _ {C : Type 0} (client : Client C) (marshal : ClickEvent → Option (List ℕ))
    {accepted : C → List (Record × ClickEvent)} {settled : C → List Called}
    (laws : IsClient client accepted settled) where
  -- Where an event is that has been published: accepted by the client, or in the log.
  abbrev IsTaken : ClickEvent → Producer C → Type 0
  IsTaken ev p =
      ((r : Record) × Memᴰ (r, ev) (accepted p.client)) ⊎ Memᴰ (not_marshalled ev.event_id) p.log

  record IsAccounted (evs : List ClickEvent) (p : Producer C) : Type 0 where
    taken : (ev : ClickEvent) → Memᴰ ev evs → IsTaken ev p
    logged : (ev : ClickEvent) → Memᴰ (ev, false) (settled p.client) → Memᴰ (lost ev) p.log

  marshalled-IsAccounted :
      (ev : ClickEvent) (made : Option (List ℕ)) (evs : List ClickEvent) (p : Producer C)
      → IsAccounted evs p
      → IsAccounted (ev ∷ evs) (publish_marshalled client marshal ev made p)
  marshalled-IsAccounted ev none evs p h = record {
    taken = taken;
    logged = λ x m. Memᴰ.tail (h.logged x m);
  }
    where
      taken :
          (x : ClickEvent)
          → Memᴰ x (ev ∷ evs)
          → IsTaken x (publish_marshalled client marshal ev none p)
      taken x (Memᴰ.head e) = inr (Memᴰ.head (ap (λ y. not_marshalled y.event_id) e))
      taken x (Memᴰ.tail m) = elim (h.taken x m) [
        | inl kept ↦ inl kept
        | inr logged ↦ inr (Memᴰ.tail logged)
      ]
  marshalled-IsAccounted ev (some payload) evs p h = record {
    taken = taken;
    logged = λ x m. h.logged x (rw (laws.produce_settles r ev p.client) at m);
  }
    where
      r : Record
      r = record { key = ev.short_code; value = payload }

      taken :
          (x : ClickEvent)
          → Memᴰ x (ev ∷ evs)
          → IsTaken x (publish_marshalled client marshal ev (some payload) p)
      taken x (Memᴰ.head e) =
          inl (r, rw (laws.produce_accepts r ev p.client) (Memᴰ.head (ap (λ y. (r, y)) e)))
      taken x (Memᴰ.tail m) = elim (h.taken x m) [
        | inl (r', kept) ↦ inl (r', rw (laws.produce_accepts r ev p.client) (Memᴰ.tail kept))
        | inr logged ↦ inr logged
      ]

  called-IsAccounted :
      (evs : List ClickEvent) (p : Producer C) (calls : List Called) (c : C) (closed : Bool)
      → accepted c ≡ accepted p.client
      → settled c ≡ calls ++ settled p.client
      → IsAccounted evs p
      → IsAccounted evs (record { client = c; log = on_all calls p.log; closed = closed })
  called-IsAccounted evs p calls c closed same more h = record {
    taken = λ x m. elim (h.taken x m) [
      | inl (r, kept) ↦ inl (r, rw same kept)
      | inr logged ↦ inr (on_all-keeps _ calls p.log logged)
    ];
    logged = λ x m. elim (Mem-split (x, false) calls (settled p.client) (rw more at m)) [
      | inl new ↦ on_all-lost x calls p.log new
      | inr old ↦ on_all-keeps (lost x) calls p.log (h.logged x old)
    ];
  }

  after-IsAccounted :
      (actions : List Action) (p : Producer C)
      → settled p.client ≡ []
      → IsAccounted (published actions) (after client marshal actions p)
  unfolding after publish work
  after-IsAccounted [] p none_called = record {
    taken = λ x m. elim m [ ];
    logged = λ x m. elim (rw none_called at m) [ ];
  }
  after-IsAccounted (publishes ev ∷ actions) p none_called =
      marshalled-IsAccounted ev (marshal ev) (published actions) _
        (after-IsAccounted actions p none_called)
  after-IsAccounted (works ∷ actions) p none_called =
      let q = after client marshal actions p in
      called-IsAccounted (published actions) q _ _ q.closed (laws.work_accepts q.client)
        (laws.work_settles q.client) (after-IsAccounted actions p none_called)

  -- What has become of an event: delivered, or named in the log.
  abbrev pub IsSettled : ClickEvent → Producer C → Type 0
  IsSettled ev p =
      Memᴰ (ev, true) (settled p.client)
      ⊎ Memᴰ (not_marshalled ev.event_id) p.log
      ⊎ Memᴰ (not_delivered ev.event_id ev.short_code) p.log

  -- No click is lost in silence, on a client that keeps the promises of franz-go: from a producer
  -- none of whose records has been settled, over any sequence of `Publish` and work in the
  -- background, once `Close` has returned without an error, the client is closed and each event that was
  -- published has been delivered or is named in the log.
  pub close-IsSettled :
      (actions : List Action) (p : Producer C)
      → settled p.client ≡ []
      → (close client marshal (after client marshal actions p)).0 ≡ true
      → ((close client marshal (after client marshal actions p)).1.closed ≡ true)
        × ((ev : ClickEvent)
            → Memᴰ ev (published actions)
            → IsSettled ev (close client marshal (after client marshal actions p)).1)
  unfolding close
  close-IsSettled actions p none_called flushed =
      let q = after client marshal actions p in
      let before = after-IsAccounted actions p none_called in
      let done =
        called-IsAccounted (published actions) q (client.flush q.client).1 (client.flush q.client).2
          true (laws.flush_accepts q.client) (laws.flush_settles q.client) before in
      (
        refl,
        λ ev m. elim (before.taken ev m) [
          | inr logged ↦ inr (inl (on_all-keeps _ (client.flush q.client).1 q.log logged))
          | inl (r, kept) ↦
              let (good, called) = laws.flush_waits q.client r ev flushed kept in
              fate (close client marshal q).1 ev good called (done.logged ev)
        ],
      )
    where
      fate :
          (q : Producer C) (ev : ClickEvent) (good : Bool)
          → Memᴰ (ev, good) (settled q.client)
          → (Memᴰ (ev, false) (settled q.client) → Memᴰ (lost ev) q.log)
          → IsSettled ev q
      fate q ev true called logged = inl called
      fate q ev false called logged = inr (inr (logged called))
