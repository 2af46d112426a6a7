-- ===== src/Clicks/Producer/Order.antt =====
-- The events of a link stay in order: its records are accepted in the order of its events.
use linkpulse_link.Base.{
  ℕ, ◌≡◌, inl, inr, refl, ap, ◌∙◌, Bool-cases, Option, none, some, List, [], ◌∷◌, if◌then◌else◌,
}
use linkpulse_link.Base.Text.{Text, text_eq}
use linkpulse_link.Clicks.{ClickEvent}
use linkpulse_link.Clicks.Producer.{
  Record, Called, Client, IsClient, Producer, publish_marshalled, publish, work, Action, publishes,
  works, after, published,
}

-- The values under a key, which is a partition of the topic.
unfoldable pub values_for : Text → List (Record × ClickEvent) → List (List ℕ)
values_for code [] = []
values_for code ((r, ev) ∷ rs) =
    let rest = values_for code rs in if text_eq r.key code then r.value ∷ rest else rest

abbrev prepend : Option (List ℕ) → List (List ℕ) → List (List ℕ)
prepend none rest = rest
prepend (some payload) rest = payload ∷ rest

-- The payloads of the events of a link, less those that have none.
unfoldable pub payloads_for :
    (ClickEvent → Option (List ℕ)) → Text → List ClickEvent → List (List ℕ)
payloads_for marshal code [] = []
payloads_for marshal code (ev ∷ evs) =
    let rest = payloads_for marshal code evs in
    if text_eq ev.short_code code then prepend (marshal ev) rest else rest

module _ {C : Type 0} (client : Client C) (marshal : ClickEvent → Option (List ℕ))
    {accepted : C → List (Record × ClickEvent)} {settled : C → List Called}
    (laws : IsClient client accepted settled) (code : Text) where
  abbrev held : Producer C → List (List ℕ)
  held p = values_for code (accepted p.client)

  marshalled-values :
      (ev : ClickEvent) (made : Option (List ℕ)) (p : Producer C)
      → held (publish_marshalled client marshal ev made p)
        ≡ (if text_eq ev.short_code code then prepend made (held p) else held p)
  unfolding values_for
  marshalled-values ev none p = elim (Bool-cases (text_eq ev.short_code code)) [
    | inl own ↦ rw own refl
    | inr other ↦ rw other refl
  ]
  marshalled-values ev (some payload) p =
      ap (values_for code)
        (laws.produce_accepts (record { key = ev.short_code; value = payload }) ev p.client)

  -- On a client that accepts what it is given: from a producer that has accepted nothing, over any
  -- sequence of `Publish` and work in the background, the values under the key of a link are the
  -- payloads of its events, in the order in which they were published, and no others.
  pub after-values :
      (actions : List Action) (p : Producer C)
      → accepted p.client ≡ []
      → values_for code (accepted (after client marshal actions p).client)
        ≡ payloads_for marshal code (published actions)
  unfolding after publish work values_for payloads_for
  after-values [] p empty = rw empty refl
  after-values (publishes ev ∷ actions) p empty =
      marshalled-values ev (marshal ev) (after client marshal actions p)
      ∙ ap (λ rest. if text_eq ev.short_code code then prepend (marshal ev) rest else rest)
          (after-values actions p empty)
  after-values (works ∷ actions) p empty =
      ap (values_for code) (laws.work_accepts (after client marshal actions p).client)
      ∙ after-values actions p empty
