-- ===== src/Link/Service/Staleness/Redis.antt =====
-- Redis, whose keys expire, is a cache with a clock: the guard of `Set` on the lifetime matters here.
use linkpulse_link.Base.{◌≡◌, ◌⊎◌, inl, inr, ap, ◌∙◌, some, ◌++◌, Bool-cases, Option-cases, arith}
use linkpulse_link.Base.Text.{Text}
use linkpulse_link.Base.Int.{pos, leb_ℤ, ◌+ℤ◌, ◌<ℤ◌}
use linkpulse_link.Link.{Time, Duration}
use linkpulse_link.Link.Ports.{Resolved}
use linkpulse_link.Cache.{key_prefix, value, Client, Codec, IsCodec, get, set, redis}
use linkpulse_link.Cache.Laws.{get_result-eq-hit, key_prefix_cancel}
use linkpulse_link.Link.Service.Staleness.{IsTimed}

-- `Has c key val until`: `key` holds `val` until a time. SET with a lifetime sets that time; a key
-- whose time has come is not found.
pub record IsTimedClient {C : Type 0} (client : Client C) (Has : C → Text → Text → Time → Type 0)
    (clock : C → Time) : Type 0 where
  pub get_value_of :
      (key : Text) (c : C) (val : Text)
      → (client.get_value key c).0 ≡ value val
      → (until : Time) × Has c key val until × (clock c <ℤ until)
  pub get_adds_none :
      (key k : Text) (c : C) (v : Text) (until : Time)
      → Has (client.get_value key c).1 k v until
      → Has c k v until
  pub set_adds_one :
      (key k val v : Text) (ttl : Duration) (c : C) (until : Time)
      → Has (client.set_value key val ttl c).1 k v until
      → Has c k v until ⊎ ((key ≡ k) × (val ≡ v) × (until ≡ clock c +ℤ ttl))

module _ {C : Type 0} (client : Client C) (json : Codec) {Has : C → Text → Text → Time → Type 0}
    {clock : C → Time} (client_laws : IsTimedClient client Has clock)
    (codec_laws : IsCodec json) where
  abbrev pub Lives : C → Text → Resolved → Time → Type 0
  Lives c code res until =
      (val : Text) × Has c (key_prefix ++ code) val until × (json.unmarshal val ≡ some res)

  set-Lives :
      (code k : Text) (res r : Resolved) (ttl : Duration) (c : C) (until : Time)
      → Lives (set client json code res ttl c).1 k r until
      → Lives c k r until ⊎ ((code ≡ k) × (res ≡ r) × (pos 0 <ℤ ttl) × (until ≡ clock c +ℤ ttl))
  unfolding set
  set-Lives code k res r ttl c until h = elim (Bool-cases (leb_ℤ ttl (pos 0))) [
    | inl none_left ↦ inl (rw none_left at h)
    | inr some_left ↦ elim (Option-cases (json.marshal res)) [
      | inl refused ↦ inl (rw (some_left, refused) at h)
      | inr (payload, written) ↦
          let (val, has, parses) = rw (some_left, written) at h in
          elim (client_laws.set_adds_one _ _ _ _ _ c until has) [
            | inl old ↦ inl (val, old, parses)
            | inr (same, sent, at_end) ↦ inr (
              key_prefix_cancel code k same,
              codec_laws.marshal_inverse res r val (written ∙ ap some sent) parses,
              ground arith,
              at_end,
            )
          ]
    ]
  ]

  -- On a client whose keys expire, `Redis` is a cache with a clock.
  pub redis-IsTimed : IsTimed (redis client json) Lives clock
  redis-IsTimed = record {
    get_hit = λ code c res h.
        unfold get in
        let (val, replied, parses) = get_result-eq-hit json _ res h in
        let (until, has, before) = client_laws.get_value_of (key_prefix ++ code) c val replied in
        (until, (val, has, parses), before);
    get_keeps = λ code k c res until h.
        unfold get in
        let (val, has, parses) = h in
        (
          val,
          client_laws.get_adds_none (key_prefix ++ code) (key_prefix ++ k) c val until has,
          parses,
        );
    set_keeps = set-Lives;
  }
