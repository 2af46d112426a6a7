-- ===== src/Cache/Laws.antt =====
-- The Redis cache keeps the promises of `link.Cache`, and what it does with unusable entries.
use linkpulse_link.Base.{
  ℕ, ◌≡◌, ◌≢◌, ◌↔◌, ◌⊎◌, inl, inr, refl, ap, ◌∙◌, true, false, ◌||◌, Option, none, some, [], ◌∷◌,
  ◌++◌, Bool-cases, Option-cases, ◌==◌, arith,
}
use linkpulse_link.Base.Text.{Text}
use linkpulse_link.Base.Int.{pos, ◌≤ℤ◌, leb_ℤ}
use linkpulse_link.Net.Strings.{is_empty}
use linkpulse_link.Link.{Duration}
use linkpulse_link.Link.Ports.{Resolved, hit, failed, stored, IsCache}
use linkpulse_link.Cache.{
  key_prefix, GetReply, value, missing, get_failed, Client, Codec, parsed, get_result, get, set,
  redis, IsClient, IsCodec,
}

pub key_prefix_cancel : (s t : Text) → key_prefix ++ s ≡ key_prefix ++ t → s ≡ t
key_prefix_cancel s t e = cc

pub get_result-eq-hit :
    (json : Codec) (reply : GetReply) (res : Resolved)
    → get_result json reply ≡ hit res
    → (val : Text) × (reply ≡ value val) × (json.unmarshal val ≡ some res)
unfolding get_result parsed
get_result-eq-hit json (value val) res h = (
  val,
  refl,
  elim (Option-cases (json.unmarshal val)) [
    | inl e ↦ cc (rw e at h)
    | inr (r, e) ↦ ground (arith, rw e at h)
  ],
)
get_result-eq-hit json missing res h = cc
get_result-eq-hit json get_failed res h = cc

module _ {C : Type 0} (client : Client C) (json : Codec) {Has : C → Text → Text → Type 0}
    (client_laws : IsClient client Has) (codec_laws : IsCodec json) where
  -- The entry of a code: a value under its key that parses.
  abbrev pub Holds : C → Text → Resolved → Type 0
  Holds c code res = (val : Text) × Has c (key_prefix ++ code) val × (json.unmarshal val ≡ some res)

  get-Holds :
      (code : Text) (c : C) (res : Resolved)
      → (get client json code c).0 ≡ hit res
      → Holds c code res
  unfolding get
  get-Holds code c res h =
      let (val, replied, parses) = get_result-eq-hit json _ res h in
      (val, client_laws.get_value_of (key_prefix ++ code) c val replied, parses)

  set-Holds :
      (code k : Text) (res r : Resolved) (ttl : Duration) (c : C)
      → Holds (set client json code res ttl c).1 k r
      → Holds c k r ⊎ ((code ≡ k) × (res ≡ r))
  unfolding set
  set-Holds code k res r ttl c h = elim (Bool-cases (leb_ℤ ttl (pos 0))) [
    | inl none_left ↦ inl (rw none_left at h)
    | inr some_left ↦ elim (Option-cases (json.marshal res)) [
      | inl refused ↦ inl (rw (some_left, refused) at h)
      | inr (payload, written) ↦
          let (val, has, parses) = rw (some_left, written) at h in
          elim (client_laws.set_adds_one _ _ _ _ _ c has) [
            | inl old ↦ inl (val, old, parses)
            | inr (same, sent) ↦ inr (
              key_prefix_cancel code k same,
              codec_laws.marshal_inverse res r val (written ∙ ap some sent) parses,
            )
          ]
    ]
  ]

  -- On a client whose values come from SET alone, and a codec that reads back what it writes,
  -- `Redis` implements `link.Cache`: a hit is a value under the key of the code that parses to
  -- it, a read adds nothing, and a write adds at most its own entry.
  pub redis-IsCache : IsCache (redis client json) Holds
  redis-IsCache = record {
    get_hit = get-Holds;
    get_keeps = λ code k c res h.
        unfold get in
        let (val, has, parses) = h in
        (val, client_laws.get_adds_none (key_prefix ++ code) (key_prefix ++ k) c val has, parses);
    set_keeps = set-Holds;
  }

-- What makes a value usable: it parses to a result with an ID and a URL.
abbrev pub IsUsable : Codec → Text → Resolved → Type 0
IsUsable json val res =
    (json.unmarshal val ≡ some res) × (res.link_id ≢ 0) × (res.original_url ≢ [])

is_empty-true : (s : Text) → is_empty s ≡ true → s ≡ []
is_empty-true [] e = refl
is_empty-true (c ∷ s) e = cc

is_empty-false : (s : Text) → s ≢ [] → is_empty s ≡ false
is_empty-false [] h = absurd (h refl)
is_empty-false (c ∷ s) h = refl

is_empty-of : (id : ℕ) (s : Text) → id == 0 || is_empty s ≡ false → is_empty s ≡ false
is_empty-of id s h = ground arith

parsed-eq-hit :
    (o : Option Resolved) (res : Resolved)
    → parsed o ≡ hit res
    → (o ≡ some res) × (res.link_id ≢ 0) × (res.original_url ≢ [])
unfolding parsed
parsed-eq-hit none res h = cc
parsed-eq-hit (some r) res h = elim (Bool-cases (r.link_id == 0 || is_empty r.original_url)) [
  | inl bad ↦ cc (rw bad at h)
  | inr good ↦
      let same : hit r ≡ hit res = rw good at h in
      let sure : r ≡ res = cc same in
      rw (← sure) (
        refl,
        λ e. ground arith,
        λ e. cc (rw (ap is_empty e) at (is_empty-of r.link_id r.original_url good)),
      )
]

parsed-hit :
    (res : Resolved) → res.link_id ≢ 0 → res.original_url ≢ [] → parsed (some res) ≡ hit res
unfolding parsed
parsed-hit res numbered there = ground (arith, is_empty-false res.original_url there)

get_result-eq-failed :
    (json : Codec) (reply : GetReply) → (get_result json reply ≡ failed) ↔ (reply ≡ get_failed)
unfolding get_result parsed
get_result-eq-failed json (value val) = ground arith
get_result-eq-failed json missing = (λ e. cc, λ e. cc)
get_result-eq-failed json get_failed = (λ e. refl, λ e. refl)

module _ {C : Type 0} (client : Client C) (json : Codec) (code : Text) (c : C) where
  get-eq-hit :
      (res : Resolved)
      → (get client json code c).0 ≡ hit res
      → (val : Text) × ((client.get_value (key_prefix ++ code) c).0 ≡ value val)
        × IsUsable json val res
  unfolding get
  get-eq-hit res h =
      let (val, replied, parses) = get_result-eq-hit json _ res h in
      (val, replied, unfold get_result in parsed-eq-hit (json.unmarshal val) res (rw replied at h))

  get-hit :
      (res : Resolved) (val : Text)
      → (client.get_value (key_prefix ++ code) c).0 ≡ value val
      → IsUsable json val res
      → (get client json code c).0 ≡ hit res
  unfolding get get_result
  get-hit res val replied (parses, numbered, there) =
      rw (replied, parses) (parsed-hit res numbered there)

  -- A hit is exactly a value under the key of the code that parses to a result with an ID other than
  -- 0 and a URL, and an error is exactly an error of the client; whatever else is there is a miss.
  pub get_iff :
      ((res : Resolved)
        → ((get client json code c).0 ≡ hit res) ↔ (
            (val : Text) × ((client.get_value (key_prefix ++ code) c).0 ≡ value val)
            × IsUsable json val res))
      × (((get client json code c).0 ≡ failed)
          ↔ ((client.get_value (key_prefix ++ code) c).0 ≡ get_failed))
  unfolding get
  get_iff = (
    λ res. (get-eq-hit res, λ (val, replied, usable). get-hit res val replied usable),
    get_result-eq-failed json _,
  )

-- An entry without lifetime is not written: the client is not called, and no error is reported.
pub set-nonpositive :
    {C : Type 0} (client : Client C) (json : Codec) (code : Text) (res : Resolved) (ttl : Duration)
    (c : C)
    → ttl ≤ℤ pos 0
    → set client json code res ttl c ≡ (stored, c)
unfolding set
set-nonpositive client json code res ttl c h = ground (arith, h)
