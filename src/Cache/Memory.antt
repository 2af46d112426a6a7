-- ===== src/Cache/Memory.antt =====
-- A client that keeps its values in memory and may be down, and a codec: `IsClient` and `IsCodec`
-- can be met.
use mathlib.Core.List.{Memᴰ}
use linkpulse_link.Base.{
  ◌≡◌, ◌⊎◌, inl, inr, ap, ◌∙◌, Bool, Option, none, some, List, [], ◌∷◌, Bool-cases, if◌then◌else◌,
}
use linkpulse_link.Base.Text.{Text, text_eq, text_eq_sound}
use linkpulse_link.Link.{Duration}
use linkpulse_link.Link.Ports.{Resolved}
use linkpulse_link.Cache.{
  GetReply, value, missing, get_failed, SetReply, set_done, set_failed, Client, Codec, IsClient,
  IsCodec,
}

pub record Store : Type 0 where
  pub entries : List (Text × Text)
  pub down : Bool

unfoldable pub find_entry : Text → List (Text × Text) → GetReply
find_entry key [] = missing
find_entry key ((k, v) ∷ es) = if text_eq k key then value v else find_entry key es

unfoldable pub read_from : Text → Store → GetReply × Store
read_from key s = (if s.down then get_failed else find_entry key s.entries, s)

unfoldable pub write_to : Text → Text → Duration → Store → SetReply × Store
write_to key val ttl s =
    if s.down then (set_failed, s) else (set_done, record s { entries = (key, val) ∷ s.entries })

abbrev pub memory_client : Client Store
memory_client = record { get_value = read_from; set_value = write_to }

abbrev pub Has : Store → Text → Text → Type 0
Has s key val = Memᴰ (key, val) s.entries

find_entry-eq-value :
    (key : Text) (es : List (Text × Text)) (val : Text)
    → find_entry key es ≡ value val
    → Memᴰ (key, val) es
unfolding find_entry
find_entry-eq-value key [] val h = cc
find_entry-eq-value key ((k, v) ∷ es) val h = elim (Bool-cases (text_eq k key)) [
  | inl own ↦
      let same : value v ≡ value val = rw own at h in
      let named : k ≡ key = text_eq_sound k key own in Memᴰ.head (cc)
  | inr other ↦ Memᴰ.tail (find_entry-eq-value key es val (rw other at h))
]

Mem-cons : {A : Type 0} (x a : A) (xs : List A) → Memᴰ x (a ∷ xs) → Memᴰ x xs ⊎ (a ≡ x)
Mem-cons x a xs (Memᴰ.head e) = inr (cc)
Mem-cons x a xs (Memᴰ.tail m) = inl m

pub memory-IsClient : IsClient memory_client Has
memory-IsClient = record {
  get_value_of = λ key s val h.
      unfold read_from in
      elim (Bool-cases s.down) [
        | inl down ↦ cc (rw down at h)
        | inr up ↦ find_entry-eq-value key s.entries val (rw up at h)
      ];
  get_adds_none = λ key k s v h. unfold read_from in h;
  set_adds_one = λ key k val v ttl s h.
      unfold write_to in
      elim (Bool-cases s.down) [
        | inl down ↦ inl (rw down at h)
        | inr up ↦ elim (Mem-cons _ _ _ (rw up at h)) [
          | inl old ↦ inl old
          | inr same ↦ inr (ap (λ p. p.0) same, ap (λ p. p.1) same)
        ]
      ];
}

unfoldable pub unpack : Text → Option Resolved
unpack [] = none
unpack (id ∷ url) = some (record { link_id = id; original_url = url })

abbrev pub runes : Codec
runes = record { marshal = λ res. some (res.link_id ∷ res.original_url); unmarshal = unpack }

runes-inverse :
    (res r : Resolved) (val : Text)
    → some (res.link_id ∷ res.original_url) ≡ some val
    → unpack val ≡ some r
    → res ≡ r
unfolding unpack
runes-inverse res r [] sent parses = cc
runes-inverse res r (id ∷ url) sent parses =
    let same_id : res.link_id ≡ id = cc in
    let same_url : res.original_url ≡ url = cc in
    let read : ◌≡◌ {A = Resolved} (record { link_id = id; original_url = url }) r = cc (parses) in
    (λ i. record { link_id = same_id i; original_url = same_url i }) ∙ read

pub runes-IsCodec : IsCodec runes
runes-IsCodec = record { marshal_inverse = runes-inverse }
