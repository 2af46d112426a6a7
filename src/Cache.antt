-- ===== src/Cache.antt =====
-- internal/cache/redis.go: the cache on a Redis client. The client and the JSON codec are
-- parameters; what they promise is stated in `IsClient` and `IsCodec`.
pub mod Laws
pub mod Memory
mod Tests
use linkpulse_link.Base.{◌≡◌, ◌⊎◌, Bool, ◌||◌, Option, none, some, ◌++◌, if◌then◌else◌, ◌==◌}
use linkpulse_link.Base.Text.{Text, codes}
use linkpulse_link.Base.Int.{pos, leb_ℤ}
use linkpulse_link.Net.Strings.{is_empty}
use linkpulse_link.Link.{Duration}
use linkpulse_link.Link.Ports.{
  Resolved, CacheReply, hit, miss, failed, Written, stored, not_stored, Cache,
}

abbrev pub key_prefix : Text
key_prefix = codes "link:"

-- What `client.Get(…).Bytes()` reports; `missing` is redis.Nil.
pub data GetReply : Type 0 where
  value : Text → GetReply
  missing get_failed : GetReply

pub data SetReply : Type 0 where
  set_done set_failed : SetReply

-- The commands GET and SET with a lifetime.
pub record Client (C : Type 0) : Type 0 where
  pub get_value : Text → C → GetReply × C
  pub set_value : Text → Text → Duration → C → SetReply × C

-- `json.Marshal` and `json.Unmarshal` at `link.Resolved`; `none` is the error.
pub record Codec : Type 0 where
  pub marshal : Resolved → Option Text
  pub unmarshal : Text → Option Resolved

-- A value that does not parse or that lacks a field is a miss.
unfoldable pub parsed : Option Resolved → CacheReply
parsed none = miss
parsed (some res) = if res.link_id == 0 || is_empty res.original_url then miss else hit res

unfoldable pub get_result : Codec → GetReply → CacheReply
unfolding parsed
get_result json missing = miss
get_result json get_failed = failed
get_result json (value val) = parsed (json.unmarshal val)

unfoldable pub set_result : SetReply → Written
set_result set_done = stored
set_result set_failed = not_stored

module _ {C : Type 0} (client : Client C) (json : Codec) where
  -- `Redis.Get`
  unfoldable pub get : Text → C → CacheReply × C
  get code c =
      let (reply, c') = client.get_value (key_prefix ++ code) c in (get_result json reply, c')

  -- `Redis.Set`
  unfoldable pub set : Text → Resolved → Duration → C → Written × C
  set code res ttl c = if leb_ℤ ttl (pos 0) then (stored, c) else elim (json.marshal res) [
    | none ↦ (not_stored, c)
    | some payload ↦
        let (reply, c') = client.set_value (key_prefix ++ code) payload ttl c in
        (set_result reply, c')
  ]

  -- `Redis` as a `link.Cache`.
  abbrev pub redis : Cache C
  redis = record { get = get; set = set }

-- `Has c key val`: `key` holds `val`. Values come from SET alone, and may vanish at any time; a SET
-- that reports an error may have taken effect.
pub record IsClient {C : Type 0} (client : Client C) (Has : C → Text → Text → Type 0) : Type 0 where
  pub get_value_of :
      (key : Text) (c : C) (val : Text) → (client.get_value key c).0 ≡ value val → Has c key val
  pub get_adds_none :
      (key k : Text) (c : C) (v : Text) → Has (client.get_value key c).1 k v → Has c k v
  pub set_adds_one :
      (key k val v : Text) (ttl : Duration) (c : C)
      → Has (client.set_value key val ttl c).1 k v
      → Has c k v ⊎ ((key ≡ k) × (val ≡ v))

-- What is written is read back.
pub record IsCodec (json : Codec) : Type 0 where
  pub marshal_inverse :
      (res r : Resolved) (val : Text)
      → json.marshal res ≡ some val
      → json.unmarshal val ≡ some r
      → res ≡ r
