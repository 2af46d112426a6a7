-- ===== src/Cache/Tests.antt =====
-- The cache on the client in memory.
use linkpulse_link.Base.{◌≡◌, ◌↔◌, refl, true, false, [], ◌∷◌, ◌++◌}
use linkpulse_link.Base.Text.{Text, codes, text_eq}
use linkpulse_link.Link.Ports.{Resolved, hit, miss, failed, IsCache}
use linkpulse_link.Cache.{key_prefix, value, get_failed, get, set, redis}
use linkpulse_link.Cache.Memory.{Store, memory_client, memory-IsClient, Has, runes, runes-IsCodec}
use linkpulse_link.Cache.Laws.{Holds, redis-IsCache, IsUsable, get_iff}

abbrev store : Store
store = record {
  entries =
      (codes "link:x", 7 ∷ codes "https://a.b") ∷ (codes "link:old", 0 ∷ codes "https://c.d") ∷ [];
  down = false;
}

-- An entry, an entry without an ID, no entry, and a server that is down.
get_runs :
    ((get memory_client runes (codes "x") store).0
      ≡ hit (record { link_id = 7; original_url = codes "https://a.b" }))
    × ((get memory_client runes (codes "old") store).0 ≡ miss)
    × ((get memory_client runes (codes "y") store).0 ≡ miss)
    × ((get memory_client runes (codes "x") (record store { down = true })).0 ≡ failed)
unfolding get linkpulse_link.Cache.get_result linkpulse_link.Cache.Memory.read_from
    linkpulse_link.Cache.Memory.find_entry text_eq linkpulse_link.Cache.Memory.unpack
get_runs = (refl, refl, refl, refl)

redis-IsCache_example :
    IsCache (redis memory_client runes) (Holds memory_client runes memory-IsClient runes-IsCodec)
redis-IsCache_example = redis-IsCache memory_client runes memory-IsClient runes-IsCodec

get_iff_run :
    ((res : Resolved)
      → ((get memory_client runes (codes "x") store).0 ≡ hit res) ↔ (
          (val : Text) × ((memory_client.get_value (key_prefix ++ codes "x") store).0 ≡ value val)
          × IsUsable runes val res))
    × (((get memory_client runes (codes "x") store).0 ≡ failed)
        ↔ ((memory_client.get_value (key_prefix ++ codes "x") store).0 ≡ get_failed))
get_iff_run = get_iff memory_client runes (codes "x") store
