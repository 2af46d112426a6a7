-- ===== src/Link/Service/Ttl.antt =====
-- The lifetime that the service asks the cache for, and the page that it asks the repository for.
use linkpulse_link.Base.{◌≡◌, ◌⊎◌, some, arith}
use linkpulse_link.Base.Int.{ℤ, pos, ◌+ℤ◌, ◌-ℤ◌, ◌≤ℤ◌, ◌<ℤ◌, saturate, +ℤ_parts, -ℤ_parts}
use linkpulse_link.Link.{Time, Link}
use linkpulse_link.Link.Service.{Service, cache_ttl_for, page_size, page_start}

-- A saturated difference that is above 0 is at most the true one.
saturate-le : (a : ℤ) → pos 0 <ℤ saturate a → saturate a ≤ℤ a
unfolding saturate
saturate-le a h = ground arith

module _ {R K G : Type 0} (s : Service R K G) (l : Link) (now : Time) where
  cache_ttl_for-le-remaining :
      (t : Time) → l.expires_at ≡ some t → cache_ttl_for s l now ≤ℤ saturate (t -ℤ now)
  unfolding cache_ttl_for
  cache_ttl_for-le-remaining t e = ground arith

  -- The lifetime is never longer than the configured one.
  pub cache_ttl_for-le : cache_ttl_for s l now ≤ℤ s.cache_ttl
  unfolding cache_ttl_for
  cache_ttl_for-le = ground arith

  -- An entry that is written at all, with a lifetime above 0, is gone when the link expires, counted
  -- from the reading that the lifetime was computed with.
  pub cache_ttl_for-le-expiry :
      (t : Time)
      → l.expires_at ≡ some t
      → pos 0 <ℤ cache_ttl_for s l now
      → now +ℤ cache_ttl_for s l now ≤ℤ t
  cache_ttl_for-le-expiry t e h =
      let short = cache_ttl_for-le-remaining t e in
      omega (
        arith,
        short,
        saturate-le (t -ℤ now) (omega (arith, short)),
        +ℤ_parts now (cache_ttl_for s l now),
        -ℤ_parts t now,
      )

-- The repository is asked for 1 to 100 rows from a nonnegative offset on. A limit in that range
-- and a nonnegative offset are passed as they are; any other limit becomes 20, any other offset 0.
pub page_bounds :
    (limit offset : ℤ)
    → (pos 1 ≤ℤ page_size limit)
      × (page_size limit ≤ℤ pos 100)
      × (pos 0 ≤ℤ page_start offset)
      × (((pos 1 ≤ℤ limit) × (limit ≤ℤ pos 100) × (page_size limit ≡ limit))
          ⊎ (((limit ≤ℤ pos 0) ⊎ (pos 100 <ℤ limit)) × (page_size limit ≡ pos 20)))
      × (((pos 0 ≤ℤ offset) × (page_start offset ≡ offset))
          ⊎ ((offset <ℤ pos 0) × (page_start offset ≡ pos 0)))
unfolding page_size page_start
page_bounds limit offset = (ground arith, ground arith, ground arith, ground arith, ground arith)
