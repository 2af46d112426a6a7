-- ===== src/Snowflake/Layout.antt =====
-- The layout of an ID: its three fields as arithmetic, and `Decompose` as their inverse.
use Prim.Native.Nat.{bit_or}
use linkpulse_link.Base.{ℕ, ◌+◌, ◌-◌, ◌*◌, ◌^◌, ◌<◌, ◌≡◌, ◌∙◌, arith}
use linkpulse_link.Base.Word.{Int64, IsNonneg, sub64, shl, sar}
use linkpulse_link.Base.Bits.{bit_or_fields, bit_and_mask}
use linkpulse_link.Snowflake.{epoch, pack, decompose, InRange}

-- The fields side by side.
abbrev pub layout : Int64 → Int64 → Int64 → ℕ
layout now_ms worker_id sequence = (now_ms - epoch) * 2 ^ 22 + worker_id * 2 ^ 12 + sequence

pub or_fields :
    (t w s : ℕ)
    → w < 1024
    → s < 4096
    → bit_or (bit_or (t * 2 ^ 22) (w * 2 ^ 12)) s ≡ t * 2 ^ 22 + w * 2 ^ 12 + s
or_fields t w s hw hs =
    let high : bit_or (t * 2 ^ 22) (w * 2 ^ 12) ≡ (t * 2 ^ 10 + w) * 2 ^ 12 =
      bit_or_fields 22 t (w * 2 ^ 12) (omega arith) ∙ omega arith in
    rw high (bit_or_fields 12 (t * 2 ^ 10 + w) s (omega arith) ∙ omega arith)

pub pack-layout : (ms w s : Int64) → InRange ms → w < 1024 → s < 4096 → pack ms w s ≡ layout ms w s
unfolding pack
pack-layout ms w s h hw hs =
    let time : shl (sub64 ms epoch) 22 ≡ (ms - epoch) * 2 ^ 22 = omega arith in
    let worker : shl w 12 ≡ w * 2 ^ 12 = omega arith in
    rw (time, worker) (or_fields (ms - epoch) w s hw hs)

-- An ID stays within 63 bits, so it is not negative as an int64.
pub pack-IsNonneg : (ms w s : Int64) → InRange ms → w < 1024 → s < 4096 → IsNonneg (pack ms w s)
pack-IsNonneg ms w s h hw hs = omega (arith, pack-layout ms w s h hw hs)

pub decompose-layout :
    (ms w s : Int64)
    → InRange ms
    → w < 1024
    → s < 4096
    → decompose (layout ms w s) ≡ record { timestamp_ms = ms; worker_id = w; sequence = s }
unfolding decompose
decompose-layout ms w s h hw hs =
    ground (arith, bit_and_mask 12 (layout ms w s), bit_and_mask 10 (sar (layout ms w s) 12))

-- `Decompose` gives back the fields that `Next` has packed: a time within 2 ^ 41 milliseconds
-- from the epoch, a worker below 1024, a sequence number below 4096.
pub decompose-pack :
    (ms w s : Int64)
    → InRange ms
    → w < 1024
    → s < 4096
    → decompose (pack ms w s) ≡ record { timestamp_ms = ms; worker_id = w; sequence = s }
decompose-pack ms w s h hw hs = rw (pack-layout ms w s h hw hs) (decompose-layout ms w s h hw hs)
