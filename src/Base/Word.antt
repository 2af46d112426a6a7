-- ===== src/Base/Word.antt =====
-- Go's int64 as its bit pattern, a number below 2 ^ 64, with the arithmetic of the language:
-- sums and products wrap around, `<` reads the sign bit, `>>` keeps it.
use Prim.Native.Nat.{ℕ, ◌+◌, ◌-◌, ◌*◌, ◌/◌, ◌%◌, ◌^◌, ◌<◌}
use mathlib.Core.Path.{◌≡◌}
use mathlib.Core.Bool.{Bool}
use native.Mathlib.Omega.{arith}
use linkpulse_link.Base.Tests.{ltb, if◌then◌else◌}

abbrev pub Int64 : Type 0
Int64 = ℕ

abbrev pub IsInt64 : Int64 → Type 0
IsInt64 a = a < 2 ^ 64

-- The values from 0 to 2 ^ 63 - 1.
abbrev pub IsNonneg : Int64 → Type 0
IsNonneg a = a < 2 ^ 63

abbrev pub add64 : Int64 → Int64 → Int64
add64 a b = (a + b) % 2 ^ 64

abbrev pub sub64 : Int64 → Int64 → Int64
sub64 a b = (a + 2 ^ 64 - b) % 2 ^ 64

abbrev pub mul64 : Int64 → Int64 → Int64
mul64 a b = a * b % 2 ^ 64

-- a < b: the order of the patterns once the sign bits are flipped.
abbrev pub slt : Int64 → Int64 → Bool
slt a b = ltb ((a + 2 ^ 63) % 2 ^ 64) ((b + 2 ^ 63) % 2 ^ 64)

-- a << k
abbrev pub shl : Int64 → ℕ → Int64
shl a k = a * 2 ^ k % 2 ^ 64

-- a >> k, which rounds towards minus infinity.
abbrev pub sar : Int64 → ℕ → Int64
sar a k = if ltb a (2 ^ 63) then a / 2 ^ k else 2 ^ 64 - 1 - (2 ^ 64 - 1 - a) / 2 ^ k

pub slt-nonneg : (a b : Int64) → IsNonneg a → IsNonneg b → slt a b ≡ ltb a b
slt-nonneg a b ha hb = ground arith
