-- ===== src/Base/Bits.antt =====
-- `|` of fields that do not overlap, and `&` with a mask of low bits, as arithmetic.
use Prim.Native.Nat.{
  ℕ, zero, suc, ◌+◌, ◌-◌, ◌*◌, ◌/◌, ◌%◌, ◌^◌, ◌≤◌, ◌<◌, min, max, bit_and, bit_or, digits, bitwise,
  bit_and-bitwise, bit_or-bitwise,
}
use mathlib.Core.Path.{◌≡◌, refl, ap, ◌∙◌}
use native.Mathlib.Nat.{pow-suc, one-le-pow}
use native.Mathlib.Omega.{arith}

-- The library computes both digit by digit, on fuel. Fuel beyond the number itself is not used.
module _ (last : ℕ → ℕ) (both : ℕ → ℕ → ℕ) where
  spare_one :
      (fuel a b : ℕ) → a ≤ fuel → digits last both (suc fuel) a b ≡ digits last both fuel a b
  spare_one zero zero b le = refl
  spare_one (suc fuel) zero b le = refl
  spare_one (suc fuel) (suc a) b le = rw (spare_one fuel (suc a / 2) (b / 2) (omega arith))
  spare_one zero (suc a) b le = absurd (omega arith)

  spare_many :
      (more fuel a b : ℕ)
      → a ≤ fuel
      → digits last both (more + fuel) a b ≡ digits last both fuel a b
  spare_many zero fuel a b le = ap (λ n. digits last both n a b) (omega arith)
  spare_many (suc more) fuel a b le =
      let sum : suc more + fuel ≡ suc (more + fuel) = omega arith in
      ap (λ n. digits last both n a b) sum
      ∙ spare_one (more + fuel) a b (omega arith)
      ∙ spare_many more fuel a b le

  -- So a step takes off the lowest digit.
  halved :
      (a b : ℕ)
      → bitwise last both (suc a) b
        ≡ bitwise last both (suc a / 2) (b / 2) * 2 + both (suc a % 2) (b % 2)
  halved a b =
      let half = suc a / 2 in
      let parted : a ≡ (a - half) + half = omega arith in
      let tail =
        ap (λ n. digits last both n half (b / 2)) parted
        ∙ spare_many (a - half) half half (b / 2) (omega arith) in
      omega (arith, tail)

module _ (a b : ℕ) where
  or_halved : bit_or (suc a) b ≡ bit_or (suc a / 2) (b / 2) * 2 + max (suc a % 2) (b % 2)
  or_halved = simp bit_or-bitwise (halved (λ y. y) max a b)

  and_halved : bit_and (suc a) b ≡ bit_and (suc a / 2) (b / 2) * 2 + min (suc a % 2) (b % 2)
  and_halved = simp bit_and-bitwise (halved (λ y. 0) min a b)

-- Zero on the left and on the right.
zero_left : (b : ℕ) → (bit_or 0 b ≡ b) × (bit_and 0 b ≡ 0)
zero_left b = (simp bit_or-bitwise (omega arith), simp bit_and-bitwise (omega arith))

zero_right : (bound a : ℕ) → a ≤ bound → (bit_or a 0 ≡ a) × (bit_and a 0 ≡ 0)
zero_right bound zero le = (refl, refl)
zero_right zero (suc a) le = absurd (omega arith)
zero_right (suc bound) (suc a) le =
    let (or_half, and_half) = zero_right bound (suc a / 2) (omega arith) in
    (omega (arith, or_halved a 0, or_half), omega (arith, and_halved a 0, and_half))

-- The lowest digit of any number, zero too.
or_digit : (a b : ℕ) → bit_or a b ≡ bit_or (a / 2) (b / 2) * 2 + max (a % 2) (b % 2)
or_digit (suc a) b = or_halved a b
or_digit zero b = omega (arith, (zero_left b).0, (zero_left (b / 2)).0)

and_digit : (a b : ℕ) → bit_and a b ≡ bit_and (a / 2) (b / 2) * 2 + min (a % 2) (b % 2)
and_digit (suc a) b = and_halved a b
and_digit zero b = omega (arith, (zero_left b).1, (zero_left (b / 2)).1)

double : (high width : ℕ) → high * 2 ^ suc width ≡ 2 * (high * 2 ^ width)
double high width = omega (arith, ap (λ (power : ℕ). high * power) (pow-suc 2 width))

-- A high field and a low one of the given width.
split_fields :
    (width high low : ℕ)
    → low < 2 ^ width
    → (bit_or (high * 2 ^ width) low ≡ high * 2 ^ width + low)
      × (bit_and (high * 2 ^ width + low) (2 ^ width - 1) ≡ low)
split_fields zero high low fits = (
  ground (arith, (zero_right high high (omega arith)).0),
  rw (zero_right (high * 1 + low) (high * 1 + low) (omega arith)).1 (omega arith),
)
split_fields (suc width) high low fits =
    let (or_half, and_half) = split_fields width high (low / 2) (omega (arith, pow-suc 2 width)) in
    (
      ground (arith, or_digit (high * 2 ^ suc width) low, double high width, or_half),
      ground (
        arith,
        and_digit (high * 2 ^ suc width + low) (2 ^ suc width - 1),
        double high width,
        pow-suc 2 width,
        and_half,
      ),
    )

-- `high << width | low` is a sum if `low` fits the width.
pub bit_or_fields :
    (width high low : ℕ) → low < 2 ^ width → bit_or (high * 2 ^ width) low ≡ high * 2 ^ width + low
bit_or_fields width high low fits = (split_fields width high low fits).0

-- `a & (2 ^ width - 1)` is the remainder by 2 ^ width.
pub bit_and_mask : (width a : ℕ) → bit_and a (2 ^ width - 1) ≡ a % 2 ^ width
bit_and_mask width a =
    let power : 1 ≤ 2 ^ width = one-le-pow width 2 (omega arith) in
    let parts = split_fields width (a / 2 ^ width) (a % 2 ^ width) (ground arith) in
    ground (arith, parts.1)
