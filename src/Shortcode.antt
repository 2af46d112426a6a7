-- ===== src/Shortcode.antt =====
-- internal/shortcode/base62.go: an ID as a base62 text, and back.
pub mod Reverse
pub mod Digits
pub mod RoundTrip
pub mod Parse
mod Tests
use mathlib.Core.Logic.{dite}
use mathlib.Core.WellFounded.{Acc, WellFounded}
use native.Mathlib.Decide.{dec_lt}
use linkpulse_link.Base.{
  ℕ, zero, suc, ◌+◌, ◌-◌, ◌*◌, ◌/◌, ◌%◌, ◌^◌, ◌<◌, Option, none, some, [], ◌∷◌, ◌++◌, arith, ltb,
  ◌==◌, if◌then◌else◌, length, get_or, set, lt_wf,
}
use linkpulse_link.Base.Text.{Text, codes}
use linkpulse_link.Base.Word.{Int64, add64, mul64}

abbrev pub alphabet : Text
alphabet = codes "0123456789ABCDEFGHIJKLMNOPQRSTUVWXYZabcdefghijklmnopqrstuvwxyz"

abbrev pub base : Int64
base = 62

-- The value of an int64 that is above 0, and 0 for any other.
abbrev pub positive : Int64 → ℕ
positive id = if ltb id (2 ^ 63) then id else 0

pub quotient_lt : {id : Int64} → 0 < positive id → id / base < id
quotient_lt {id} h = ground arith

-- `alphabet[d]`
unfoldable pub digit : ℕ → ℕ
digit d = get_or alphabet d 0

-- `for id > 0 { buf = append(buf, alphabet[id%base]); id /= base }`
emit : (id : Int64) → Acc ◌<◌ id → Text → Text
emit id (Acc.intro _ smaller) buf =
    dite (dec_lt 0 (positive id))
      (λ more.
        emit (id / base) (smaller (id / base) (quotient_lt more)) (buf ++ digit (id % base) ∷ []))
      (λ _. buf)

unfoldable pub low_digits : Int64 → Text → Text
unfolding emit lt_wf dec_lt
low_digits id buf = emit id (lt_wf.apply id) buf

-- `buf[i], buf[j] = buf[j], buf[i]`
unfoldable pub swap : ℕ → ℕ → Text → Text
swap i j buf = set (set buf i (get_or buf j 0)) j (get_or buf i 0)

-- `for i < j { swap; i, j = i+1, j-1 }`. A round brings `i` and `j` closer, so the length of the
-- buffer is enough fuel.
unfoldable pub swap_loop : ℕ → ℕ → ℕ → Text → Text
swap_loop zero i j buf = buf
swap_loop (suc fuel) i j buf =
    let rest = swap_loop fuel (i + 1) (j - 1) (swap i j buf) in if ltb i j then rest else buf

unfoldable pub reverse_in_place : Text → Text
unfolding swap_loop swap
reverse_in_place buf = swap_loop (length buf) 0 (length buf - 1) buf

-- `Encode`
unfoldable pub encode : Int64 → Text
encode id = if id == 0 then get_or alphabet 0 0 ∷ [] else reverse_in_place (low_digits id [])

-- `strings.IndexRune(s, r)`; `none` is -1.
abbrev pub index_rune : Text → ℕ → Option ℕ
index_rune [] r = none
index_rune (c ∷ s) r =
    if c == r then some 0 else elim (index_rune s r) [ none ↦ none | some i ↦ some (suc i) ]

pub data Decoded : Type 0 where
  ok : Int64 → Decoded
  empty_code : Decoded
  foreign_rune : ℕ → Decoded

-- The loop of `Decode`, with the value so far.
unfoldable pub scan : Text → Int64 → Decoded
scan [] n = ok n
scan (r ∷ s) n = elim (index_rune alphabet r) [
  | none ↦ foreign_rune r
  | some i ↦ scan s (add64 (mul64 n base) i)
]

-- `Decode`
unfoldable pub decode : Text → Decoded
unfolding scan
decode [] = empty_code
decode (r ∷ s) = scan (r ∷ s) 0
