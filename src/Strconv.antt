-- ===== src/Strconv.antt =====
-- Go's package strconv, as far as the program calls it: FormatInt to base 10, and Atoi.
pub mod RoundTrip
mod Tests
use linkpulse_link.Base.{
  ℕ, zero, suc, ◌+◌, ◌-◌, ◌*◌, ◌/◌, ◌%◌, ◌^◌, Bool, ◌&&◌, Option, none, some, List, [], ◌∷◌, ◌++◌,
  if◌then◌else◌, ltb, leb, ◌==◌,
}
use linkpulse_link.Base.Text.{Text}
use linkpulse_link.Base.Int.{ℤ, pos, negsuc}
use linkpulse_link.Base.Word.{Int64, slt}
use linkpulse_link.Net.Strings.{is_empty}

-- The decimal form of a number below 10 ^ fuel.
unfoldable pub decimal : ℕ → ℕ → Text
decimal zero n = []
decimal (suc fuel) n =
    let front = decimal fuel (n / 10) in
    if ltb n 10 then (b'0' + n) ∷ [] else front ++ (b'0' + n % 10) ∷ []

-- `strconv.FormatInt(id, 10)`; an int64 has at most 19 digits.
unfoldable pub format_int : Int64 → Text
unfolding decimal
format_int id = if slt id 0 then b'-' ∷ decimal 20 (2 ^ 64 - id) else decimal 20 id

unfoldable pub digits : ℕ → Text → Option ℕ
digits acc [] = some acc
digits acc (c ∷ s) =
    let more = digits (acc * 10 + c - b'0') s in if leb b'0' c && leb c b'9' then more else none

-- A nonempty run of digits whose value is at most `limit`.
unfoldable pub magnitude : ℕ → Text → Option ℕ
unfolding digits
magnitude limit s =
    if is_empty s
    then none
    else elim (digits 0 s) [ none ↦ none | some n ↦ if leb n limit then some n else none ]

abbrev pub negated : ℕ → ℤ
negated zero = pos 0
negated (suc n) = negsuc n

abbrev map_option : {A B : Type 0} → (A → B) → Option A → Option B
map_option f none = none
map_option f (some a) = some (f a)

-- `strconv.Atoi` for a 64-bit int; `none` is the error.
unfoldable pub atoi : Text → Option ℤ
unfolding magnitude
atoi [] = none
atoi (c ∷ s) =
    if c == b'-'
    then map_option negated (magnitude (2 ^ 63) s)
    else if c == b'+'
    then map_option pos (magnitude (2 ^ 63 - 1) s)
    else map_option pos (magnitude (2 ^ 63 - 1) (c ∷ s))

-- The number that an int64 stands for.
abbrev pub signed : Int64 → ℤ
signed id = if slt id 0 then negated (2 ^ 64 - id) else pos id
