-- ===== src/Strconv/RoundTrip.antt =====
-- Atoi reads what FormatInt prints.
use linkpulse_link.Base.{
  ℕ, zero, suc, ◌+◌, ◌-◌, ◌*◌, ◌/◌, ◌%◌, ◌^◌, ◌≤◌, ◌<◌, ◌≡◌, inl, inr, ap, ◌∙◌, false, ◌&&◌, some,
  [], ◌∷◌, ◌++◌, ltb, leb, ◌==◌, arith, Bool-cases,
}
use linkpulse_link.Base.Text.{Text}
use linkpulse_link.Base.Int.{pos}
use linkpulse_link.Base.Word.{Int64, IsInt64, slt}
use linkpulse_link.Net.Strings.{is_empty}
use linkpulse_link.Strconv.{decimal, format_int, digits, magnitude, negated, atoi, signed}

digits-append :
    (acc d : ℕ) (s : Text) (n : ℕ)
    → d < 10
    → digits acc s ≡ some n
    → digits acc (s ++ (b'0' + d) ∷ []) ≡ some (n * 10 + d)
unfolding digits
digits-append acc d [] n hd h = ground arith
digits-append acc d (c ∷ s) n hd h = elim (Bool-cases (leb b'0' c && leb c b'9')) [
  | inl digit ↦ rw digit (digits-append (acc * 10 + c - b'0') d s n hd (rw digit at h))
  | inr other ↦ cc (rw other at h)
]

power_suc : (k : ℕ) → 10 ^ suc k ≡ 10 * 10 ^ k
power_suc k = omega arith

digits-decimal : (k n : ℕ) → n < 10 ^ k → digits 0 (decimal k n) ≡ some n
unfolding decimal digits
digits-decimal zero n h = ap some (omega arith)
digits-decimal (suc k) n h = elim (Bool-cases (ltb n 10)) [
  | inl one ↦ rw one (ground arith)
  | inr more ↦ rw more (
      digits-append 0 (n % 10) (decimal k (n / 10)) (n / 10) (omega arith)
        (digits-decimal k (n / 10) (omega (arith, power_suc k)))
      ∙ ap some (omega arith))
]

-- The form of a positive length starts with a digit.
decimal-head : (k n : ℕ) → (c : ℕ) × (s : Text) × (decimal (suc k) n ≡ c ∷ s) × (48 ≤ c) × (c < 58)
unfolding decimal
decimal-head zero n = elim (Bool-cases (ltb n 10)) [
  | inl one ↦ (b'0' + n, [], rw one, omega arith, ground arith)
  | inr more ↦ (b'0' + n % 10, [], rw more, omega arith, omega arith)
]
decimal-head (suc k) n = elim (Bool-cases (ltb n 10)) [
  | inl one ↦ (b'0' + n, [], rw one, omega arith, ground arith)
  | inr more ↦
      let (c, s, e, lo, hi) = decimal-head k (n / 10) in
      (c, s ++ (b'0' + n % 10) ∷ [], rw more (ap (λ t. t ++ (b'0' + n % 10) ∷ []) e), lo, hi)
]

magnitude-decimal :
    (limit n : ℕ) → n < 10 ^ 20 → n ≤ limit → magnitude limit (decimal 20 n) ≡ some n
unfolding magnitude
magnitude-decimal limit n small within =
    let (c, s, e, _, _) = decimal-head 19 n in
    let present : is_empty (decimal 20 n) ≡ false = ap is_empty e in
    rw (present, digits-decimal 20 n small) (ground arith)

atoi-minus : (s : Text) (n : ℕ) → magnitude (2 ^ 63) s ≡ some n → atoi (b'-' ∷ s) ≡ some (negated n)
unfolding atoi
atoi-minus s n h = rw h

atoi-plain :
    (s : Text) (n c : ℕ) (t : Text)
    → s ≡ c ∷ t
    → 48 ≤ c
    → magnitude (2 ^ 63 - 1) s ≡ some n
    → atoi s ≡ some (pos n)
unfolding atoi
atoi-plain s n c t e low h =
    let minus : (c == b'-') ≡ false = ground arith in
    let plus : (c == b'+') ≡ false = ground arith in
    let h' : magnitude (2 ^ 63 - 1) (c ∷ t) ≡ some n = rw e at h in rw (e, minus, plus, h')

-- Atoi reads back what FormatInt has printed, for every int64.
pub atoi-format_int : (id : Int64) → IsInt64 id → atoi (format_int id) ≡ some (signed id)
unfolding format_int
atoi-format_int id h = elim (Bool-cases (slt id 0)) [
  | inl minus ↦
      let low : 2 ^ 63 ≤ id = ground (arith, minus) in
      rw minus (
        atoi-minus (decimal 20 (2 ^ 64 - id)) (2 ^ 64 - id)
          (magnitude-decimal (2 ^ 63) (2 ^ 64 - id) (omega arith) (omega arith)))
  | inr plus ↦
      let (c, s, e, low, _) = decimal-head 19 id in
      let high : id < 2 ^ 63 = ground (arith, plus) in
      rw plus (
        atoi-plain (decimal 20 id) id c s e low
          (magnitude-decimal (2 ^ 63 - 1) id (omega arith) (omega arith)))
]
