-- ===== src/Shortcode/Digits.antt =====
-- The digits that the loop of `Encode` appends.
use mathlib.Core.List.{reverse, reverse-append}
use mathlib.Core.Logic.{ite, dite}
use mathlib.Core.WellFounded
use mathlib.Core.WellFounded.{Acc, WellFounded, Acc-prop}
use native.Mathlib.Decide.{dec_lt}
use native.Mathlib.Nat.{pow-suc}
use linkpulse_link.Base.{
  ℕ, zero, suc, ◌+◌, ◌/◌, ◌%◌, ◌^◌, ◌≤◌, ◌<◌, ◌≡◌, refl, ap, ◌∙◌, Bool, true, false, Option, none,
  some, [], ◌∷◌, ◌++◌, arith, ◌==◌, ==_iff, length, length-append, lt_wf, holds_below, below_sound,
}
use linkpulse_link.Base.Text.{Text}
use linkpulse_link.Base.Word.{Int64, IsNonneg}
use linkpulse_link.Shortcode.{
  alphabet, base, positive, quotient_lt, digit, emit, low_digits, index_rune, scan,
}

-- Any two proofs of `Acc` are equal.
emit_step :
    (n : Int64) (w : Acc ◌<◌ n) (w' : Acc ◌<◌ (n / base)) (buf : Text)
    → emit n w buf
      ≡ ite (dec_lt 0 (positive n)) (emit (n / base) w' (buf ++ digit (n % base) ∷ [])) buf
unfolding emit
emit_step n (Acc.intro _ smaller) w' buf = λ i.
    dite (dec_lt 0 (positive n))
      (λ h.
        emit (n / base) (Acc-prop (smaller (n / base) (quotient_lt h)) w' i)
          (buf ++ digit (n % base) ∷ []))
      (λ _. buf)

pub low_digits_step :
    (n : Int64) (buf : Text)
    → low_digits n buf
      ≡ ite (dec_lt 0 (positive n)) (low_digits (n / base) (buf ++ digit (n % base) ∷ [])) buf
unfolding low_digits
low_digits_step n = emit_step n (lt_wf.apply n) (lt_wf.apply (n / base))

found : Option ℕ → ℕ → Bool
found none d = false
found (some i) d = i == d

found_lem : (o : Option ℕ) (d : ℕ) → found o d ≡ true → o ≡ some d
unfolding found
found_lem none d h = cc
found_lem (some i) d h = ap some ((==_iff i d).0 h)

digit_table : holds_below (λ d. found (index_rune alphabet (digit d)) d) 62 ≡ true
unfolding holds_below found digit
digit_table = refl

-- Every digit is found at its own place.
pub index_rune-digit : (d : ℕ) → d < 62 → index_rune alphabet (digit d) ≡ some d
index_rune-digit d h =
    found_lem (index_rune alphabet (digit d)) d (below_sound _ 62 d digit_table h)

-- Reading the lowest digit behind the others gives the number.
scan_last :
    (n : Int64) (out : Text) → IsNonneg n → scan (digit (n % base) ∷ out) (n / base) ≡ scan out n
unfolding scan
scan_last n out h =
    rw (index_rune-digit (n % base) (omega arith), scan) (ap (scan out) (omega arith))

-- The loop on a number above 0, and on 0.
pub low_digits-pos :
    (n : Int64) (buf : Text)
    → IsNonneg n
    → 0 < n
    → low_digits n buf ≡ low_digits (n / base) (buf ++ digit (n % base) ∷ [])
low_digits-pos n buf h lt = low_digits_step n buf ∙ ground arith

pub low_digits-zero : (buf : Text) → low_digits 0 buf ≡ buf
low_digits-zero buf = low_digits_step 0 buf ∙ ground arith

-- Induction over the rounds of the loop.
pub digits_induction {ℓ} :
    (C : Int64 → Type ℓ)
    → C 0
    → ((n : Int64) → IsNonneg n → 0 < n → C (n / base) → C n)
    → (n : Int64) → IsNonneg n
    → C n
digits_induction C start step n = WellFounded.induction lt_wf {C = λ m. IsNonneg m → C m} n go
  where
    go : (m : ℕ) → ((k : ℕ) → k < m → IsNonneg k → C k) → IsNonneg m → C m
    go zero ih h = start
    go (suc m) ih h = step (suc m) h (omega arith) (ih (suc m / base) (omega arith) (omega arith))

pub scan-low_digits :
    (n : Int64)
    → IsNonneg n
    → (buf : Text) → scan (reverse (low_digits n buf)) 0 ≡ scan (reverse buf) n
scan-low_digits =
    digits_induction
      (λ n. (buf : Text) → scan (reverse (low_digits n buf)) 0 ≡ scan (reverse buf) n)
      (λ buf. rw low_digits-zero)
      (λ n h lt ih buf.
        rw (low_digits-pos n buf h lt, ih (buf ++ digit (n % base) ∷ []), reverse-append)
          (scan_last n (reverse buf) h))

-- How long the loop makes the buffer.
pub length-low_digits :
    (k : ℕ) (n : Int64) (buf : Text)
    → IsNonneg n
    → n < 62 ^ k
    → length (low_digits n buf) ≤ length buf + k
length-low_digits k zero buf h fits = omega (arith, ap length (low_digits-zero buf))
length-low_digits zero (suc n) buf h fits = absurd (omega arith)
length-low_digits (suc k) (suc n) buf h fits = rw (low_digits-pos (suc n) buf h (omega arith)) (
    omega (
      arith,
      length-low_digits k (suc n / base) (buf ++ digit (suc n % base) ∷ []) (omega arith)
          (omega (arith, pow-suc 62 k)),
      length-append buf (digit (suc n % base) ∷ []),
    ))

-- The loop only appends.
pub low_digits-grows :
    (n : Int64) → IsNonneg n → (buf : Text) → length buf ≤ length (low_digits n buf)
low_digits-grows =
    digits_induction (λ n. (buf : Text) → length buf ≤ length (low_digits n buf))
      (λ buf. rw low_digits-zero (omega arith))
      (λ n h lt ih buf. rw (low_digits-pos n buf h lt) (
        omega
          (arith, ih (buf ++ digit (n % base) ∷ []), length-append buf (digit (n % base) ∷ []))))
