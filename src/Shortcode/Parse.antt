-- ===== src/Shortcode/Parse.antt =====
-- What `Decode` accepts, and what it returns.
use mathlib.Core.List.{append-nil, cons-ne-nil}
use linkpulse_link.Base.{
  ℕ, ◌+◌, ◌*◌, ◌%◌, ◌^◌, ◌≡◌, ◌≢◌, ◌↔◌, refl, sym, ap, ◌∙◌, none, some, [], ◌∷◌, ◌++◌, arith, All,
  Option-cases, inl, inr,
}
use linkpulse_link.Base.Text.{Text}
use linkpulse_link.Base.Word.{Int64, add64, mul64}
use linkpulse_link.Shortcode.{alphabet, base, index_rune, ok, foreign_rune, scan, decode}

abbrev pub InAlphabet : ℕ → Type 0
InAlphabet r = (i : ℕ) × (index_rune alphabet r ≡ some i)

-- The place of a digit, and 0 for any other character.
abbrev pub place : ℕ → ℕ
place r = elim (index_rune alphabet r) [ none ↦ 0 | some i ↦ i ]

-- The number that digits spell behind `n`, with no bound.
abbrev pub value : ℕ → Text → ℕ
value n [] = n
value n (r ∷ s) = value (n * 62 + place r) s

place_lem : (r : ℕ) {i : ℕ} → index_rune alphabet r ≡ some i → place r ≡ i
place_lem r e = rw (e, place)

scan-some :
    (r : ℕ) (s : Text) (n : Int64) {i : ℕ}
    → index_rune alphabet r ≡ some i
    → scan (r ∷ s) n ≡ scan s (add64 (mul64 n base) i)
unfolding scan
scan-some r s n e = rw (e, scan)

scan-none :
    (r : ℕ) (s : Text) (n : Int64) → index_rune alphabet r ≡ none → scan (r ∷ s) n ≡ foreign_rune r
unfolding scan
scan-none r s n e = rw (e, scan)

scan-value :
    (s rest : Text) (n : ℕ)
    → All InAlphabet s
    → scan (s ++ rest) (n % 2 ^ 64) ≡ scan rest (value n s % 2 ^ 64)
scan-value [] rest n h = refl
scan-value (r ∷ s) rest n ((i, e), h) =
    scan-some r (s ++ rest) (n % 2 ^ 64) e
    ∙ ap (scan (s ++ rest)) (omega (arith, place_lem r e))
    ∙ scan-value s rest (n * 62 + place r) h

scan-InAlphabet : (s : Text) (n m : Int64) → scan s n ≡ ok m → All InAlphabet s
scan-InAlphabet [] n m h = tt
scan-InAlphabet (r ∷ s) n m h = elim (Option-cases (index_rune alphabet r)) [
  | inl e ↦ cc (scan-none r s n e)
  | inr (i, e) ↦ ((i, e), scan-InAlphabet s _ m (rw (scan-some r s n e) at h))
]

scan-All : (s : Text) → All InAlphabet s → scan s 0 ≡ ok (value 0 s % 2 ^ 64)
scan-All s h =
    let whole : scan (s ++ []) (0 % 2 ^ 64) ≡ scan [] (value 0 s % 2 ^ 64) = scan-value s [] 0 h in
    rw (append-nil s) at whole ∙ unfold scan in refl

decode-scan : (r : ℕ) (s : Text) → decode (r ∷ s) ≡ scan (r ∷ s) 0
unfolding decode
decode-scan r s = refl

-- `Decode` succeeds exactly on the non-empty texts over the alphabet. The result is the number
-- that the digits spell, reduced modulo 2 ^ 64: a code that is too long wraps without an error.
pub decode_iff :
    (s : Text) (n : Int64)
    → (decode s ≡ ok n) ↔ ((s ≢ []) × All InAlphabet s × (n ≡ value 0 s % 2 ^ 64))
decode_iff [] n = (λ e. absurd (unfold decode in cc e), λ h. absurd (h.0 refl))
decode_iff (r ∷ s) n = (
  λ e.
      let all = scan-InAlphabet (r ∷ s) 0 n (sym (decode-scan r s) ∙ e) in
      (cons-ne-nil r s, all, cc (e, decode-scan r s, scan-All (r ∷ s) all)),
  λ h. decode-scan r s ∙ scan-All (r ∷ s) h.1 ∙ ap ok (sym h.2),
)

-- `Decode` reports the first character that is not in the alphabet, whatever follows it.
pub decode_foreign :
    (s : Text) (r : ℕ) (rest : Text)
    → All InAlphabet s
    → index_rune alphabet r ≡ none
    → decode (s ++ r ∷ rest) ≡ foreign_rune r
decode_foreign [] r rest h e = decode-scan r rest ∙ scan-none r rest 0 e
decode_foreign (c ∷ s) r rest h e =
    decode-scan c (s ++ r ∷ rest)
    ∙ scan-value (c ∷ s) (r ∷ rest) 0 h
    ∙ scan-none r rest (value 0 (c ∷ s) % 2 ^ 64) e
