-- ===== src/Config/Brokers.antt =====
-- The list that `splitNonEmpty` makes.
use linkpulse_link.Base.{
  ℕ, ◌≡◌, ◌≢◌, inl, inr, refl, false, List, [], ◌∷◌, ◌==◌, arith, All, Bool-cases,
}
use linkpulse_link.Base.Text.{Text}
use linkpulse_link.Net.Strings.{is_empty, trim_left, trim_right, trim_space, push_first, split_seq}
use linkpulse_link.Net.Ip.{has}
use linkpulse_link.Config.{keep_nonempty, split_non_empty}

trim_left-has : (r : ℕ) (s : Text) → has r s ≡ false → has r (trim_left s) ≡ false
unfolding trim_left
trim_left-has r [] h = refl
trim_left-has r (c ∷ s) h = ground (arith, trim_left-has r s)

trim_right-has : (r : ℕ) (s : Text) → has r s ≡ false → has r (trim_right s) ≡ false
unfolding trim_right
trim_right-has r [] h = refl
trim_right-has r (c ∷ s) h = ground (arith, trim_right-has r s)

push_first-has :
    (r d : ℕ) (ps : List Text)
    → (d == r) ≡ false
    → All (λ p. has r p ≡ false) ps
    → All (λ p. has r p ≡ false) (push_first d ps)
unfolding push_first
push_first-has r d [] other h = (ground arith, tt)
push_first-has r d (p ∷ ps) other (hp, h) = (ground arith, h)

split_seq-has : (r : ℕ) (s : Text) → All (λ p. has r p ≡ false) (split_seq r s)
unfolding split_seq
split_seq-has r [] = (refl, tt)
split_seq-has r (c ∷ s) = elim (Bool-cases (c == r)) [
  | inl own ↦ rw own (refl, split_seq-has r s)
  | inr other ↦ rw other (push_first-has r c (split_seq r s) other (split_seq-has r s))
]

-- An entry of the list: there is something in it, and no comma.
abbrev pub IsEntry : Text → Type 0
IsEntry p = (p ≢ []) × (has b',' p ≡ false)

is_empty-ne : (s : Text) → is_empty s ≡ false → s ≢ []
is_empty-ne [] h = cc
is_empty-ne (c ∷ s) h = λ e. cc

keep_nonempty-IsEntry :
    (ps : List Text) → All (λ p. has b',' p ≡ false) ps → All IsEntry (keep_nonempty ps)
keep_nonempty-IsEntry [] h = tt
keep_nonempty-IsEntry (p ∷ ps) (hp, h) = elim (Bool-cases (is_empty (trim_space p))) [
  | inl blank ↦ rw blank (keep_nonempty-IsEntry ps h)
  | inr there ↦
      let clean : has b',' (trim_space p) ≡ false =
        unfold trim_space in trim_right-has b',' (trim_left p) (trim_left-has b',' p hp) in
      rw there ((is_empty-ne (trim_space p) there, clean), keep_nonempty-IsEntry ps h)
]

-- Every broker in the list has a name without a comma, and an empty setting gives no broker, which
-- turns the publication of clicks off.
pub split_non_empty-IsEntry :
    (s : Text) → All IsEntry (split_non_empty s) × (split_non_empty [] ≡ [])
unfolding split_non_empty split_seq trim_space
split_non_empty-IsEntry s = (keep_nonempty-IsEntry (split_seq b',' s) (split_seq-has b',' s), refl)
