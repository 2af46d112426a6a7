-- ===== src/Shortcode/Reverse.antt =====
-- The loop of swaps turns the buffer round.
use mathlib.Core.List.{reverse, reverse-append, append_assoc, append-nil}
use linkpulse_link.Base.{
  ℕ, zero, suc, ◌+◌, ◌-◌, ◌≤◌, ◌<◌, ◌≡◌, refl, ap, ◌∙◌, ◌⊎◌, inl, inr, [], ◌∷◌, ◌++◌, arith, length,
  length-append, get_or, set,
}
use linkpulse_link.Base.Text.{Text}
use linkpulse_link.Shortcode.{swap, swap_loop, reverse_in_place}

get_or-append :
    (pre : Text) (x : ℕ) (post : Text) (d : ℕ) → get_or (pre ++ x ∷ post) (length pre) d ≡ x
get_or-append [] x post d = refl
get_or-append (a ∷ pre) x post d = get_or-append pre x post d

set-append :
    (pre : Text) (x : ℕ) (post : Text) (v : ℕ)
    → set (pre ++ x ∷ post) (length pre) v ≡ pre ++ v ∷ post
set-append [] x post v = refl
set-append (a ∷ pre) x post v = ap (λ t. a ∷ t) (set-append pre x post v)

last_view : (m : Text) → (m ≡ []) ⊎ ((init : Text) × (y : ℕ) × (m ≡ init ++ y ∷ []))
last_view [] = inl refl
last_view (x ∷ m) = elim (last_view m) [
  | inl e ↦ inr ([], x, rw e)
  | inr (init, y, e) ↦ inr (x ∷ init, y, rw e)
]

module _ (pre : Text) (x : ℕ) (mid rest : Text) where
  get_or-first : (d : ℕ) → get_or (pre ++ x ∷ mid ++ rest) (length pre) d ≡ x
  get_or-first d = rw append_assoc (get_or-append pre x (mid ++ rest) d)

  set-first : (v : ℕ) → set (pre ++ x ∷ mid ++ rest) (length pre) v ≡ pre ++ v ∷ mid ++ rest
  set-first v =
      rw (append_assoc pre (x ∷ mid) rest, append_assoc pre (v ∷ mid) rest)
        (set-append pre x (mid ++ rest) v)

length_ends :
    (pre : Text) (x y : ℕ) (mid : Text) → length (pre ++ x ∷ mid) ≡ length (pre ++ y ∷ mid)
length_ends [] x y mid = refl
length_ends (a ∷ pre) x y mid = ap suc (length_ends pre x y mid)

-- A swap of the two ends of a segment.
swap-ends :
    (pre : Text) (x : ℕ) (mid : Text) (y : ℕ) (post : Text)
    → swap (length pre) (length (pre ++ x ∷ mid)) (pre ++ x ∷ mid ++ y ∷ post)
      ≡ pre ++ y ∷ mid ++ x ∷ post
unfolding swap
swap-ends pre x mid y post =
    rw
      (
        get_or-append (pre ++ x ∷ mid) y post 0,
        get_or-first pre x mid (y ∷ post) 0,
        set-first pre x mid (y ∷ post) y,
        length_ends pre x y mid,
      )
      (set-append (pre ++ y ∷ mid) y post x)

swap_loop_done : (fuel i j : ℕ) (buf : Text) → j ≤ i → swap_loop fuel i j buf ≡ buf
unfolding swap_loop
swap_loop_done zero i j buf h = refl
swap_loop_done (suc fuel) i j buf h = ground arith

swap_loop_step :
    (fuel i j : ℕ) (buf : Text)
    → i < j
    → swap_loop (suc fuel) i j buf ≡ swap_loop fuel (i + 1) (j - 1) (swap i j buf)
unfolding swap_loop
swap_loop_step fuel i j buf h = ground arith

reverse-ends :
    (x : ℕ) (init : Text) (y : ℕ) → reverse (x ∷ init ++ y ∷ []) ≡ y ∷ (reverse init ++ x ∷ [])
reverse-ends x init y =
    reverse-append (x ∷ init) (y ∷ []) ∙ ap (λ t. y ∷ t) (reverse-append (x ∷ []) init)

-- One round on a segment with two ends.
swap_loop-ends :
    (fuel i j : ℕ) (pre : Text) (x : ℕ) (init : Text) (y : ℕ) (post : Text)
    → i ≡ length pre
    → suc j ≡ i + length (x ∷ init ++ y ∷ [])
    → swap_loop (suc fuel) i j (pre ++ (x ∷ init ++ y ∷ []) ++ post)
      ≡ swap_loop fuel (i + 1) (j - 1) (pre ++ y ∷ [] ++ init ++ x ∷ post)
swap_loop-ends fuel i j pre x init y post ei ej =
    let end : j ≡ length (pre ++ x ∷ init) =
      omega (arith, length-append pre (x ∷ init), length-append (x ∷ init) (y ∷ [])) in
    let before : (pre ++ (x ∷ init ++ y ∷ []) ++ post) ≡ (pre ++ x ∷ init ++ y ∷ post) =
      simp append_assoc in
    let after : (pre ++ y ∷ [] ++ init ++ x ∷ post) ≡ (pre ++ y ∷ init ++ x ∷ post) =
      simp append_assoc in
    swap_loop_step fuel i j _ (omega (arith, length-append (x ∷ init) (y ∷ [])))
    ∙ ap (swap_loop fuel (i + 1) (j - 1))
        (rw (before, ei, end, after) (swap-ends pre x init y post))

-- The segment between `pre` and `post` is turned round; `i` is its first place and `j` its last.
swap_loop-segment :
    (fuel i j : ℕ) (pre mid post : Text)
    → i ≡ length pre
    → suc j ≡ i + length mid
    → length mid ≤ suc fuel
    → swap_loop fuel i j (pre ++ mid ++ post) ≡ pre ++ reverse mid ++ post
swap_loop-segment fuel i j pre [] post ei ej hf = swap_loop_done fuel i j _ (omega arith)
swap_loop-segment zero i j pre (x ∷ []) post ei ej hf = swap_loop_done zero i j _ (omega arith)
swap_loop-segment zero i j pre (x ∷ y ∷ m) post ei ej hf = absurd (omega arith)
swap_loop-segment (suc fuel) i j pre (x ∷ m) post ei ej hf = elim (last_view m) [
  | inl e ↦ rw e (swap_loop_done (suc fuel) i j _ (omega (arith, ap length e)))
  | inr (init, y, e) ↦
      let count : length (init ++ y ∷ []) ≡ length init + 1 = length-append init (y ∷ []) in
      let size : length m ≡ length init + 1 = ap length e ∙ count in
      rw (e, reverse-ends x init y)
        (swap_loop-ends fuel i j pre x init y post ei (omega (arith, count, size))
          ∙ swap_loop-segment fuel (i + 1) (j - 1) (pre ++ y ∷ []) init (x ∷ post)
              (omega (arith, length-append pre (y ∷ []))) (omega (arith, size))
              (omega (arith, size))
          ∙ simp append_assoc)
]

swap_loop-reverse :
    (x : ℕ) (m : Text) → swap_loop (suc (length m)) 0 (length m) (x ∷ m) ≡ reverse (x ∷ m)
swap_loop-reverse x m =
    rw (append-nil (x ∷ m), append-nil (reverse (x ∷ m))) at
      (swap_loop-segment (suc (length m)) 0 (length m) [] (x ∷ m) [] refl (omega arith)
        (omega arith))

-- The swaps of `Encode` reverse the buffer, of any length.
pub reverse_in_place-reverse : (buf : Text) → reverse_in_place buf ≡ reverse buf
unfolding reverse_in_place swap_loop
reverse_in_place-reverse [] = refl
reverse_in_place-reverse (x ∷ m) =
    let last : length (x ∷ m) - 1 ≡ length m = omega arith in
    ap (λ j. swap_loop (suc (length m)) 0 j (x ∷ m)) last ∙ swap_loop-reverse x m
