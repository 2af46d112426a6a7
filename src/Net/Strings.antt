-- ===== src/Net/Strings.antt =====
-- Go's package strings, as far as the program calls it, over code points.
use linkpulse_link.Base.{
  ℕ, ◌+◌, ◌-◌, Bool, true, false, ◌&&◌, ◌||◌, List, [], ◌∷◌, leb, ◌==◌, if◌then◌else◌, length, drop,
  map,
}
use linkpulse_link.Base.Text.{Text, text_eq}

abbrev pub is_empty : Text → Bool
is_empty [] = true
is_empty (c ∷ s) = false

-- `unicode.IsSpace`
unfoldable pub is_space : ℕ → Bool
is_space c =
    (leb 9 c && leb c 13)
    || c == 0x20
    || c == 0x85
    || c == 0xa0
    || c == 0x1680
    || (leb 0x2000 c && leb c 0x200a)
    || c == 0x2028
    || c == 0x2029
    || c == 0x202f
    || c == 0x205f
    || c == 0x3000

unfoldable pub trim_left : Text → Text
trim_left [] = []
trim_left (c ∷ s) = let rest = trim_left s in if is_space c then rest else c ∷ s

unfoldable pub trim_right : Text → Text
trim_right [] = []
trim_right (c ∷ s) = let rest = trim_right s in if is_empty rest && is_space c then [] else c ∷ rest

-- `strings.TrimSpace`
unfoldable pub trim_space : Text → Text
unfolding trim_left trim_right is_space
trim_space s = trim_right (trim_left s)

-- `strings.ToLower` on ASCII letters. Among the other characters none has a lower case in
-- "localhost", ".", "http" or "https", the texts that the program compares the result with.
unfoldable pub lower_rune : ℕ → ℕ
lower_rune c = if leb b'A' c && leb c b'Z' then c + 32 else c

unfoldable pub to_lower : Text → Text
unfolding lower_rune
to_lower s = map lower_rune s

-- `strings.HasSuffix`
unfoldable pub has_suffix : Text → Text → Bool
unfolding text_eq
has_suffix s suffix =
    leb (length suffix) (length s) && text_eq (drop (length s - length suffix) s) suffix

-- `strings.Cut(s, sep)` for a separator of one character; the last part says whether it was found.
unfoldable pub cut : ℕ → Text → Text × Text × Bool
cut sep [] = ([], [], false)
cut sep (c ∷ s) =
    let (before, after, found) = cut sep s in
    if c == sep then ([], s, true) else (c ∷ before, after, found)

unfoldable pub push_first : ℕ → List Text → List Text
push_first d [] = (d ∷ []) ∷ []
push_first d (p ∷ ps) = (d ∷ p) ∷ ps

-- The elements of `strings.SplitSeq(s, sep)`, in order; there is at least one.
unfoldable pub split_seq : ℕ → Text → List Text
unfolding push_first
split_seq sep [] = [] ∷ []
split_seq sep (c ∷ s) =
    let rest = split_seq sep s in if c == sep then [] ∷ rest else push_first c rest
