-- ===== src/Link/Validate/Hosts.antt =====
-- `isBlockedHost` on IPv4 addresses in decimal, and on host names.
use Prim.Native.Nat.{bit_and}
use linkpulse_link.Base.{
  ℕ, zero, suc, ◌-◌, ◌≤◌, ◌<◌, ◌≡◌, ◌↔◌, ◌⊎◌, ◌∙◌, refl, inl, inr, true, false, ◌&&◌, some, none,
  [], ◌∷◌, arith, ltb, leb, ◌==◌, if◌then◌else◌, length, drop, All, All-append, Bool-cases,
  holds_below, below_sound,
}
use linkpulse_link.Base.Text.{Text, codes, text_eq, text_eq_sound}
use linkpulse_link.Net.Strings.{to_lower, lower_rune, has_suffix}
use linkpulse_link.Net.Ip.{
  mapped, parse_ip, is_loopback, is_private, is_unspecified, is_link_local_unicast,
  is_link_local_multicast, has,
}
use linkpulse_link.Net.Ip.Quads.{octet, quad, parse_ip-quad}
use linkpulse_link.Net.Ip.Zones.{parse_ip-zone}
use linkpulse_link.Link.Validate.{is_internal, is_blocked_host}

-- The internal IPv4 ranges: 127/8, 10/8, 172.16/12, 192.168/16, 0.0.0.0, 169.254/16, 224.0.0/24.
abbrev pub IsInner : ℕ → ℕ → ℕ → ℕ → Type 0
IsInner a b c d =
    (a ≡ 127)
    ⊎ (a ≡ 10)
    ⊎ ((a ≡ 172) × (16 ≤ b) × (b < 32))
    ⊎ ((a ≡ 192) × (b ≡ 168))
    ⊎ ((a ≡ 0) × (b ≡ 0) × (c ≡ 0) × (d ≡ 0))
    ⊎ ((a ≡ 169) × (b ≡ 254))
    ⊎ ((a ≡ 224) × (b ≡ 0) × (c ≡ 0))

high_nibble_table :
    holds_below
      (λ b.
        if leb 16 b && ltb b 32
        then bit_and b 0xf0 == 16
        else (if bit_and b 0xf0 == 16 then false else true))
      256
    ≡ true
unfolding holds_below
high_nibble_table = refl

high_nibble_iff : (b : ℕ) → b < 256 → ((bit_and b 0xf0 == 16) ≡ true) ↔ ((16 ≤ b) × (b < 32))
high_nibble_iff b h = ground (arith, below_sound _ 256 b high_nibble_table h)

is_internal_iff :
    (a b c d : ℕ) → b < 256 → (is_internal (mapped (a ∷ b ∷ c ∷ d ∷ [])) ≡ true) ↔ IsInner a b c d
unfolding is_internal is_loopback is_private is_unspecified is_link_local_unicast
    is_link_local_multicast text_eq
is_internal_iff a b c d hb = ground (arith, high_nibble_iff b hb)

-- The characters of a dotted address: none is a letter.
abbrev IsQuadRune : ℕ → Type 0
IsQuadRune r = r < 58

octet-IsQuadRune : (n : ℕ) → n < 256 → All IsQuadRune (octet n)
octet-IsQuadRune n h = ground arith

quad-IsQuadRune :
    (a b c d : ℕ) → a < 256 → b < 256 → c < 256 → d < 256 → All IsQuadRune (quad a b c d)
quad-IsQuadRune a b c d ha hb hc hd = All-append IsQuadRune (octet a) _ (octet-IsQuadRune a ha) (
  omega arith,
  All-append IsQuadRune (octet b) _ (octet-IsQuadRune b hb) (
    omega arith,
    All-append IsQuadRune (octet c) _ (octet-IsQuadRune c hc) (omega arith, octet-IsQuadRune d hd),
  ),
)

to_lower-quad : (s : Text) → All IsQuadRune s → to_lower s ≡ s
unfolding to_lower
to_lower-quad [] h = refl
to_lower-quad (r ∷ s) (hr, hs) = ground (arith, to_lower-quad s hs)

All-drop : (n : ℕ) (s : Text) → All IsQuadRune s → All IsQuadRune (drop n s)
All-drop zero s h = h
All-drop (suc n) [] h = tt
All-drop (suc n) (r ∷ s) (hr, hs) = All-drop n s hs

-- A text with a letter in front or behind a dot is no dotted address.
quad-ne-localhost : (s : Text) → All IsQuadRune s → text_eq s (codes "localhost") ≡ false
quad-ne-localhost s h = elim (Bool-cases (text_eq s (codes "localhost"))) [
  | inr e ↦ e
  | inl e ↦ absurd (omega (arith, (rw (text_eq_sound s _ e) at h).0))
]

has_suffix-quad : (s : Text) → All IsQuadRune s → has_suffix s (codes ".localhost") ≡ false
unfolding has_suffix
has_suffix-quad s h = elim (Bool-cases (text_eq (drop (length s - 10) s) (codes ".localhost"))) [
  | inr e ↦ ground arith
  | inl e ↦ absurd (
      omega (
        arith,
        (rw (text_eq_sound (drop (length s - 10) s) (codes ".localhost") e) at
            (All-drop (length s - 10) s h)).1.0,
      ))
]

is_blocked_host-outer :
    (s : Text)
    → text_eq (to_lower s) (codes "localhost") ≡ false
    → has_suffix (to_lower s) (codes ".localhost") ≡ false
    → is_blocked_host s ≡ (elim (parse_ip s) [ some ip ↦ is_internal ip | none ↦ false ])
unfolding is_blocked_host
is_blocked_host-outer s e f = rw (e, f)

is_blocked_host-quad :
    (a b c d : ℕ)
    → a < 256
    → b < 256
    → c < 256
    → d < 256
    → is_blocked_host (quad a b c d) ≡ is_internal (mapped (a ∷ b ∷ c ∷ d ∷ []))
is_blocked_host-quad a b c d ha hb hc hd =
    let runes = quad-IsQuadRune a b c d ha hb hc hd in
    let same = to_lower-quad (quad a b c d) runes in
    is_blocked_host-outer (quad a b c d) (rw same (quad-ne-localhost _ runes))
      (rw same (has_suffix-quad _ runes))
    ∙ rw (parse_ip-quad a b c d ha hb hc hd)

-- A dotted address of four octets is blocked exactly if it lies in one of the internal ranges.
pub is_blocked_host-quad_iff :
    (a b c d : ℕ)
    → a < 256
    → b < 256
    → c < 256
    → d < 256
    → (is_blocked_host (quad a b c d) ≡ true) ↔ IsInner a b c d
is_blocked_host-quad_iff a b c d ha hb hc hd =
    rw (is_blocked_host-quad a b c d ha hb hc hd) (is_internal_iff a b c d hb)

lower_percent : (r : ℕ) → (r == b'%') ≡ true → (lower_rune r == b'%') ≡ true
unfolding lower_rune
lower_percent r h = ground arith

has-to_lower : (s : Text) → has b'%' s ≡ true → has b'%' (to_lower s) ≡ true
unfolding to_lower
has-to_lower [] h = h
has-to_lower (r ∷ s) h = ground (arith, has-to_lower s)

zone-ne-localhost :
    (s : Text) → has b'%' s ≡ true → text_eq (to_lower s) (codes "localhost") ≡ false
zone-ne-localhost s zone = elim (Bool-cases (text_eq (to_lower s) (codes "localhost"))) [
  | inr e ↦ e
  | inl e ↦ cc (rw (text_eq_sound (to_lower s) (codes "localhost") e) at (has-to_lower s zone))
]

-- A host with `%` in it, as a link-local address with a zone, is no address for ParseIP; so it is
-- let through unless its name ends in ".localhost".
pub is_blocked_host-zone :
    (s : Text)
    → has b'%' s ≡ true
    → has_suffix (to_lower s) (codes ".localhost") ≡ false
    → is_blocked_host s ≡ false
is_blocked_host-zone s zone name =
    is_blocked_host-outer s (zone-ne-localhost s zone) name ∙ rw (parse_ip-zone s zone)

-- The names that the code means to block, and forms of the same hosts that it lets through: the
-- name with the final dot of the root zone, a link-local address with a zone, a short address.
host_runs :
    (is_blocked_host (codes "LocalHost") ≡ true)
    × (is_blocked_host (codes "a.localhost") ≡ true)
    × (is_blocked_host (codes "fe80::1") ≡ true)
    × (is_blocked_host (codes "::1") ≡ true)
    × (is_blocked_host (codes "example.com") ≡ false)
    × (is_blocked_host (codes "localhost.") ≡ false)
    × (is_blocked_host (codes "fe80::1%eth0") ≡ false)
    × (is_blocked_host (codes "127.1") ≡ false)
unfolding is_blocked_host to_lower has_suffix parse_ip is_loopback is_private is_unspecified
    is_link_local_unicast is_link_local_multicast
host_runs = (refl, refl, refl, refl, refl, refl, refl, refl)
