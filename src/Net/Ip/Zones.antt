-- ===== src/Net/Ip/Zones.antt =====
-- ParseIP refuses a text with `%` in it.
use linkpulse_link.Base.{
  ℕ, ◌+◌, ◌-◌, ◌*◌, ◌≡◌, refl, Bool, true, false, Option, none, some, List, [], ◌∷◌, ◌++◌, arith,
  if◌then◌else◌,
}
use linkpulse_link.Base.Text.{Text}
use linkpulse_link.Net.Ip.{
  Ip, has, v4_fields, Family, v4, v6, neither, family, parse_v6, parse_ip, mapped,
}

v4_fields-zone :
    (s : Text) (val digits : ℕ) (start : Bool) (fields : List ℕ)
    → has b'%' s ≡ true
    → v4_fields s val digits start fields ≡ none
unfolding v4_fields
v4_fields-zone [] val digits start fields h = cc
v4_fields-zone (c ∷ s) val digits start fields h = ground (
  arith,
  v4_fields-zone s (val * 10 + c - b'0') (digits + 1) false fields,
  v4_fields-zone s 0 0 true (fields ++ val ∷ []),
)

-- The cases of `parse_ip`, over the family.
abbrev by_family : Text → Family → Option Ip
by_family s f = elim f [
  | neither ↦ none
  | v4 ↦ elim (v4_fields s 0 0 true []) [ none ↦ none | some fields ↦ some (mapped fields) ]
  | v6 ↦ if has b'%' s then none else parse_v6 s
]

by_family-zone : (s : Text) (f : Family) → has b'%' s ≡ true → by_family s f ≡ none
by_family-zone s neither h = refl
by_family-zone s v4 h = rw (v4_fields-zone s 0 0 true [] h, by_family)
by_family-zone s v6 h = rw h

pub parse_ip-zone : (s : Text) → has b'%' s ≡ true → parse_ip s ≡ none
parse_ip-zone s h = unfold parse_ip in by_family-zone s (family s) h
