-- ===== src/Net/Ip.antt =====
-- Go's net.ParseIP and the tests on addresses that the program calls.
pub mod Quads
pub mod Zones
pub mod Lengths
mod Tests
use Prim.Native.Nat.{bit_and}
use linkpulse_link.Base.{
  ℕ, zero, suc, ◌+◌, ◌-◌, ◌*◌, ◌/◌, ◌%◌, Bool, true, false, not, ◌&&◌, ◌||◌, Option, none, some,
  List, [], ◌∷◌, ◌++◌, ltb, leb, ◌==◌, if◌then◌else◌, length, take, drop, get_or,
}
use linkpulse_link.Base.Text.{Text, text_eq}
use linkpulse_link.Net.Strings.{is_empty}

-- An address as 4 or 16 bytes.
abbrev pub Ip : Type 0
Ip = List ℕ

abbrev is_digit : ℕ → Bool
is_digit c = leb b'0' c && leb c b'9'

-- The loop of netip's parseIPv4Fields. `val` and `digits` are the current octet and its length,
-- `start` says that no character or a dot stands before, `fields` holds the octets so far.
unfoldable pub v4_fields : Text → ℕ → ℕ → Bool → List ℕ → Option (List ℕ)
v4_fields [] val digits start fields =
    if ltb (length fields) 3 then none else some (fields ++ val ∷ [])
v4_fields (c ∷ s) val digits start fields =
    let val' = val * 10 + c - b'0' in
    let within = v4_fields s val' (digits + 1) false fields in
    let behind = v4_fields s 0 0 true (fields ++ val ∷ []) in
    if is_digit c
    then (if (digits == 1 && val == 0) || ltb 255 val' then none else within)
    else if c == b'.'
    then (if start || is_empty s || length fields == 3 then none else behind)
    else none

abbrev zeros : ℕ → List ℕ
zeros zero = []
zeros (suc n) = 0 ∷ zeros n

-- The 16 bytes of an IPv4 address.
abbrev pub mapped : List ℕ → Ip
mapped fields = zeros 10 ++ 255 ∷ 255 ∷ fields

abbrev hex_value : ℕ → Option ℕ
hex_value c =
    if is_digit c
    then some (c - b'0')
    else if leb b'a' c && leb c b'f'
    then some (c - b'a' + 10)
    else if leb b'A' c && leb c b'F'
    then some (c - b'A' + 10)
    else none

-- One group of hex digits: its value, its length and the rest; `none` for more than four digits.
unfoldable pub hex_group : Text → ℕ → ℕ → Option (ℕ × ℕ × Text)
hex_group [] acc off = some (acc, off, [])
hex_group (c ∷ s) acc off = elim (hex_value c) [
  | none ↦ some (acc, off, c ∷ s)
  | some d ↦ elim (ltb 3 off) [ true ↦ none | false ↦ hex_group s (acc * 16 + d) (off + 1) ]
]

-- What the loop of parseIPv6 has when it ends: the bytes, the place of the ellipsis, the rest.
abbrev V6 : Type 0
V6 = List ℕ × Option ℕ × Text

abbrev starts_with_dot : Text → Bool
starts_with_dot [] = false
starts_with_dot (c ∷ s) = c == b'.'

-- An embedded IPv4 address must come last.
v6_embedded : Text → List ℕ → Option ℕ → Option V6
v6_embedded s ip ellipsis =
    if (elim ellipsis [ none ↦ not (length ip == 12) | some _ ↦ false ]) || ltb 12 (length ip)
    then none
    else elim (v4_fields s 0 0 true []) [
      | none ↦ none
      | some fields ↦ some (ip ++ fields, ellipsis, [])
    ]

-- After a group: the end, or a colon, which may be the first half of the ellipsis.
v6_ellipsis : (Text → List ℕ → Option ℕ → Option V6) → Text → List ℕ → Option ℕ → Option V6
v6_ellipsis next t bytes (some e) = none
v6_ellipsis next [] bytes none = some (bytes, some (length bytes), [])
v6_ellipsis next t bytes none = next t bytes (some (length bytes))

v6_colon : (Text → List ℕ → Option ℕ → Option V6) → Text → List ℕ → Option ℕ → Option V6
v6_colon next [] bytes e = some (bytes, e, [])
v6_colon next (c ∷ []) bytes e = none
v6_colon next (c ∷ d ∷ t) bytes e = elim (c == b':') [
  | false ↦ none
  | true ↦ elim (d == b':') [ true ↦ v6_ellipsis next t bytes e | false ↦ next (d ∷ t) bytes e ]
]

-- The rounds of parseIPv6; each takes two bytes at least, so eight are enough.
v6_groups : ℕ → Text → List ℕ → Option ℕ → Option V6
v6_groups zero s ip ellipsis = some (ip, ellipsis, s)
v6_groups (suc fuel) s ip ellipsis = elim (hex_group s 0 0) [
  | none ↦ none
  | some (acc, off, rest) ↦ elim (off == 0) [
    | true ↦ none
    | false ↦ elim (starts_with_dot rest) [
      | true ↦ v6_embedded s ip ellipsis
      | false ↦ v6_colon (v6_groups fuel) rest (ip ++ acc / 256 ∷ acc % 256 ∷ []) ellipsis
    ]
  ]
]

v6_expand : V6 → Option Ip
v6_expand (ip, ellipsis, c ∷ s) = none
v6_expand (ip, none, []) = if ltb (length ip) 16 then none else some ip
v6_expand (ip, some e, []) =
    if ltb (length ip) 16 then some (take e ip ++ zeros (16 - length ip) ++ drop e ip) else none

after_ellipsis : Text → Option Text
after_ellipsis (c ∷ d ∷ t) = if c == b':' && d == b':' then some t else none
after_ellipsis _ = none

v6_result : Option V6 → Option Ip
v6_result none = none
v6_result (some r) = v6_expand r

-- parseIPv6 without a zone; ParseIP refuses an address that has one.
parse_v6 : Text → Option Ip
parse_v6 s = elim (after_ellipsis s) [
  | none ↦ v6_result (v6_groups 8 s [] none)
  | some [] ↦ some (zeros 16)
  | some (c ∷ t) ↦ v6_result (v6_groups 8 (c ∷ t) [] (some 0))
]

abbrev pub has : ℕ → Text → Bool
has r [] = false
has r (c ∷ s) = c == r || has r s

-- netip.ParseAddr: the first `.`, `:` or `%` tells the family.
pub data Family : Type 0 where
  v4 v6 neither : Family

family : Text → Family
family [] = neither
family (c ∷ s) =
    let rest = family s in
    if c == b'.' then v4 else if c == b':' then v6 else if c == b'%' then neither else rest

-- `net.ParseIP`
unfoldable pub parse_ip : Text → Option Ip
unfolding family v4_fields parse_v6 v6_result after_ellipsis v6_groups v6_colon v6_ellipsis
    hex_group v6_embedded v6_expand
parse_ip s = elim (family s) [
  | neither ↦ none
  | v4 ↦ elim (v4_fields s 0 0 true []) [ none ↦ none | some fields ↦ some (mapped fields) ]
  | v6 ↦ if has b'%' s then none else parse_v6 s
]

-- `ip.To4()`
unfoldable pub to4 : Ip → Option (List ℕ)
to4 ip =
    if length ip == 4
    then some ip
    else if length ip == 16 && text_eq (take 12 ip) (mapped [])
    then some (drop 12 ip)
    else none

abbrev byte : Ip → ℕ → ℕ
byte ip i = get_or ip i 0

module _ (ip : Ip) where
  unfoldable pub is_loopback : Bool
  unfolding to4
  is_loopback = elim (to4 ip) [ some a ↦ byte a 0 == 127 | none ↦ text_eq ip (zeros 15 ++ 1 ∷ []) ]

  unfoldable pub is_private : Bool
  unfolding to4
  is_private = elim (to4 ip) [
    | some a ↦
        byte a 0 == 10
        || (byte a 0 == 172 && bit_and (byte a 1) 0xf0 == 16)
        || (byte a 0 == 192 && byte a 1 == 168)
    | none ↦ length ip == 16 && bit_and (byte ip 0) 0xfe == 0xfc
  ]

  unfoldable pub is_unspecified : Bool
  unfolding to4
  is_unspecified = elim (to4 ip) [ some a ↦ text_eq a (zeros 4) | none ↦ text_eq ip (zeros 16) ]

  unfoldable pub is_link_local_unicast : Bool
  unfolding to4
  is_link_local_unicast = elim (to4 ip) [
    | some a ↦ byte a 0 == 169 && byte a 1 == 254
    | none ↦ length ip == 16 && byte ip 0 == 0xfe && bit_and (byte ip 1) 0xc0 == 0x80
  ]

  unfoldable pub is_link_local_multicast : Bool
  unfolding to4
  is_link_local_multicast = elim (to4 ip) [
    | some a ↦ byte a 0 == 224 && byte a 1 == 0 && byte a 2 == 0
    | none ↦ length ip == 16 && byte ip 0 == 0xff && bit_and (byte ip 1) 0x0f == 0x02
  ]
