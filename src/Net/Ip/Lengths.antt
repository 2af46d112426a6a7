-- ===== src/Net/Ip/Lengths.antt =====
-- Every address that ParseIP finds has 16 bytes.
use linkpulse_link.Base.{
  ℕ, zero, suc, ◌+◌, ◌-◌, ◌*◌, ◌/◌, ◌%◌, ◌≤◌, ◌≡◌, refl, Bool, true, false, not, ◌&&◌, ◌||◌, Option,
  none, some, List, [], ◌∷◌, ◌++◌, arith, ltb, ◌==◌, length, take, drop, length-append, Bool-cases,
  Option-cases, inl, inr,
}
use linkpulse_link.Base.Text.{Text}
use linkpulse_link.Net.Strings.{is_empty}
use linkpulse_link.Net.Ip.{
  Ip, is_digit, v4_fields, zeros, mapped, hex_group, V6, starts_with_dot, v6_embedded, v6_ellipsis,
  v6_colon, v6_groups, v6_expand, after_ellipsis, v6_result, parse_v6, has, v4, v6, neither, Family,
  family, parse_ip,
}

-- A result is a value that has a property.
abbrev Gives : {A : Type 0} → (A → Type 0) → Option A → Type 0
Gives P none = Unit {0}
Gives P (some a) = P a

zeros-length : (n : ℕ) → length (zeros n) ≡ n
zeros-length zero = refl
zeros-length (suc n) = omega (arith, zeros-length n)

take-drop-length : (n : ℕ) (xs : List ℕ) → length (take n xs) + length (drop n xs) ≡ length xs
take-drop-length zero xs = omega arith
take-drop-length (suc n) [] = refl
take-drop-length (suc n) (x ∷ xs) = omega (arith, take-drop-length n xs)

abbrev HasLength : ℕ → List ℕ → Type 0
HasLength n xs = length xs ≡ n

v4_fields-HasLength :
    (s : Text) (val digits : ℕ) (start : Bool) (fields : List ℕ)
    → length fields ≤ 3
    → Gives (HasLength 4) (v4_fields s val digits start fields)
unfolding v4_fields
v4_fields-HasLength [] val digits start fields few = elim (Bool-cases (ltb (length fields) 3)) [
  | inl less ↦ rw less tt
  | inr enough ↦ rw enough (ground (arith, length-append fields (val ∷ [])))
]
v4_fields-HasLength (c ∷ s) val digits start fields few =
    let next = val * 10 + c - b'0' in
    elim (Bool-cases (is_digit c)) [
      | inl digit ↦ elim (Bool-cases ((digits == 1 && val == 0) || ltb 255 next)) [
        | inl bad ↦ rw (digit, bad) tt
        | inr good ↦ rw (digit, good) (v4_fields-HasLength s next (digits + 1) false fields few)
      ]
      | inr other ↦ elim (Bool-cases (c == b'.')) [
        | inr bad ↦ rw (other, bad) tt
        | inl dot ↦ elim (Bool-cases (start || is_empty s || length fields == 3)) [
          | inl bad ↦ rw (other, dot, bad) tt
          | inr good ↦
              rw (other, dot, good)
                (v4_fields-HasLength s 0 0 true (fields ++ val ∷ [])
                  (ground (arith, length-append fields (val ∷ []))))
        ]
      ]
    ]

-- The bytes of a reading of groups are no more than an address has.
abbrev IsShort : V6 → Type 0
IsShort r = length r.0 ≤ 16

module _ (next : Text → List ℕ → Option ℕ → Option V6) (bytes : List ℕ) (short : length bytes ≤ 16)
    (next-IsShort : (t : Text) (e : Option ℕ) → Gives IsShort (next t bytes e)) where
  v6_ellipsis-IsShort : (t : Text) (e : Option ℕ) → Gives IsShort (v6_ellipsis next t bytes e)
  unfolding v6_ellipsis
  v6_ellipsis-IsShort [] (some e) = tt
  v6_ellipsis-IsShort (c ∷ t) (some e) = tt
  v6_ellipsis-IsShort [] none = short
  v6_ellipsis-IsShort (c ∷ t) none = next-IsShort (c ∷ t) (some (length bytes))

  v6_colon-IsShort : (t : Text) (e : Option ℕ) → Gives IsShort (v6_colon next t bytes e)
  unfolding v6_colon
  v6_colon-IsShort [] e = short
  v6_colon-IsShort (c ∷ []) e = tt
  v6_colon-IsShort (c ∷ d ∷ t) e = elim (Bool-cases (c == b':')) [
    | inr bad ↦ rw (bad, v6_colon) tt
    | inl colon ↦ elim (Bool-cases (d == b':')) [
      | inl double ↦ rw (colon, double, v6_colon) (v6_ellipsis-IsShort t e)
      | inr single ↦ rw (colon, single, v6_colon) (next-IsShort (d ∷ t) e)
    ]
  ]

v6_embedded-IsShort : (s : Text) (ip : List ℕ) (e : Option ℕ) → Gives IsShort (v6_embedded s ip e)
unfolding v6_embedded
v6_embedded-IsShort s ip e =
    elim (Bool-cases
      ((elim e [ none ↦ not (length ip == 12) | some _ ↦ false ]) || ltb 12 (length ip))) [
        | inl bad ↦ rw bad tt
        | inr good ↦
            let four = v4_fields-HasLength s 0 0 true [] (omega arith) in
            elim (Option-cases (v4_fields s 0 0 true [])) [
              | inl refused ↦ rw (good, refused) tt
              | inr (fields, read) ↦
                  let long : HasLength 4 fields = rw read at four in
                  rw (good, read) (ground (arith, long, length-append ip fields))
            ]
      ]

v6_groups-IsShort :
    (fuel : ℕ) (s : Text) (ip : List ℕ) (e : Option ℕ)
    → length ip + 2 * fuel ≤ 16
    → Gives IsShort (v6_groups fuel s ip e)
unfolding v6_groups
v6_groups-IsShort zero s ip e fits = omega arith
v6_groups-IsShort (suc fuel) s ip e fits = elim (Option-cases (hex_group s 0 0)) [
  | inl refused ↦ rw (refused, v6_groups) tt
  | inr ((acc, off, rest), read) ↦ elim (Bool-cases (off == 0)) [
    | inl bad ↦ rw (read, bad, v6_groups) tt
    | inr good ↦ elim (Bool-cases (starts_with_dot rest)) [
      | inl dot ↦ rw (read, good, dot, v6_groups) (v6_embedded-IsShort s ip e)
      | inr other ↦
          let bytes = ip ++ acc / 256 ∷ acc % 256 ∷ [] in
          let longer : length bytes ≡ length ip + 2 = length-append ip _ in
          rw (read, good, other, v6_groups)
            (v6_colon-IsShort (v6_groups fuel) bytes (omega (arith, longer))
              (λ t e'. v6_groups-IsShort fuel t bytes e' (omega (arith, longer))) rest e)
    ]
  ]
]

v6_expand-HasLength : (r : V6) → IsShort r → Gives (HasLength 16) (v6_expand r)
unfolding v6_expand
v6_expand-HasLength (ip, e, c ∷ s) short = tt
v6_expand-HasLength (ip, none, []) short = elim (Bool-cases (ltb (length ip) 16)) [
  | inl less ↦ rw less tt
  | inr full ↦ rw full (ground arith)
]
v6_expand-HasLength (ip, some e, []) short = elim (Bool-cases (ltb (length ip) 16)) [
  | inr full ↦ rw full tt
  | inl less ↦
      let shorter : length ip ≤ 16 = short in
      let filled = zeros (16 - length ip) in
      let parts = length-append (take e ip ++ filled) (drop e ip) in
      rw less (
        omega (
          arith,
          shorter,
          parts,
          length-append (take e ip) filled,
          zeros-length (16 - length ip),
          take-drop-length e ip,
        ))
]

v6_result-HasLength : (r : Option V6) → Gives IsShort r → Gives (HasLength 16) (v6_result r)
unfolding v6_result
v6_result-HasLength none short = tt
v6_result-HasLength (some r) short = v6_expand-HasLength r short

parse_v6-HasLength : (s : Text) → Gives (HasLength 16) (parse_v6 s)
unfolding parse_v6
parse_v6-HasLength s = elim (Option-cases (after_ellipsis s)) [
  | inl whole ↦
      rw (whole, parse_v6) (v6_result-HasLength _ (v6_groups-IsShort 8 s [] none (omega arith)))
  | inr ([], ends) ↦ rw (ends, parse_v6) refl
  | inr (c ∷ t, behind) ↦
      rw (behind, parse_v6)
        (v6_result-HasLength _ (v6_groups-IsShort 8 (c ∷ t) [] (some 0) (omega arith)))
]

mapped-HasLength :
    (r : Option (List ℕ))
    → Gives (HasLength 4) r
    → Gives (HasLength 16) (elim r [ none ↦ none | some fields ↦ some (mapped fields) ])
mapped-HasLength none four = tt
mapped-HasLength (some fields) four = omega (arith, four)

family-HasLength : (s : Text) (f : Family) → family s ≡ f → Gives (HasLength 16) (parse_ip s)
unfolding parse_ip
family-HasLength s neither e = rw (e, parse_ip) tt
family-HasLength s v4 e =
    rw (e, parse_ip) (mapped-HasLength _ (v4_fields-HasLength s 0 0 true [] (omega arith)))
family-HasLength s v6 e = elim (Bool-cases (has b'%' s)) [
  | inl zone ↦ rw (e, zone, parse_ip) tt
  | inr bare ↦ rw (e, bare, parse_ip) (parse_v6-HasLength s)
]

-- An address that ParseIP finds has 16 bytes.
pub parse_ip-length : (s : Text) (ip : Ip) → parse_ip s ≡ some ip → length ip ≡ 16
parse_ip-length s ip e = rw e at (family-HasLength s (family s) refl)
