-- ===== src/Net/Ip/Quads.antt =====
-- ParseIP on an IPv4 address in decimal.
use mathlib.Core.List.{append-nil}
use linkpulse_link.Base.{
  ℕ, ◌+◌, ◌-◌, ◌*◌, ◌/◌, ◌%◌, ◌<◌, ◌≡◌, ◌∙◌, refl, Bool, true, false, ◌&&◌, some, List, [], ◌∷◌,
  ◌++◌, arith, ltb, ◌==◌, if◌then◌else◌, length, Bool-cases, inl, inr,
}
use linkpulse_link.Base.Text.{Text}
use linkpulse_link.Net.Strings.{is_empty}
use linkpulse_link.Net.Ip.{v4_fields, mapped, v4, family, parse_ip}

-- The decimal form of an octet.
abbrev pub octet : ℕ → Text
octet n =
    if ltb n 10
    then (b'0' + n) ∷ []
    else if ltb n 100
    then (b'0' + n / 10) ∷ (b'0' + n % 10) ∷ []
    else (b'0' + n / 100) ∷ (b'0' + n / 10 % 10) ∷ (b'0' + n % 10) ∷ []

abbrev pub quad : ℕ → ℕ → ℕ → ℕ → Text
quad a b c d = octet a ++ b'.' ∷ (octet b ++ b'.' ∷ (octet c ++ b'.' ∷ octet d))

v4_fields-digit :
    (d : ℕ) (s : Text) (val digits v : ℕ) (start : Bool) (fields : List ℕ)
    → d < 10
    → v ≡ val * 10 + d
    → v < 256
    → (digits == 1 && val == 0) ≡ false
    → v4_fields ((b'0' + d) ∷ s) val digits start fields ≡ v4_fields s v (digits + 1) false fields
unfolding v4_fields
v4_fields-digit d s val digits v start fields hd e hv free =
    let next : val * 10 + (b'0' + d) - b'0' ≡ v = omega arith in rw (free, next) (ground arith)

-- An octet is read up to its end, in some number of digits.
v4_fields-octet :
    (n : ℕ) (s : Text) (fields : List ℕ)
    → n < 256
    → (k : ℕ) × (v4_fields (octet n ++ s) 0 0 true fields ≡ v4_fields s n k false fields)
v4_fields-octet n s fields h = elim (Bool-cases (ltb n 10)) [
  | inl one ↦
      (1, rw one (v4_fields-digit n s 0 0 n true fields (ground arith) (omega arith) h refl))
  | inr more ↦ elim (Bool-cases (ltb n 100)) [
    | inl two ↦ (
      2,
      rw (more, two)
          (v4_fields-digit (n / 10) _ 0 0 (n / 10) true fields (ground arith) (omega arith)
              (omega arith) refl
            ∙ v4_fields-digit (n % 10) s (n / 10) 1 n false fields (omega arith) (omega arith) h
                (ground arith)),
    )
    | inr three ↦ (
      3,
      rw (more, three)
          (v4_fields-digit (n / 100) _ 0 0 (n / 100) true fields (omega arith) (omega arith)
              (omega arith) refl
            ∙ v4_fields-digit (n / 10 % 10) _ (n / 100) 1 (n / 10) false fields (omega arith)
                (omega arith) (omega arith) (ground arith)
            ∙ v4_fields-digit (n % 10) s (n / 10) 2 n false fields (omega arith) (omega arith) h
                refl),
    )
  ]
]

v4_fields-dot :
    (s : Text) (val digits : ℕ) (fields : List ℕ)
    → (length fields == 3) ≡ false
    → is_empty s ≡ false
    → v4_fields (b'.' ∷ s) val digits false fields ≡ v4_fields s 0 0 true (fields ++ val ∷ [])
unfolding v4_fields
v4_fields-dot s val digits fields h more = rw (h, more)

v4_fields-end :
    (val digits : ℕ) (fields : List ℕ)
    → length fields ≡ 3
    → v4_fields [] val digits false fields ≡ some (fields ++ val ∷ [])
unfolding v4_fields
v4_fields-end val digits fields h = ground arith

-- An octet that is not the last one, with its dot; the last one.
v4_fields-inner :
    (n : ℕ) (s : Text) (fields : List ℕ)
    → n < 256
    → (length fields == 3) ≡ false
    → is_empty s ≡ false
    → v4_fields (octet n ++ b'.' ∷ s) 0 0 true fields ≡ v4_fields s 0 0 true (fields ++ n ∷ [])
v4_fields-inner n s fields h room more =
    let (k, read) = v4_fields-octet n (b'.' ∷ s) fields h in
    read ∙ v4_fields-dot s n k fields room more

v4_fields-last :
    (n : ℕ) (fields : List ℕ)
    → n < 256
    → length fields ≡ 3
    → v4_fields (octet n) 0 0 true fields ≡ some (fields ++ n ∷ [])
v4_fields-last n fields h three =
    let (k, read) = v4_fields-octet n [] fields h in
    rw (append-nil (octet n)) at read ∙ v4_fields-end n k fields three

octet-append : (n : ℕ) (s : Text) → is_empty (octet n ++ s) ≡ false
octet-append n s = ground arith

family-octet : (n : ℕ) (s : Text) → n < 256 → family (octet n ++ b'.' ∷ s) ≡ v4
unfolding family
family-octet n s h = ground arith

parse_ip-v4 :
    (s : Text) {fields : List ℕ}
    → family s ≡ v4
    → v4_fields s 0 0 true [] ≡ some fields
    → parse_ip s ≡ some (mapped fields)
parse_ip-v4 s e f = unfold parse_ip in rw (e, f, parse_ip)

-- ParseIP reads every address a.b.c.d of four octets.
pub parse_ip-quad :
    (a b c d : ℕ)
    → a < 256
    → b < 256
    → c < 256
    → d < 256
    → parse_ip (quad a b c d) ≡ some (mapped (a ∷ b ∷ c ∷ d ∷ []))
parse_ip-quad a b c d ha hb hc hd =
    let last = v4_fields-last d (a ∷ b ∷ c ∷ []) hd refl in
    let third =
      v4_fields-inner c (octet d) (a ∷ b ∷ []) hc refl
        (rw (append-nil (octet d)) at (octet-append d [])) in
    let second = v4_fields-inner b _ (a ∷ []) hb refl (octet-append c (b'.' ∷ octet d)) in
    let first =
      v4_fields-inner a _ [] ha refl (octet-append b (b'.' ∷ (octet c ++ b'.' ∷ octet d))) in
    parse_ip-v4 (quad a b c d) (family-octet a _ ha) (first ∙ second ∙ third ∙ last)
