-- ===== src/Shortcode/RoundTrip.antt =====
-- The shape of a code, and `Decode` of `Encode`.
use mathlib.Core.List.{reverse}
use linkpulse_link.Base.{
  zero, suc, ◌/◌, ◌%◌, ◌^◌, ◌≤◌, ◌<◌, ◌≡◌, ◌≢◌, refl, ap, ◌∙◌, [], ◌∷◌, ◌++◌, arith, length,
  length-reverse, All, All-append, All-reverse_aux,
}
use linkpulse_link.Base.Text.{Text}
use linkpulse_link.Base.Word.{Int64, IsNonneg}
use linkpulse_link.Shortcode.{base, digit, low_digits, encode, ok, scan, decode}
use linkpulse_link.Shortcode.Reverse.{reverse_in_place-reverse}
use linkpulse_link.Shortcode.Digits.{
  low_digits_step, index_rune-digit, low_digits-pos, low_digits-zero, digits_induction,
  scan-low_digits, length-low_digits, low_digits-grows,
}
use linkpulse_link.Shortcode.Parse.{InAlphabet}

scan-nil : (n : Int64) → scan [] n ≡ ok n
unfolding scan
scan-nil n = refl

decode-scan : (s : Text) → s ≢ [] → decode s ≡ scan s 0
unfolding decode
decode-scan [] h = absurd (h refl)
decode-scan (r ∷ s) h = refl

encode-zero : encode 0 ≡ digit 0 ∷ []
unfolding encode digit
encode-zero = refl

encode-pos : (n : Int64) → 0 < n → encode n ≡ reverse (low_digits n [])
unfolding encode
encode-pos n h = rw (← reverse_in_place-reverse (low_digits n [])) (ground arith)

-- A code has from one to eleven characters.
pub length-encode :
    (id : Int64) → IsNonneg id → (1 ≤ length (encode id)) × (length (encode id) ≤ 11)
length-encode zero h = rw encode-zero (omega arith)
length-encode (suc n) h =
    let count : length (encode (suc n)) ≡ length (low_digits (suc n) []) =
      ap length (encode-pos (suc n) (omega arith)) ∙ length-reverse (low_digits (suc n) []) in
    let first : Text = digit (suc n % base) ∷ [] in
    (
      omega (
        arith,
        count,
        ap length (low_digits-pos (suc n) [] h (omega arith)),
        low_digits-grows (suc n / base) (omega arith) first,
      ),
      omega (arith, count, length-low_digits 11 (suc n) [] h (omega arith)),
    )

-- `Decode` gives back every ID from 0 to 2 ^ 63 - 1 that `Encode` wrote.
pub decode-encode : (id : Int64) → IsNonneg id → decode (encode id) ≡ ok id
decode-encode zero h = rw encode-zero (unfold decode digit in refl)
decode-encode (suc n) h =
    decode-scan (encode (suc n)) (λ e. omega (arith, ap length e, (length-encode (suc n) h).0))
    ∙ rw (encode-pos (suc n) (omega arith)) (scan-low_digits (suc n) h [] ∙ scan-nil (suc n))

-- So two IDs never share a code.
pub encode_injective :
    (id id' : Int64) → IsNonneg id → IsNonneg id' → encode id ≡ encode id' → id ≡ id'
encode_injective id id' h h' e = ground (arith, decode-encode id h, decode-encode id' h')

low_digits-InAlphabet :
    (n : Int64) → IsNonneg n → (buf : Text) → All InAlphabet buf → All InAlphabet (low_digits n buf)
low_digits-InAlphabet =
    digits_induction (λ n. (buf : Text) → All InAlphabet buf → All InAlphabet (low_digits n buf))
      (λ buf all. rw low_digits-zero all)
      (λ n h lt ih buf all.
        let d : Text = digit (n % base) ∷ [] in
        rw (low_digits-pos n buf h lt) (
          ih (buf ++ d) (
            All-append InAlphabet buf d all
              ((n % base, index_rune-digit (n % base) (omega arith)), tt))))

-- A code holds nothing but digits of the alphabet.
pub encode-InAlphabet : (id : Int64) → IsNonneg id → All InAlphabet (encode id)
encode-InAlphabet zero h = rw encode-zero ((0, index_rune-digit 0 (omega arith)), tt)
encode-InAlphabet (suc n) h = rw (encode-pos (suc n) (omega arith)) (
    All-reverse_aux InAlphabet (low_digits (suc n) []) [] (low_digits-InAlphabet (suc n) h [] tt)
      tt)

-- A negative ID has the empty code: the loop of `Encode` makes no round.
pub encode-negative : (id : Int64) → 2 ^ 63 ≤ id → encode id ≡ []
encode-negative id h =
    let stop : low_digits id [] ≡ [] = low_digits_step id [] ∙ ground arith in
    encode-pos id (omega arith) ∙ rw stop
