-- ===== src/Shortcode/Tests.antt =====
-- Runs of the codec and its theorems at concrete IDs.
use linkpulse_link.Base.{◌-◌, ◌%◌, ◌^◌, ◌≡◌, ◌≢◌, ◌↔◌, refl, [], arith, All}
use linkpulse_link.Base.Text.{codes}
use linkpulse_link.Shortcode.{
  encode, low_digits, digit, reverse_in_place, ok, empty_code, foreign_rune, decode,
}
use linkpulse_link.Shortcode.Parse.{InAlphabet, value, decode_iff}
use linkpulse_link.Shortcode.RoundTrip.{decode-encode}
use linkpulse_link.Shortcode.Reverse.{reverse_in_place-reverse}

encode_runs :
    (encode 0 ≡ codes "0")
    × (encode 61 ≡ codes "z")
    × (encode 62 ≡ codes "10")
    × (encode (2 ^ 63 - 1) ≡ codes "AzL8n0Y58m7")
    × (encode (2 ^ 64 - 1) ≡ [])
unfolding encode low_digits digit reverse_in_place
encode_runs = (refl, refl, refl, refl, refl)

decode_runs :
    (decode (codes "AzL8n0Y58m7") ≡ ok (2 ^ 63 - 1))
    × (decode [] ≡ empty_code)
    × (decode (codes "a-b") ≡ foreign_rune b'-')
unfolding decode
decode_runs = (refl, refl, refl)

decode-encode_example : decode (encode 123456789) ≡ ok 123456789
decode-encode_example = decode-encode 123456789 (omega arith)

decode_iff_example :
    (decode (codes "10") ≡ ok 62)
    ↔ ((codes "10" ≢ []) × All InAlphabet (codes "10") × (62 ≡ value 0 (codes "10") % 2 ^ 64))
decode_iff_example = decode_iff (codes "10") 62

reverse_in_place-reverse_run : reverse_in_place (codes "abc") ≡ codes "cba"
reverse_in_place-reverse_run = reverse_in_place-reverse (codes "abc")
