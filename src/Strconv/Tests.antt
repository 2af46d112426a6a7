-- ===== src/Strconv/Tests.antt =====
-- Numbers that are printed and read.
use linkpulse_link.Base.{◌-◌, ◌^◌, ◌≡◌, refl, some, none}
use linkpulse_link.Base.Text.{codes}
use linkpulse_link.Base.Int.{pos, negsuc}
use linkpulse_link.Strconv.{format_int, atoi}

prints :
    (format_int 4_198_400 ≡ codes "4198400")
    × (format_int (2 ^ 64 - 7) ≡ codes "-7")
    × (format_int 0 ≡ codes "0")
unfolding format_int
prints = (refl, refl, refl)

reads :
    (atoi (codes "20") ≡ some (pos 20))
    × (atoi (codes "-5") ≡ some (negsuc 4))
    × (atoi (codes "+007") ≡ some (pos 7))
    × (atoi (codes "1_0") ≡ none)
    × (atoi (codes "-") ≡ none)
    × (atoi (codes " 1") ≡ none)
    × (atoi (codes "9223372036854775808") ≡ none)
unfolding atoi
reads = (refl, refl, refl, refl, refl, refl, refl)
