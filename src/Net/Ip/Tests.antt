-- ===== src/Net/Ip/Tests.antt =====
-- Addresses that ParseIP reads, and texts that it refuses.
use linkpulse_link.Base.{◌≡◌, refl, none, some, []}
use linkpulse_link.Base.Text.{codes}
use linkpulse_link.Net.Ip.{mapped, parse_ip}
use mathlib.Core.List.{◌∷◌}

reads :
    (parse_ip (codes "127.0.0.1") ≡ some (mapped (127 ∷ 0 ∷ 0 ∷ 1 ∷ [])))
    × (parse_ip (codes "::1")
        ≡ some (0 ∷ 0 ∷ 0 ∷ 0 ∷ 0 ∷ 0 ∷ 0 ∷ 0 ∷ 0 ∷ 0 ∷ 0 ∷ 0 ∷ 0 ∷ 0 ∷ 0 ∷ 1 ∷ []))
    × (parse_ip (codes "fe80::A:0b1")
        ≡ some (0xfe ∷ 0x80 ∷ 0 ∷ 0 ∷ 0 ∷ 0 ∷ 0 ∷ 0 ∷ 0 ∷ 0 ∷ 0 ∷ 0 ∷ 0 ∷ 10 ∷ 0 ∷ 0xb1 ∷ []))
    × (parse_ip (codes "::ffff:10.1.2.3") ≡ some (mapped (10 ∷ 1 ∷ 2 ∷ 3 ∷ [])))
    × (parse_ip (codes "1:2:3:4:5:6:7:8")
        ≡ some (0 ∷ 1 ∷ 0 ∷ 2 ∷ 0 ∷ 3 ∷ 0 ∷ 4 ∷ 0 ∷ 5 ∷ 0 ∷ 6 ∷ 0 ∷ 7 ∷ 0 ∷ 8 ∷ []))
unfolding parse_ip
reads = (refl, refl, refl, refl, refl)

refuses :
    (parse_ip (codes "127.1") ≡ none)
    × (parse_ip (codes "127.0.0.01") ≡ none)
    × (parse_ip (codes "256.0.0.1") ≡ none)
    × (parse_ip (codes "fe80::1%eth0") ≡ none)
    × (parse_ip (codes "1:2:3:4:5:6:7::8") ≡ none)
    × (parse_ip (codes "example.com") ≡ none)
    × (parse_ip (codes "2130706433") ≡ none)
unfolding parse_ip
refuses = (refl, refl, refl, refl, refl, refl, refl)
