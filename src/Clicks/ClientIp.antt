-- ===== src/Clicks/ClientIp.antt =====
-- Where `clientIP` takes the address from.
use mathlib.Core.List.{append-nil}
use linkpulse_link.Base.{
  ℕ, ◌+◌, ◌≤◌, ◌<◌, ◌≡◌, ◌⊎◌, inl, inr, refl, ap, sym, ◌∙◌, true, false, some, [], ◌∷◌, ◌++◌, ◌/◌,
  ◌%◌, ◌==◌, arith, ltb, All, All-append, Bool-cases,
}
use linkpulse_link.Base.Text.{Text, codes}
use linkpulse_link.Net.Strings.{is_empty, is_space, trim_left, trim_right, trim_space, cut}
use linkpulse_link.Net.Ip.{Ip, mapped, parse_ip, has}
use linkpulse_link.Net.Ip.Quads.{octet, quad, parse_ip-quad}
use linkpulse_link.Http.{Request, plain_host, split_host}
use linkpulse_link.Clicks.{remote_ip, client_ip}

-- The characters of a dotted address: the dot and the digits.
abbrev IsDotted : ℕ → Type 0
IsDotted c = (46 ≤ c) × (c < 58)

octet-IsDotted : (n : ℕ) → n < 256 → All IsDotted (octet n)
octet-IsDotted n h = ground arith

quad-IsDotted : (a b c d : ℕ) → a < 256 → b < 256 → c < 256 → d < 256 → All IsDotted (quad a b c d)
quad-IsDotted a b c d ha hb hc hd = All-append IsDotted (octet a) _ (octet-IsDotted a ha) (
  (omega arith, omega arith),
  All-append IsDotted (octet b) _ (octet-IsDotted b hb) (
    (omega arith, omega arith),
    All-append IsDotted (octet c) _ (octet-IsDotted c hc)
        ((omega arith, omega arith), octet-IsDotted d hd),
  ),
)

space_dotted : (c : ℕ) → IsDotted c → is_space c ≡ false
unfolding is_space
space_dotted c h = ground arith

trim_right-dotted : (s : Text) → All IsDotted s → trim_right s ≡ s
unfolding trim_right
trim_right-dotted [] h = refl
trim_right-dotted (c ∷ s) (hc, hs) = ground (arith, space_dotted c hc, trim_right-dotted s hs)

trim_left-dotted : (s : Text) → All IsDotted s → trim_left s ≡ s
unfolding trim_left
trim_left-dotted [] h = refl
trim_left-dotted (c ∷ s) (hc, hs) = rw (space_dotted c hc)

trim_space-dotted : (s : Text) → All IsDotted s → trim_space s ≡ s
unfolding trim_space
trim_space-dotted s h = rw (trim_left-dotted s h) (trim_right-dotted s h)

-- A cut at the first character that is no part of the address.
cut-dotted :
    (sep : ℕ) (s rest : Text)
    → (58 ≤ sep) ⊎ (sep < 46)
    → All IsDotted s
    → cut sep (s ++ sep ∷ rest) ≡ (s, rest, true)
unfolding cut
cut-dotted sep [] rest far h = ground arith
cut-dotted sep (c ∷ s) rest far (hc, hs) = ground (arith, cut-dotted sep s rest far hs)

cut-absent :
    (sep : ℕ) (s : Text) → (58 ≤ sep) ⊎ (sep < 46) → All IsDotted s → cut sep s ≡ (s, [], false)
unfolding cut
cut-absent sep [] far h = refl
cut-absent sep (c ∷ s) far (hc, hs) = ground (arith, cut-absent sep s far hs)

has-dotted :
    (r : ℕ) (s t : Text)
    → (58 ≤ r) ⊎ (r < 46)
    → All IsDotted s
    → has r t ≡ false
    → has r (s ++ t) ≡ false
has-dotted r [] t far h ht = ht
has-dotted r (c ∷ s) t far (hc, hs) ht = ground (arith, has-dotted r s t far hs ht)

-- A text that starts with an octet is not empty and starts with no bracket.
octet-head :
    (n : ℕ) (t : Text) → n < 256 → (c : ℕ) × (s : Text) × (octet n ++ t ≡ c ∷ s) × IsDotted c
octet-head n t h = elim (Bool-cases (ltb n 10)) [
  | inl one ↦ (b'0' + n, t, rw one, (omega arith, ground arith))
  | inr more ↦ elim (Bool-cases (ltb n 100)) [
    | inl two ↦ (b'0' + n / 10, (b'0' + n % 10) ∷ t, rw (more, two), (omega arith, ground arith))
    | inr three ↦ (
      b'0' + n / 100,
      (b'0' + n / 10 % 10) ∷ (b'0' + n % 10) ∷ t,
      rw (more, three),
      (omega arith, omega arith),
    )
  ]
]

-- What comes behind the first address of the header: nothing, or a comma and more.
abbrev pub IsBehind : Text → Type 0
IsBehind more = (more ≡ []) ⊎ ((rest : Text) × (more ≡ b',' ∷ rest))

cut-behind : (s more : Text) → All IsDotted s → IsBehind more → (cut b',' (s ++ more)).0 ≡ s
cut-behind s more h (inl e) = rw (e, append-nil s, cut-absent b',' s (inr (omega arith)) h)
cut-behind s more h (inr (rest, e)) = rw (e, cut-dotted b',' s rest (inr (omega arith)) h)

quad-present : (a b c d : ℕ) (more : Text) → a < 256 → is_empty (quad a b c d ++ more) ≡ false
quad-present a b c d more ha =
    let (x, t, e, _) = octet-head a (b'.' ∷ (octet b ++ b'.' ∷ (octet c ++ b'.' ∷ octet d))) ha in
    rw e refl

split_host-dotted :
    (s port : Text)
    → All IsDotted s
    → is_empty s ≡ false
    → (has b':' port ≡ false) × (has b'[' port ≡ false) × (has b']' port ≡ false)
    → split_host (s ++ b':' ∷ port) ≡ some s
unfolding split_host plain_host
split_host-dotted [] port h present _ = cc
split_host-dotted (c ∷ s) port (hc, hs) _ (colon, opening, closing) =
    let first : (c == b'[') ≡ false = ground arith in
    let parts = cut-dotted b':' (c ∷ s) port (inl (omega arith)) (hc, hs) in
    let none_open = has-dotted b'[' (c ∷ s) (b':' ∷ port) (inl (omega arith)) (hc, hs) opening in
    let none_close = has-dotted b']' (c ∷ s) (b':' ∷ port) (inl (omega arith)) (hc, hs) closing in
    ground (arith, first, parts, colon, none_open, none_close)

module _ (r : Request) where
  client_ip-of :
      (ip : Ip)
      → is_empty (r.header (codes "X-Forwarded-For")) ≡ false
      → parse_ip (trim_space (cut b',' (r.header (codes "X-Forwarded-For"))).0) ≡ some ip
      → client_ip r ≡ some ip
  unfolding client_ip
  client_ip-of ip present reads = rw (present, reads)

  client_ip-remote :
      (host : Text)
      → r.header (codes "X-Forwarded-For") ≡ []
      → split_host r.remote_addr ≡ some host
      → client_ip r ≡ parse_ip host
  unfolding client_ip remote_ip
  client_ip-remote host none_given split = rw (none_given, remote_ip, split)

-- If X-Forwarded-For starts with a dotted address of four octets, at its end or before a comma,
-- this address is taken.
pub client_ip-forwarded :
    (a b c d : ℕ) (more : Text) (r : Request)
    → a < 256
    → b < 256
    → c < 256
    → d < 256
    → IsBehind more
    → r.header (codes "X-Forwarded-For") ≡ quad a b c d ++ more
    → client_ip r ≡ some (mapped (a ∷ b ∷ c ∷ d ∷ []))
client_ip-forwarded a b c d more r ha hb hc hd behind given =
    let dotted = quad-IsDotted a b c d ha hb hc hd in
    client_ip-of r _ (ap is_empty given ∙ quad-present a b c d more ha) (
      ap (λ t. parse_ip (trim_space (cut b',' t).0)) given
      ∙ ap (λ t. parse_ip (trim_space t)) (cut-behind (quad a b c d) more dotted behind)
      ∙ ap parse_ip (trim_space-dotted (quad a b c d) dotted)
      ∙ parse_ip-quad a b c d ha hb hc hd)

-- Without X-Forwarded-For, a connection from a dotted address of four octets, with a port that
-- has no colon and no bracket, gives this address.
pub client_ip-direct :
    (a b c d : ℕ) (port : Text) (r : Request)
    → a < 256
    → b < 256
    → c < 256
    → d < 256
    → r.header (codes "X-Forwarded-For") ≡ []
    → (has b':' port ≡ false) × (has b'[' port ≡ false) × (has b']' port ≡ false)
    → r.remote_addr ≡ quad a b c d ++ b':' ∷ port
    → client_ip r ≡ some (mapped (a ∷ b ∷ c ∷ d ∷ []))
client_ip-direct a b c d port r ha hb hc hd none_given plain given =
    let present : is_empty (quad a b c d) ≡ false =
      ap is_empty (sym (append-nil (quad a b c d))) ∙ quad-present a b c d [] ha in
    client_ip-remote r (quad a b c d) none_given (
      ap split_host given
      ∙ split_host-dotted (quad a b c d) port (quad-IsDotted a b c d ha hb hc hd) present plain)
    ∙ parse_ip-quad a b c d ha hb hc hd
