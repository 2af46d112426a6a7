-- ===== src/Link/Validate/Refused.antt =====
-- A URL that is refused is refused with ErrInvalidURL.
use linkpulse_link.Base.{◌≡◌, Bool, true, false, not, leb}
use linkpulse_link.Base.Text.{Text, byte_len}
use linkpulse_link.Net.Strings.{is_empty, trim_space, to_lower}
use linkpulse_link.Net.Url.{url, malformed, Parsed, UrlLib}
use linkpulse_link.Link.{
  Reason, unparsable, empty_url, too_long, bad_scheme, no_host, blocked_host, invalid_url, Error,
  Result, ok, err, hangs, guard, ◌>>=◌, ◌>>◌,
}
use linkpulse_link.Link.Validate.{
  normalize_and_validate_url, from_parsed, max_url_length, is_web, is_blocked_host,
}

abbrev Refuses : {A : Type 0} → Result A → Type 0
Refuses r = (e : Error) → r ≡ err e → (why : Reason) × (e ≡ invalid_url why)

module _ {A B : Type 0} where
  bind-Refuses :
      (m : Result A) (next : A → Result B)
      → Refuses m
      → ((a : A) → Refuses (next a))
      → Refuses (m >>= next)
  bind-Refuses (ok a) next first rest = rest a
  bind-Refuses (err x) next first rest = λ e h. first e (cc h)
  bind-Refuses hangs next first rest = λ e h. cc

guard-Refuses :
    {A : Type 0} (why : Reason) (passed : Bool) (rest : Result A)
    → Refuses rest
    → Refuses (guard passed (invalid_url why) >> rest)
guard-Refuses why true rest h = h
guard-Refuses why false rest h = λ e q. (why, cc q)

ok-Refuses : {A : Type 0} (a : A) → Refuses (ok a)
ok-Refuses a e h = cc

from_parsed-Refuses : (p : Parsed) → Refuses (from_parsed p)
from_parsed-Refuses (url u) e h = cc
from_parsed-Refuses (malformed x) e h = (unparsable x, cc h)

-- Every error of the validation is ErrInvalidURL with a reason.
pub validate-Refuses :
    (lib : UrlLib) (raw : Text) (e : Error)
    → normalize_and_validate_url lib raw ≡ err e
    → (why : Reason) × (e ≡ invalid_url why)
unfolding normalize_and_validate_url
validate-Refuses lib raw =
    let t = trim_space raw in
    guard-Refuses empty_url (not (is_empty t)) _ (
      guard-Refuses too_long (leb (byte_len t) max_url_length) _ (
        bind-Refuses (from_parsed (lib.parse t)) _ (from_parsed-Refuses (lib.parse t)) λ u.
          guard-Refuses (bad_scheme u.scheme) (is_web (to_lower u.scheme)) _ (
            guard-Refuses no_host (not (is_empty u.hostname)) _ (
              guard-Refuses (blocked_host u.hostname) (not (is_blocked_host u.hostname)) _
                (ok-Refuses u.string)))))
