-- ===== src/Link/Validate/Accepted.antt =====
-- `NormalizeAndValidateURL` accepts exactly the URLs of `IsAccepted`, and fails only with
-- ErrInvalidURL.
use linkpulse_link.Base.{◌≡◌, ◌⊎◌, inl, inr, refl, Bool, true, false, not, leb}
use linkpulse_link.Base.Text.{Text, byte_len}
use linkpulse_link.Net.Strings.{is_empty, trim_space, to_lower}
use linkpulse_link.Net.Url.{Url, Parsed, url, malformed, UrlLib}
use linkpulse_link.Link.{
  Reason, unparsable, empty_url, too_long, no_host, bad_scheme, blocked_host, invalid_url, Result,
  ok, err, ◌>>=◌, ◌>>◌, guard,
}
use linkpulse_link.Link.Validate.{is_blocked_host, is_web, from_parsed, normalize_and_validate_url}

-- An answer that the handler can translate: a value, or ErrInvalidURL with a reason.
abbrev pub IsAnswer : Result Text → Type 0
IsAnswer m = ((t : Text) × (m ≡ ok t)) ⊎ ((r : Reason) × (m ≡ err (invalid_url r)))

IsAnswer-guard :
    (b : Bool) (r : Reason) (k : Result Text) → IsAnswer k → IsAnswer (guard b (invalid_url r) >> k)
IsAnswer-guard true r k h = h
IsAnswer-guard false r k h = inr (r, refl)

IsAnswer-parsed :
    (p : Parsed) (f : Url → Result Text)
    → ((u : Url) → IsAnswer (f u))
    → IsAnswer (from_parsed p >>= f)
IsAnswer-parsed (url u) f h = h u
IsAnswer-parsed (malformed e) f h = inr (unparsable e, refl)

-- Every call has an answer, and every refusal is ErrInvalidURL with a reason.
pub validate-IsAnswer : (lib : UrlLib) (raw : Text) → IsAnswer (normalize_and_validate_url lib raw)
unfolding normalize_and_validate_url
validate-IsAnswer lib raw = IsAnswer-guard (not (is_empty (trim_space raw))) empty_url _ (
    IsAnswer-guard (leb (byte_len (trim_space raw)) 2048) too_long _ (
      IsAnswer-parsed (lib.parse (trim_space raw)) _ λ u.
        IsAnswer-guard (is_web (to_lower u.scheme)) (bad_scheme u.scheme) _ (
          IsAnswer-guard (not (is_empty u.hostname)) no_host _ (
            IsAnswer-guard (not (is_blocked_host u.hostname)) (blocked_host u.hostname) _
              (inl (u.string, refl))))))
