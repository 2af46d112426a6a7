-- ===== src/Net/Url.antt =====
-- Go's net/url, as an interface: `url.Parse`, and of its result the scheme, `Hostname()` and
-- `String()`.
use linkpulse_link.Base.Text.{Text}

pub record Url : Type 0 where
  pub scheme : Text
  pub hostname : Text
  pub string : Text

pub data Parsed : Type 0 where
  url : Url → Parsed
  malformed : Text → Parsed

pub record UrlLib : Type 0 where
  -- `malformed` carries the text of the error.
  pub parse : Text → Parsed
