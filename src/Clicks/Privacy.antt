-- ===== src/Clicks/Privacy.antt =====
-- What an event gives away of the client's address.
use linkpulse_link.Base.{◌≡◌}
use linkpulse_link.Base.Text.{Text, codes}
use linkpulse_link.Http.{Request}
use linkpulse_link.Clicks.{Builder, client_ip, hash_ip}

-- Two requests that a click event does not tell apart.
pub record IsAlike (b : Builder) (r r' : Request) : Type 0 where
  pub clicked : r.times.clicked ≡ r'.times.clicked
  pub referrer : r.header (codes "Referer") ≡ r'.header (codes "Referer")
  pub agent : r.header (codes "User-Agent") ≡ r'.header (codes "User-Agent")
  pub hash : hash_ip b.digest b.salt (client_ip r) ≡ hash_ip b.digest b.salt (client_ip r')
  pub country : b.country (client_ip r) ≡ b.country (client_ip r')
