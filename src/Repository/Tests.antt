-- ===== src/Repository/Tests.antt =====
-- The repository on the table in memory.
use linkpulse_link.Base.{◌≡◌, refl, none, true, [], ◌∷◌}
use linkpulse_link.Base.Text.{codes, text_eq}
use linkpulse_link.Base.Int.{pos}
use linkpulse_link.Link.{ok, err, not_found, internal, collision, select_failed}
use linkpulse_link.Repository.Sql.{LinkRow}
use linkpulse_link.Repository.{to_domain, create, get_by_short_code, list_by_user}
use linkpulse_link.Repository.Memory.{Db, memory, memory-IsTable}
use linkpulse_link.Repository.Listing.{IsPage, list_by_user-IsPage}

abbrev old : LinkRow
old = record {
  id = 1;
  short_code = codes "a";
  original_url = codes "https://a.b";
  user_id = codes "u";
  created_at = pos 1;
  expires_at = none;
}

abbrev young : LinkRow
young = record old { id = 2; short_code = codes "b"; created_at = pos 2 }

abbrev foreign_row : LinkRow
foreign_row = record old { id = 3; short_code = codes "c"; user_id = codes "v" }

abbrev db : Db
db = record { table = old ∷ young ∷ foreign_row ∷ []; faults = [] }

list_run :
    (list_by_user memory (codes "u") (pos 20) (pos 0) db).0
    ≡ ok (to_domain young ∷ to_domain old ∷ [])
unfolding list_by_user linkpulse_link.Repository.rows_result
    linkpulse_link.Repository.Memory.select_from linkpulse_link.Repository.Sql.page text_eq
    linkpulse_link.Repository.Sql.before
list_run = refl

-- A code that is taken, a code that is not there, and a connection that fails.
error_runs :
    ((create memory (to_domain (record old { id = 9 })) db).0 ≡ err (internal collision))
    × ((get_by_short_code memory (codes "x") db).0 ≡ err not_found)
    × ((get_by_short_code memory (codes "a") (record db { faults = true ∷ [] })).0
        ≡ err (internal select_failed))
unfolding create get_by_short_code linkpulse_link.Repository.insert_result
    linkpulse_link.Repository.Memory.insert_into linkpulse_link.Repository.to_row to_domain text_eq
    linkpulse_link.Repository.row_result linkpulse_link.Repository.Memory.get_from
    linkpulse_link.Repository.Memory.find_row
error_runs = (refl, refl, refl)

list_by_user-IsPage_run :
    IsPage
      (old ∷ young ∷ foreign_row ∷ [])
      (codes "u")
      (pos 20)
      (to_domain young ∷ to_domain old ∷ [])
list_by_user-IsPage_run =
    list_by_user-IsPage memory (codes "u") (pos 20) (pos 0) db
      (to_domain young ∷ to_domain old ∷ []) memory-IsTable list_run
