-- ===== src/Repository.antt =====
-- internal/repository/postgres.go: the repository on a table of links.
-- The pool of connections is a parameter; what the database does is stated in `IsTable`.
pub mod Sql
pub mod Laws
pub mod Listing
pub mod Memory
mod Tests
use mathlib.Core.List.{Memᴰ}
use linkpulse_link.Base.{
  ◌≡◌, ◌≢◌, ◌⊎◌, Bool, true, false, Option, List, [], ◌∷◌, map, All, if◌then◌else◌,
}
use linkpulse_link.Base.Text.{Text, codes, text_eq}
use linkpulse_link.Base.Int.{ℤ}
use linkpulse_link.Base.Word.{Int64}
use linkpulse_link.Link.{
  Time, Fault, collision, insert_failed, select_failed, list_failed, Error, not_found, internal,
  Result, ok, err, Link,
}
use linkpulse_link.Link.Ports.{Repository}
use Sql.{LinkRow, page}

abbrev pub unique_violation : Text
unique_violation = codes "23505"

-- `linkRow.toDomain`
unfoldable pub to_domain : LinkRow → Link
to_domain r = record {
  id = r.id;
  short_code = r.short_code;
  original_url = r.original_url;
  user_id = r.user_id;
  created_at = r.created_at;
  expires_at = r.expires_at;
}

-- The arguments of the INSERT.
unfoldable pub to_row : Link → LinkRow
to_row l = record {
  id = l.id;
  short_code = l.short_code;
  original_url = l.original_url;
  user_id = l.user_id;
  created_at = l.created_at;
  expires_at = l.expires_at;
}

-- What `pool.Exec` reports: success, an error of the server with its code, or any other error.
pub data ExecReply : Type 0 where
  done broken : ExecReply
  pg_error : Text → ExecReply

-- What `pgxscan.Get` reports.
pub data RowReply : Type 0 where
  row : LinkRow → RowReply
  no_rows row_failed : RowReply

-- What `pgxscan.Select` reports.
pub data RowsReply : Type 0 where
  rows : List LinkRow → RowsReply
  rows_failed : RowsReply

-- The three statements of the file, run on a pool.
pub record Pool (P : Type 0) : Type 0 where
  pub exec_insert : LinkRow → P → ExecReply × P
  pub get_by_code : Text → P → RowReply × P
  pub select_by_user : Text → ℤ → ℤ → P → RowsReply × P

unfoldable pub insert_result : ExecReply → Result (Unit {0})
insert_result done = ok tt
insert_result broken = err (internal insert_failed)
insert_result (pg_error code) =
    if text_eq code unique_violation then err (internal collision) else err (internal insert_failed)

unfoldable pub row_result : RowReply → Result Link
row_result (row r) = ok (to_domain r)
row_result no_rows = err not_found
row_result row_failed = err (internal select_failed)

unfoldable pub rows_result : RowsReply → Result (List Link)
rows_result (rows rs) = ok (map to_domain rs)
rows_result rows_failed = err (internal list_failed)

module _ {P : Type 0} (pool : Pool P) where
  -- `Create`
  unfoldable pub create : Link → P → Result (Unit {0}) × P
  create l p = let (reply, p') = pool.exec_insert (to_row l) p in (insert_result reply, p')

  -- `GetByShortCode`
  unfoldable pub get_by_short_code : Text → P → Result Link × P
  get_by_short_code code p = let (reply, p') = pool.get_by_code code p in (row_result reply, p')

  -- `ListByUser`
  unfoldable pub list_by_user : Text → ℤ → ℤ → P → Result (List Link) × P
  list_by_user user_id limit offset p =
      let (reply, p') = pool.select_by_user user_id limit offset p in (rows_result reply, p')

  -- `Postgres` as a `link.Repository`.
  abbrev pub postgres : Repository P
  postgres = record {
    create = create;
    get_by_short_code = get_by_short_code;
    list_by_user = list_by_user;
  }

-- The table of migrations/000001_create_links.up.sql behind a pool: `id` and `short_code` are
-- unique, and a statement that reports an error may have been committed.
pub record IsTable {P : Type 0} (pool : Pool P) (table : P → List LinkRow) : Type 0 where
  pub insert_done :
      (r : LinkRow) (p : P)
      → (pool.exec_insert r p).0 ≡ done
      → (table (pool.exec_insert r p).1 ≡ r ∷ table p)
        × All (λ x. x.short_code ≢ r.short_code) (table p)
  pub insert_any :
      (r : LinkRow) (p : P)
      → (table (pool.exec_insert r p).1 ≡ table p)
        ⊎ ((table (pool.exec_insert r p).1 ≡ r ∷ table p)
            × All (λ x. x.short_code ≢ r.short_code) (table p))
  pub get_row :
      (code : Text) (p : P) (r : LinkRow)
      → (pool.get_by_code code p).0 ≡ row r
      → Memᴰ r (table p) × (r.short_code ≡ code)
  pub get_no_rows :
      (code : Text) (p : P)
      → (pool.get_by_code code p).0 ≡ no_rows
      → All (λ x. x.short_code ≢ code) (table p)
  pub get_keeps : (code : Text) (p : P) → table (pool.get_by_code code p).1 ≡ table p
  pub select_rows :
      (user : Text) (limit offset : ℤ) (p : P) (rs : List LinkRow)
      → (pool.select_by_user user limit offset p).0 ≡ rows rs
      → rs ≡ page user limit offset (table p)
  pub select_keeps :
      (user : Text) (limit offset : ℤ) (p : P)
      → table (pool.select_by_user user limit offset p).1 ≡ table p

-- What the server promises besides: it reports a violation only where a unique column is taken.
pub record IsStrict {P : Type 0} (pool : Pool P) (table : P → List LinkRow) : Type 0 where
  pub violates :
      (r : LinkRow) (p : P)
      → (pool.exec_insert r p).0 ≡ pg_error unique_violation
      → (x : LinkRow) × Memᴰ x (table p) × ((x.short_code ≡ r.short_code) ⊎ (x.id ≡ r.id))
