-- ===== src/Repository/Sql.antt =====
-- The row of the table, and the meaning of the SELECT of `ListByUser`.
use linkpulse_link.Base.{Bool, ◌&&◌, ◌||◌, not, Option, List, [], ◌∷◌, if◌then◌else◌, take, drop}
use linkpulse_link.Base.Text.{Text, text_eq}
use linkpulse_link.Base.Int.{ℤ, pos_part, ltb_ℤ}
use linkpulse_link.Base.Word.{Int64, slt}
use linkpulse_link.Link.{Time}

-- `linkRow`
pub record LinkRow : Type 0 where
  pub id : Int64
  pub short_code : Text
  pub original_url : Text
  pub user_id : Text
  pub created_at : Time
  pub expires_at : Option Time

-- `ORDER BY created_at DESC, id DESC`: may `a` stand before `b`?
unfoldable pub before : LinkRow → LinkRow → Bool
before a b =
    ltb_ℤ b.created_at a.created_at
    || (not (ltb_ℤ a.created_at b.created_at) && not (slt a.id b.id))

unfoldable pub insert_row : LinkRow → List LinkRow → List LinkRow
insert_row a [] = a ∷ []
insert_row a (b ∷ rs) = let rest = insert_row a rs in if before a b then a ∷ b ∷ rs else b ∷ rest

-- `WHERE user_id = $1`, sorted.
unfoldable pub of_user : Text → List LinkRow → List LinkRow
of_user user [] = []
of_user user (r ∷ rs) =
    let rest = of_user user rs in if text_eq r.user_id user then insert_row r rest else rest

-- `LIMIT $2 OFFSET $3`
unfoldable pub page : Text → ℤ → ℤ → List LinkRow → List LinkRow
unfolding of_user insert_row
page user limit offset rs = take (pos_part limit) (drop (pos_part offset) (of_user user rs))
