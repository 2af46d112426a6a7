-- ===== src/Repository/Listing.antt =====
-- What `ListByUser` returns.
use mathlib.Core.List.{Memᴰ}
use linkpulse_link.Base.{
  ℕ, zero, suc, ◌≤◌, ◌≡◌, inl, inr, refl, true, false, List, [], ◌∷◌, map, All, All-mono,
  Bool-cases, length, length-take, take, drop, arith,
}
use linkpulse_link.Base.Text.{Text, text_eq, text_eq_sound}
use linkpulse_link.Base.Int.{ℤ, pos_part}
use linkpulse_link.Link.{ok, Link}
use linkpulse_link.Repository.Sql.{LinkRow, before, insert_row, of_user, page}
use linkpulse_link.Repository.{
  to_domain, rows_result, RowsReply, rows, rows_failed, Pool, list_by_user, IsTable,
}

-- Newest first: every row may stand before all that come after it.
abbrev pub IsNewestFirst : List LinkRow → Type 0
IsNewestFirst [] = Unit {0}
IsNewestFirst (r ∷ rs) = All (λ x. before r x ≡ true) rs × IsNewestFirst rs

before_trans : (a b c : LinkRow) → before a b ≡ true → before b c ≡ true → before a c ≡ true
unfolding before
before_trans a b c p q = ground arith

before_total : (a b : LinkRow) → before a b ≡ false → before b a ≡ true
unfolding before
before_total a b p = ground arith

module _ (P : LinkRow → Type 0) where
  All-insert_row : (a : LinkRow) (rs : List LinkRow) → P a → All P rs → All P (insert_row a rs)
  unfolding insert_row
  All-insert_row a [] p h = (p, tt)
  All-insert_row a (b ∷ rs) p (hb, h) = elim (Bool-cases (before a b)) [
    | inl first ↦ rw first (p, (hb, h))
    | inr later ↦ rw later (hb, All-insert_row a rs p h)
  ]

  All-take : (n : ℕ) (rs : List LinkRow) → All P rs → All P (take n rs)
  All-take zero rs h = tt
  All-take (suc n) [] h = tt
  All-take (suc n) (r ∷ rs) (p, h) = (p, All-take n rs h)

  All-drop : (n : ℕ) (rs : List LinkRow) → All P rs → All P (drop n rs)
  All-drop zero rs h = h
  All-drop (suc n) [] h = tt
  All-drop (suc n) (r ∷ rs) (p, h) = All-drop n rs h

insert_row-IsNewestFirst :
    (a : LinkRow) (rs : List LinkRow) → IsNewestFirst rs → IsNewestFirst (insert_row a rs)
unfolding insert_row
insert_row-IsNewestFirst a [] h = (tt, tt)
insert_row-IsNewestFirst a (b ∷ rs) (hb, h) = elim (Bool-cases (before a b)) [
  | inl first ↦ rw first ((first, All-mono _ _ (λ x q. before_trans a b x first q) rs hb), (hb, h))
  | inr later ↦
      rw later (All-insert_row _ a rs (before_total a b later) hb, insert_row-IsNewestFirst a rs h)
]

of_user-IsNewestFirst : (user : Text) (rs : List LinkRow) → IsNewestFirst (of_user user rs)
unfolding of_user
of_user-IsNewestFirst user [] = tt
of_user-IsNewestFirst user (r ∷ rs) = elim (Bool-cases (text_eq r.user_id user)) [
  | inl own ↦ rw own (insert_row-IsNewestFirst r _ (of_user-IsNewestFirst user rs))
  | inr other ↦ rw other (of_user-IsNewestFirst user rs)
]

of_user-owned : (user : Text) (rs : List LinkRow) → All (λ r. r.user_id ≡ user) (of_user user rs)
unfolding of_user
of_user-owned user [] = tt
of_user-owned user (r ∷ rs) = elim (Bool-cases (text_eq r.user_id user)) [
  | inl own ↦
      rw own (All-insert_row _ r _ (text_eq_sound r.user_id user own) (of_user-owned user rs))
  | inr other ↦ rw other (of_user-owned user rs)
]

of_user-All :
    (Q : LinkRow → Type 0) (user : Text) (rs : List LinkRow) → All Q rs → All Q (of_user user rs)
unfolding of_user
of_user-All Q user [] h = tt
of_user-All Q user (r ∷ rs) (q, h) = elim (Bool-cases (text_eq r.user_id user)) [
  | inl own ↦ rw own (All-insert_row Q r _ q (of_user-All Q user rs h))
  | inr other ↦ rw other (of_user-All Q user rs h)
]

All-Mem : (rs : List LinkRow) → All (λ r. Memᴰ r rs) rs
All-Mem [] = tt
All-Mem (r ∷ rs) = (Memᴰ.head refl, All-mono _ _ (λ x m. Memᴰ.tail m) rs (All-Mem rs))

take-IsNewestFirst : (n : ℕ) (rs : List LinkRow) → IsNewestFirst rs → IsNewestFirst (take n rs)
take-IsNewestFirst zero rs h = tt
take-IsNewestFirst (suc n) [] h = tt
take-IsNewestFirst (suc n) (r ∷ rs) (hr, h) = (All-take _ n rs hr, take-IsNewestFirst n rs h)

drop-IsNewestFirst : (n : ℕ) (rs : List LinkRow) → IsNewestFirst rs → IsNewestFirst (drop n rs)
drop-IsNewestFirst zero rs h = h
drop-IsNewestFirst (suc n) [] h = tt
drop-IsNewestFirst (suc n) (r ∷ rs) (hr, h) = drop-IsNewestFirst n rs h

-- A page of links: those of rows of the table that belong to the user, newest first, no more than
-- the limit.
pub record IsPage (table : List LinkRow) (user : Text) (limit : ℤ) (links : List Link)
    : Type 0 where
  pub page_rows : List LinkRow
  pub same : links ≡ map to_domain page_rows
  pub listed : All (λ r. Memᴰ r table) page_rows
  pub owned : All (λ r. r.user_id ≡ user) page_rows
  pub sorted : IsNewestFirst page_rows
  pub short : length page_rows ≤ pos_part limit

page-IsPage :
    (user : Text) (limit offset : ℤ) (rs : List LinkRow)
    → IsPage rs user limit (map to_domain (page user limit offset rs))
unfolding page
page-IsPage user limit offset rs = record {
  page_rows = take (pos_part limit) (drop (pos_part offset) (of_user user rs));
  same = refl;
  listed =
      All-take _ (pos_part limit) _
        (All-drop _ (pos_part offset) _ (of_user-All (λ r. Memᴰ r rs) user rs (All-Mem rs)));
  owned = All-take _ (pos_part limit) _ (All-drop _ (pos_part offset) _ (of_user-owned user rs));
  sorted =
      take-IsNewestFirst (pos_part limit) _
        (drop-IsNewestFirst (pos_part offset) _ (of_user-IsNewestFirst user rs));
  short = length-take (pos_part limit) (drop (pos_part offset) (of_user user rs));
}

rows_result-eq-ok :
    (r : RowsReply) (ls : List Link)
    → rows_result r ≡ ok ls
    → (rs : List LinkRow) × (r ≡ rows rs) × (map to_domain rs ≡ ls)
unfolding rows_result
rows_result-eq-ok (rows rs) ls e = (rs, refl, cc)
rows_result-eq-ok rows_failed ls e = cc

-- On a pool with the laws of the table, `ListByUser` returns links of rows of the table that
-- belong to the user, newest first, no more than the limit.
pub list_by_user-IsPage :
    {P : Type 0} (pool : Pool P) {table : P → List LinkRow} (user : Text) (limit offset : ℤ) (p : P)
    (links : List Link)
    → IsTable pool table
    → (list_by_user pool user limit offset p).0 ≡ ok links
    → IsPage (table p) user limit links
unfolding list_by_user
list_by_user-IsPage pool {table} user limit offset p links laws e =
    let (rs, replied, same) = rows_result-eq-ok _ links e in
    rw (← same, laws.select_rows user limit offset p rs replied)
      (page-IsPage user limit offset (table p))
