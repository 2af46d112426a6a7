-- ===== src/Repository/Memory.antt =====
-- A table in memory behind a pool whose calls may fail: `IsTable` can be met.
use mathlib.Core.List.{Memᴰ}
use linkpulse_link.Base.{
  ◌≡◌, ◌≢◌, ◌⊎◌, inl, inr, refl, Bool, true, false, ==_iff, ◌||◌, List, [], ◌∷◌, All, Bool-cases,
  if◌then◌else◌, ◌==◌, arith,
}
use linkpulse_link.Base.Text.{Text, text_eq, text_eq_iff, text_eq_of_eq}
use linkpulse_link.Base.Int.{ℤ}
use linkpulse_link.Repository.Sql.{LinkRow, page}
use linkpulse_link.Repository.{
  unique_violation, ExecReply, done, broken, pg_error, RowReply, row, no_rows, row_failed,
  RowsReply, rows, rows_failed, Pool, IsTable, IsStrict,
}

-- `faults` says of each call to come whether the connection fails.
pub record Db : Type 0 where
  pub table : List LinkRow
  pub faults : List Bool

abbrev pub fails : List Bool → Bool
fails [] = false
fails (b ∷ bs) = b

abbrev pub later : List Bool → List Bool
later [] = []
later (b ∷ bs) = bs

unfoldable pub clashes : LinkRow → List LinkRow → Bool
clashes r [] = false
clashes r (x ∷ rs) = x.id == r.id || (text_eq x.short_code r.short_code || clashes r rs)

unfoldable pub find_row : Text → List LinkRow → RowReply
find_row code [] = no_rows
find_row code (x ∷ rs) = if text_eq x.short_code code then row x else find_row code rs

unfoldable pub insert_into : LinkRow → Db → ExecReply × Db
unfolding clashes
insert_into r db =
    if fails db.faults
    then (broken, record db { faults = later db.faults })
    else if clashes r db.table
    then (pg_error unique_violation, record db { faults = later db.faults })
    else (done, record { table = r ∷ db.table; faults = later db.faults })

unfoldable pub get_from : Text → Db → RowReply × Db
get_from code db = (
  if fails db.faults then row_failed else find_row code db.table,
  record db { faults = later db.faults },
)

unfoldable pub select_from : Text → ℤ → ℤ → Db → RowsReply × Db
select_from user limit offset db = (
  if fails db.faults then rows_failed else rows (page user limit offset db.table),
  record db { faults = later db.faults },
)

abbrev pub memory : Pool Db
memory = record { exec_insert = insert_into; get_by_code = get_from; select_by_user = select_from }

clashes-free :
    (r : LinkRow) (rs : List LinkRow)
    → clashes r rs ≡ false
    → All (λ x. x.short_code ≢ r.short_code) rs
unfolding clashes
clashes-free r [] h = tt
clashes-free r (x ∷ rs) h = (
  λ e. ground (arith, text_eq_of_eq x.short_code r.short_code e),
  clashes-free r rs (ground arith),
)

find_row-eq-row :
    (code : Text) (rs : List LinkRow) (r : LinkRow)
    → find_row code rs ≡ row r
    → Memᴰ r rs × (r.short_code ≡ code)
unfolding find_row
find_row-eq-row code [] r h = cc
find_row-eq-row code (x ∷ rs) r h = elim (Bool-cases (text_eq x.short_code code)) [
  | inl own ↦
      let same : row x ≡ row r = rw own at h in
      (Memᴰ.head (cc), cc ((text_eq_iff x.short_code code).0 own))
  | inr other ↦ let (m, named) = find_row-eq-row code rs r (rw other at h) in (Memᴰ.tail m, named)
]

find_row-eq-no_rows :
    (code : Text) (rs : List LinkRow)
    → find_row code rs ≡ no_rows
    → All (λ x. x.short_code ≢ code) rs
unfolding find_row
find_row-eq-no_rows code [] h = tt
find_row-eq-no_rows code (x ∷ rs) h = elim (Bool-cases (text_eq x.short_code code)) [
  | inl own ↦ cc (rw own at h)
  | inr other ↦
      (λ e. cc (text_eq_of_eq x.short_code code e), find_row-eq-no_rows code rs (rw other at h))
]

insert_into-any :
    (r : LinkRow) (db : Db)
    → ((insert_into r db).1.table ≡ db.table)
      ⊎ (((insert_into r db).1.table ≡ r ∷ db.table) × (clashes r db.table ≡ false))
unfolding insert_into
insert_into-any r db = ground arith

insert_into-done :
    (r : LinkRow) (db : Db)
    → (insert_into r db).0 ≡ done
    → ((insert_into r db).1.table ≡ r ∷ db.table) × (clashes r db.table ≡ false)
unfolding insert_into
insert_into-done r db h = ground arith

pub memory-IsTable : IsTable memory (λ db. db.table)
memory-IsTable = record {
  insert_done =
      λ r db h. let (more, free) = insert_into-done r db h in (more, clashes-free r db.table free);
  insert_any = λ r db. elim (insert_into-any r db) [
    | inl same ↦ inl same
    | inr (more, free) ↦ inr (more, clashes-free r db.table free)
  ];
  get_row = λ code db r h. unfold get_from in find_row-eq-row code db.table r (ground arith);
  get_no_rows = λ code db h. unfold get_from in find_row-eq-no_rows code db.table (ground arith);
  get_keeps = λ code db. unfold get_from in refl;
  select_rows = λ user limit offset db rs h. unfold select_from in ground arith;
  select_keeps = λ user limit offset db. unfold select_from in refl;
}

clashes-taken :
    (r : LinkRow) (rs : List LinkRow)
    → clashes r rs ≡ true
    → (x : LinkRow) × Memᴰ x rs × ((x.short_code ≡ r.short_code) ⊎ (x.id ≡ r.id))
unfolding clashes
clashes-taken r [] h = cc
clashes-taken r (x ∷ rs) h = elim (Bool-cases (x.id == r.id)) [
  | inl same ↦ (x, Memᴰ.head refl, inr ((==_iff x.id r.id).0 same))
  | inr differ ↦ elim (Bool-cases (text_eq x.short_code r.short_code)) [
    | inl code ↦ (x, Memᴰ.head refl, inl ((text_eq_iff x.short_code r.short_code).0 code))
    | inr other ↦
        let (y, m, taken) = clashes-taken r rs (rw (differ, other) at h) in (y, Memᴰ.tail m, taken)
  ]
]

pub memory-IsStrict : IsStrict memory (λ db. db.table)
memory-IsStrict = record {
  violates = λ r db h. clashes-taken r db.table (unfold insert_into in ground arith);
}
