-- ===== src/Repository/Laws.antt =====
-- The repository on a table keeps the promises of its interface.
use mathlib.Core.List.{Memᴰ}
use linkpulse_link.Base.{
  ◌≡◌, ◌≢◌, ◌⊎◌, inl, inr, refl, ap, List, [], ◌∷◌, map, All, arith, Bool-cases,
}
use linkpulse_link.Base.Text.{Text, text_eq, text_eq_iff}
use linkpulse_link.Link.{Error, Fault, collision, not_found, internal, select_failed, ok, err, Link}
use linkpulse_link.Link.Ports.{IsRepository}
use linkpulse_link.Repository.Sql.{LinkRow}
use linkpulse_link.Repository.{
  to_domain, to_row, ExecReply, done, broken, pg_error, RowReply, row, no_rows, row_failed, Pool,
  insert_result, row_result, create, get_by_short_code, list_by_user, postgres, IsTable, IsStrict,
  unique_violation,
}

to_domain-to_row : (l : Link) → to_domain (to_row l) ≡ l
unfolding to_domain to_row
to_domain-to_row l = refl

insert_result-eq-ok : (r : ExecReply) → insert_result r ≡ ok tt → r ≡ done
unfolding insert_result
insert_result-eq-ok done e = refl
insert_result-eq-ok broken e = cc
insert_result-eq-ok (pg_error code) e = ground arith

All-map :
    (code : Text) (rs : List LinkRow)
    → All (λ x. x.short_code ≢ code) rs
    → All (λ x. x.short_code ≢ code) (map to_domain rs)
unfolding to_domain
All-map code [] h = tt
All-map code (r ∷ rs) (h, hs) = (h, All-map code rs hs)

Mem-map : (r : LinkRow) (rs : List LinkRow) → Memᴰ r rs → Memᴰ (to_domain r) (map to_domain rs)
Mem-map r [] m = elim m [ ]
Mem-map r (x ∷ rs) (Memᴰ.head e) = Memᴰ.head (ap to_domain e)
Mem-map r (x ∷ rs) (Memᴰ.tail m) = Memᴰ.tail (Mem-map r rs m)

module _ {P : Type 0} (pool : Pool P) {table : P → List LinkRow} (laws : IsTable pool table) where
  -- The links that the table holds.
  abbrev pub stored : P → List Link
  stored p = map to_domain (table p)

  added :
      (l : Link) (p : P)
      → (table (pool.exec_insert (to_row l) p).1 ≡ to_row l ∷ table p)
        × All (λ x. x.short_code ≢ l.short_code) (table p)
      → (stored (pool.exec_insert (to_row l) p).1 ≡ l ∷ stored p)
        × All (λ x. x.short_code ≢ l.short_code) (stored p)
  added l p (more, free) = (rw (more, to_domain-to_row), All-map l.short_code (table p) free)

  row_result-eq-ok :
      (r : RowReply) (l : Link)
      → row_result r ≡ ok l
      → (x : LinkRow) × (r ≡ row x) × (to_domain x ≡ l)
  unfolding row_result
  row_result-eq-ok (row x) l e = (x, refl, cc)
  row_result-eq-ok no_rows l e = cc
  row_result-eq-ok row_failed l e = cc

  row_result-eq-err :
      (r : RowReply) (e : Error)
      → row_result r ≡ err e
      → ((r ≡ no_rows) × (e ≡ not_found)) ⊎ ((f : Fault) × (e ≡ internal f))
  unfolding row_result
  row_result-eq-err (row x) e h = cc
  row_result-eq-err no_rows e h = inl (refl, cc)
  row_result-eq-err row_failed e h = inr (select_failed, cc)

  pub postgres-IsRepository : IsRepository (postgres pool) stored
  unfolding create get_by_short_code list_by_user
  postgres-IsRepository = record {
    create_ok = λ l p e.
        added l p (unfold to_row in laws.insert_done (to_row l) p (insert_result-eq-ok _ e));
    create_any = λ l p. elim (laws.insert_any (to_row l) p) [
      | inl same ↦ inl (ap (map to_domain) same)
      | inr more ↦ inr (added l p (unfold to_row in more))
    ];
    get_ok = λ code p l e.
        let (x, r, same) = row_result-eq-ok _ l e in
        let (m, named) = laws.get_row code p x r in
        (rw (← same) (Mem-map x _ m), rw (← same) (unfold to_domain in named));
    get_missing = λ code p e. elim (row_result-eq-err _ not_found e) [
      | inl (nothing, _) ↦ All-map code (table p) (laws.get_no_rows code p nothing)
      | inr (f, bad) ↦ cc
    ];
    get_err = λ code p e h. elim (row_result-eq-err _ e h) [
      | inl (_, same) ↦ inl same
      | inr fault ↦ inr fault
    ];
    get_keeps = λ code p. ap (map to_domain) (laws.get_keeps code p);
    list_keeps = λ user limit offset p. ap (map to_domain) (laws.select_keeps user limit offset p);
  }

-- `Postgres` reports a collision only where the code or the ID is taken.
module _ {P : Type 0} (pool : Pool P) {table : P → List LinkRow}
    (strict : IsStrict pool table) where
  insert_result-eq-collision :
      (r : ExecReply) → insert_result r ≡ err (internal collision) → r ≡ pg_error unique_violation
  unfolding insert_result
  insert_result-eq-collision done e = cc
  insert_result-eq-collision broken e = cc
  insert_result-eq-collision (pg_error code) e = elim (Bool-cases (text_eq code unique_violation)) [
    | inl same ↦ ap pg_error ((text_eq_iff code unique_violation).0 same)
    | inr other ↦ cc (rw other at e)
  ]

  pub postgres-collides :
      (l : Link) (p : P)
      → (create pool l p).0 ≡ err (internal collision)
      → (x : Link) × Memᴰ x (map to_domain (table p))
        × ((x.short_code ≡ l.short_code) ⊎ (x.id ≡ l.id))
  unfolding create to_row to_domain
  postgres-collides l p e =
      let (x, m, taken) = strict.violates (to_row l) p (insert_result-eq-collision _ e) in
      (to_domain x, Mem-map x (table p) m, taken)
