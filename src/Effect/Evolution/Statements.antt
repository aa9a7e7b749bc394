-- ===== src/Effect/Evolution/Statements.antt =====
-- How a statement that is carried out develops the tables.
use nyrex.Prelude.{
  ◌≡◌, sym, subst, inl, inr, Bool, true, false, List, ◌∷◌, map, any, ◌==◌, Bool-cases,
  if◌then◌else◌, In-map, In-map_inv, All, ok, err, arith,
}
use nyrex.Effect.Table.{
  Table, users, refresh_tokens, notes, vault_entries, Row, row_id, Tables, get_table, put_table,
  has_id, meets_constraints,
}
use nyrex.Effect.Statement.{Statement, select, select_desc, insert, upsert, update, Rows}
use nyrex.Effect.Program.{Program}
use nyrex.Effect.Host.{Host, IsPostgres, Executed}
use nyrex.Effect.Tasks.{Steps, Steps-Guarantees}
use nyrex.Effect.Only.{All-Guarantees}
use nyrex.Effect.Permits.{Change, Change-refl, either, Permitted, Permits}
use nyrex.Effect.Evolution.{Develops, Evolves, Evolves-refl, Evolves-trans, put_table-Evolves}

module _ (t : Table) (rows : List (Row t)) where
  Develops-insert :
      (row : Row t)
      → any (λ r. row_id t r == row_id t row) rows ≡ false
      → Develops t rows (row ∷ rows)
  Develops-insert row free = record {
    kept = λ r m. (r, inr m, Change-refl t r);
    traced = λ r'. elim [
      | inl e ↦ inr (subst (λ x. any (λ r. row_id t r == row_id t x) rows ≡ false) (sym e) free)
      | inr m ↦ inl (r', m, Change-refl t r')
    ];
  }

  Develops-map :
      (w : Row t → Bool) (set : Row t → Row t)
      → ((r : Row t) → Change t r (set r))
      → Develops t rows (map (λ r. if w r then set r else r) rows)
  Develops-map w set changes = record {
    kept = λ r m. (_, In-map (λ r. if w r then set r else r) r rows m, either t w set changes r);
    traced = λ r' m'.
        let (r, m, e) = In-map_inv (λ r. if w r then set r else r) r' rows m' in
        inl (r, m, subst (Change t r) (sym e) (either t w set changes r));
  }

fresh :
    (t : Table) (row : Row t) (d : Tables)
    → meets_constraints t row d ≡ true
    → has_id t (row_id t row) d ≡ false
fresh users row d e = ground arith
fresh refresh_tokens row d e = ground arith
fresh notes row d e = ground arith
fresh vault_entries row d e = ground arith

put_new :
    (t : Table) (row : Row t) (d : Tables)
    → meets_constraints t row d ≡ true
    → Evolves d (put_table t (row ∷ get_table t d) d)
put_new t row d meets =
    put_table-Evolves t (row ∷ get_table t d) d
      (Develops-insert t (get_table t d) row (fresh t row d meets))

-- A statement that may be carried out develops the tables.
pub Executed-Evolves :
    {t : Table} (q : Statement t)
    → Permitted t q
    → (r : Rows t) (d d' : Tables) → Executed q d r d'
    → Evolves d d'
Executed-Evolves q c (err m) d d' same = subst (Evolves d) (sym same) (Evolves-refl d)
Executed-Evolves (select w) c (ok rows) d d' (now, (found, same)) =
    subst (Evolves d) (sym same) (Evolves-refl d)
Executed-Evolves (select_desc w key) c (ok rows) d d' (now, (found, sorted, same)) =
    subst (Evolves d) (sym same) (Evolves-refl d)
Executed-Evolves {t} (insert row) c (ok rows) d d' (now, (meets, returned, put)) =
    subst (Evolves d) (sym put) (put_new t (row now) d meets)
Executed-Evolves {t} (upsert row set) c (ok rows) d d' (now, carried) =
    elim (Bool-cases (has_id t (row_id t (row now)) d)) [
      | inl e ↦
          let put = rw e at carried in
          subst (Evolves d) (sym put) (
            put_table-Evolves t _ d (
              Develops-map t (get_table t d) (λ r. row_id t r == row_id t (row now))
                (λ r. set now r (row now)) (λ r. c now r (row now))))
      | inr e ↦
          let (meets, put) = rw e at carried in
          subst (Evolves d) (sym put) (put_new t (row now) d meets)
    ]
Executed-Evolves {t} (update w set) c (ok rows) d d' (now, (found, put)) =
    subst (Evolves d) (sym put)
      (put_table-Evolves t _ d (Develops-map t (get_table t d) w (set now) (c now)))

-- Tasks whose statements are all permitted develop the tables, however they interleave.
pub Steps-Evolves :
    {h : Host} (p : IsPostgres h) {A : Type 0} {tasks tasks' : List (Program A)} {s s' : h.State}
    → Steps h tasks s tasks' s'
    → All Permits tasks
    → Evolves (p.tables s) (p.tables s')
Steps-Evolves p steps permits = Steps-Guarantees Evolves p Evolves-refl Evolves-trans steps (
    All-Guarantees Permitted Evolves (λ t q c. record { executes = Executed-Evolves q c }) _
      permits)
