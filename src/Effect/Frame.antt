-- ===== src/Effect/Frame.antt =====
-- A statement changes its own table only.
use nyrex.Prelude.{◌≡◌, ◌⊎◌, inl, inr, Bool-cases, List, ok, err}
use nyrex.Effect.Table.{Table, Row, row_id, Tables, put_table, has_id}
use nyrex.Effect.Statement.{Statement, select, select_desc, insert, upsert, update, Rows}
use nyrex.Effect.Host.{Executed}

pub Executed-put_table :
    {t : Table} (q : Statement t) (r : Rows t) (d d' : Tables)
    → Executed q d r d'
    → (d' ≡ d) ⊎ ((rows : List (Row t)) × (d' ≡ put_table t rows d))
Executed-put_table q (err m) d d' same = inl same
Executed-put_table (select w) (ok rows) d d' (now, (found, same)) = inl same
Executed-put_table (select_desc w key) (ok rows) d d' (now, (found, sorted, same)) = inl same
Executed-put_table (insert row) (ok rows) d d' (now, (meets, returned, put)) = inr (_, put)
Executed-put_table {t} (upsert row set) (ok rows) d d' (now, carried) =
    elim (Bool-cases (has_id t (row_id t (row now)) d)) [
      | inl e ↦ let put = rw e at carried in inr (_, put)
      | inr e ↦ let (meets, put) = rw e at carried in inr (_, put)
    ]
Executed-put_table (update w set) (ok rows) d d' (now, (found, put)) = inr (_, put)
