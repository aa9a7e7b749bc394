-- ===== src/Effect/Rows.antt =====
-- What holds of every row of the tables, through statements and through interleaved tasks.
use nyrex.Prelude.{
  sym, subst, inl, inr, Bool, List, ◌∷◌, map, ◌==◌, Bool-cases, if◌then◌else◌, In, In-map_inv, All,
  ok, err,
}
use nyrex.Core.Models.{DateTime, User, RefreshToken, Note, VaultEntry}
use nyrex.Effect.Table.{Table, Row, row_id, Tables, get_table, put_table, has_id}
use nyrex.Effect.Statement.{Statement, select, select_desc, insert, upsert, update, Rows}
use nyrex.Effect.Program.{Program}
use nyrex.Effect.Host.{Host, IsPostgres, Executed}
use nyrex.Effect.Only.{Only, All-Guarantees}
use nyrex.Effect.Tasks.{Steps, Steps-Guarantees}

module _ (Good : (t : Table) → Row t → Type 0) where
  -- What a statement writes is good, if the rows that it changes are.
  abbrev pub Writes : (t : Table) → Statement t → Type 0
  Writes t (select w) = Unit
  Writes t (select_desc w key) = Unit
  Writes t (insert row) = (now : DateTime) → Good t (row now)
  Writes t (upsert row set) =
      (now : DateTime)
      → Good t (row now) × ((old : Row t) → Good t old → Good t (set now old (row now)))
  Writes t (update w set) = (now : DateTime) (old : Row t) → Good t old → Good t (set now old)

  pub record AllRows (d : Tables) : Type 0 where
    pub users : (r : User) → In r d.users → Good Table.users r
    pub refresh_tokens : (r : RefreshToken) → In r d.refresh_tokens → Good Table.refresh_tokens r
    pub notes : (r : Note) → In r d.notes → Good Table.notes r
    pub vault_entries : (r : VaultEntry) → In r d.vault_entries → Good Table.vault_entries r

  all_of : (t : Table) (d : Tables) → AllRows d → (r : Row t) → In r (get_table t d) → Good t r
  all_of Table.users d g = g.users
  all_of Table.refresh_tokens d g = g.refresh_tokens
  all_of Table.notes d g = g.notes
  all_of Table.vault_entries d g = g.vault_entries

  put_table-AllRows :
      (t : Table) (rows : List (Row t)) (d : Tables)
      → AllRows d
      → ((r : Row t) → In r rows → Good t r)
      → AllRows (put_table t rows d)
  put_table-AllRows Table.users rows d g new = record {
    users = new;
    refresh_tokens = g.refresh_tokens;
    notes = g.notes;
    vault_entries = g.vault_entries;
  }
  put_table-AllRows Table.refresh_tokens rows d g new = record {
    users = g.users;
    refresh_tokens = new;
    notes = g.notes;
    vault_entries = g.vault_entries;
  }
  put_table-AllRows Table.notes rows d g new = record {
    users = g.users;
    refresh_tokens = g.refresh_tokens;
    notes = new;
    vault_entries = g.vault_entries;
  }
  put_table-AllRows Table.vault_entries rows d g new = record {
    users = g.users;
    refresh_tokens = g.refresh_tokens;
    notes = g.notes;
    vault_entries = new;
  }

  added :
      (t : Table) (row : Row t) (d : Tables)
      → AllRows d
      → Good t row
      → AllRows (put_table t (row ∷ get_table t d) d)
  added t row d g good =
      put_table-AllRows t (row ∷ get_table t d) d g
        λ r. elim [ inl e ↦ subst (Good t) (sym e) good | inr m ↦ all_of t d g r m ]

  changed :
      (t : Table) (w : Row t → Bool) (set : Row t → Row t) (d : Tables)
      → AllRows d
      → ((r : Row t) → Good t r → Good t (set r))
      → AllRows (put_table t (map (λ r. if w r then set r else r) (get_table t d)) d)
  changed t w set d g keeps =
      put_table-AllRows t (map (λ r. if w r then set r else r) (get_table t d)) d g λ r' m'.
        let (r, m, e) = In-map_inv (λ r. if w r then set r else r) r' (get_table t d) m' in
        let good = all_of t d g r m in
        subst (Good t) (sym e) (elim (Bool-cases (w r)) [
          | inl meets ↦ rw meets (keeps r good)
          | inr misses ↦ rw misses good
        ])

  abbrev Keeps : Tables → Tables → Type 0
  Keeps d d' = AllRows d → AllRows d'

  Executed-AllRows :
      {t : Table} (q : Statement t)
      → Writes t q
      → (r : Rows t) (d d' : Tables) → Executed q d r d'
      → Keeps d d'
  Executed-AllRows q w (err m) d d' same g = subst AllRows (sym same) g
  Executed-AllRows (select c) w (ok rows) d d' (now, (found, same)) g = subst AllRows (sym same) g
  Executed-AllRows (select_desc c key) w (ok rows) d d' (now, (found, sorted, same)) g =
      subst AllRows (sym same) g
  Executed-AllRows {t} (insert row) w (ok rows) d d' (now, (meets, returned, put)) g =
      subst AllRows (sym put) (added t (row now) d g (w now))
  Executed-AllRows {t} (upsert row set) w (ok rows) d d' (now, carried) g =
      elim (Bool-cases (has_id t (row_id t (row now)) d)) [
        | inl e ↦
            let put = rw e at carried in
            subst AllRows (sym put) (
              changed t (λ r. row_id t r == row_id t (row now)) (λ r. set now r (row now)) d g
                (w now).1)
        | inr e ↦
            let (meets, put) = rw e at carried in
            subst AllRows (sym put) (added t (row now) d g (w now).0)
      ]
  Executed-AllRows {t} (update c set) w (ok rows) d d' (now, (found, put)) g =
      subst AllRows (sym put) (changed t c (set now) d g (w now))

  -- Tasks that write good rows only leave all rows good, however they interleave.
  pub Steps-AllRows :
      {h : Host} (p : IsPostgres h) {A : Type 0} {tasks tasks' : List (Program A)} {s s' : h.State}
      → Steps h tasks s tasks' s'
      → All (Only Writes) tasks
      → AllRows (p.tables s)
      → AllRows (p.tables s')
  Steps-AllRows p steps writes =
      Steps-Guarantees Keeps p (λ d g. g) (λ d e f first second g. second (first g)) steps
        (All-Guarantees Writes Keeps (λ t q w. record { executes = Executed-AllRows q w }) _ writes)
