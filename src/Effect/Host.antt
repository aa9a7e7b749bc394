-- ===== src/Effect/Host.antt =====
-- The world that answers the requests of a program: PostgreSQL, the clock and the generators of
-- random values. None of it is code of the repository, so it is a parameter, and what the server
-- relies on is the record `IsPostgres`.
use nyrex.Prelude.{
  ◌≡◌, true, Option, none, some, List, [], ◌∷◌, map, Permᴰ, ok, err, filter, All, if◌then◌else◌,
  ◌==◌, ◌≤◌,
}
use nyrex.Core.Models.{DateTime}
use nyrex.Effect.Table.{Table, Row, row_id, Tables, get_table, put_table, has_id, meets_constraints}
use nyrex.Effect.Statement.{Statement, select, select_desc, insert, upsert, update, Rows}
use nyrex.Effect.Program.{
  Request, sql, utc_now, new_v4, generate_salt, generate_nonce, Reply, Program, done, panic, ask,
}

pub record Host : Type 1 where
  pub State : Type 0
  pub answer : (q : Request) → State → Reply q × State

-- A program that runs with no other task between its requests. `none` is a panic.
abbrev pub run : (h : Host) {A : Type 0} → Program A → h.State → Option A × h.State
run h (done a) s = (some a, s)
run h panic s = (none, s)
run h (ask q k) s = let (r, s') = h.answer q s in run h (k r) s'

-- Each row's key is at least that of every row behind it.
abbrev pub IsDescending : {A : Type 0} → (A → DateTime) → List A → Type 0
IsDescending key [] = Unit
IsDescending key (r ∷ rs) = All (λ x. key x ≤ key r) rs × IsDescending key rs

-- What PostgreSQL's manual says of a statement that is carried out at the time `now`, in a database
-- with the contents `d`: the rows that it returns, in no particular order, and the contents after it.
abbrev pub CarriedOut :
    {t : Table} → Statement t → DateTime → Tables → List (Row t) → Tables → Type 0
CarriedOut {t} (select w) now d rows d' = Permᴰ rows (filter (w now) (get_table t d)) × (d' ≡ d)
CarriedOut {t} (select_desc w key) now d rows d' =
    Permᴰ rows (filter (w now) (get_table t d)) × IsDescending key rows × (d' ≡ d)
CarriedOut {t} (insert row) now d rows d' =
    (meets_constraints t (row now) d ≡ true)
    × (rows ≡ row now ∷ [])
    × (d' ≡ put_table t (row now ∷ get_table t d) d)
CarriedOut {t} (upsert row set) now d rows d' =
    if has_id t (row_id t (row now)) d
    then d'
      ≡ put_table t
          (map (λ r. if row_id t r == row_id t (row now) then set now r (row now) else r)
            (get_table t d))
          d
    else (meets_constraints t (row now) d ≡ true) × (d' ≡ put_table t (row now ∷ get_table t d) d)
CarriedOut {t} (update w set) now d rows d' =
    Permᴰ rows (map (set now) (filter w (get_table t d)))
    × (d' ≡ put_table t (map (λ r. if w r then set now r else r) (get_table t d)) d)

-- A statement is carried out as a whole, or it returns an error and leaves the contents alone: a
-- violated constraint, a lost connection, a timeout.
abbrev pub Executed : {t : Table} → Statement t → Tables → Rows t → Tables → Type 0
Executed q d (ok rows) d' = (now : DateTime) × CarriedOut q now d rows d'
Executed q d (err e) d' = d' ≡ d

pub record IsPostgres (h : Host) : Type 0 where
  pub tables : h.State → Tables
  pub executes :
      {t : Table} (q : Statement t) (s : h.State)
      → let (r, s') = h.answer (sql q) s in Executed q (tables s) r (tables s')
  pub utc_now-tables : (s : h.State) → tables (h.answer utc_now s).1 ≡ tables s
  pub new_v4-tables : (s : h.State) → tables (h.answer new_v4 s).1 ≡ tables s
  pub generate_salt-tables : (s : h.State) → tables (h.answer generate_salt s).1 ≡ tables s
  pub generate_nonce-tables : (s : h.State) → tables (h.answer generate_nonce s).1 ≡ tables s
