-- ===== src/Effect/Statement.antt =====
-- The SQL statements that the server's queries are made of. `NOW()` is the first argument of a
-- clause that mentions it.
use nyrex.Prelude.{String, Bool, List, Result}
use nyrex.Core.Models.{DateTime}
use nyrex.Effect.Table.{Table, Row}

-- An `sqlx::Error` is used through its text alone.
abbrev pub DbError : Type 0
DbError = String

pub data Statement : Table → Type 0 where
  -- SELECT * FROM t WHERE ...
  select : {t : Table} → (DateTime → Row t → Bool) → Statement t
  -- SELECT * FROM t WHERE ... ORDER BY key DESC
  select_desc : {t : Table} → (DateTime → Row t → Bool) → (Row t → DateTime) → Statement t
  -- INSERT INTO t (...) VALUES (...) RETURNING *
  insert : {t : Table} → (DateTime → Row t) → Statement t
  -- INSERT INTO t (...) VALUES (...) ON CONFLICT (id) DO UPDATE SET ..., where the function has
  -- NOW(), the row that stands in the table and EXCLUDED
  upsert : {t : Table} → (DateTime → Row t) → (DateTime → Row t → Row t → Row t) → Statement t
  -- UPDATE t SET ... WHERE ... RETURNING *
  update : {t : Table} → (Row t → Bool) → (DateTime → Row t → Row t) → Statement t

-- The rows that a statement returns. `execute` drops them.
abbrev pub Rows : Table → Type 0
Rows t = Result (List (Row t)) DbError
