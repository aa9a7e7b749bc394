-- ===== src/Effect/Program.antt =====
-- Asynchronous code as a tree: each node is one request to the world outside, where the task may be
-- suspended and others may run.
use nyrex.Prelude.{String, Option, List, [], ◌∷◌, Result, ok, err, head?}
use nyrex.Core.Models.{Uuid, DateTime, Bytes}
use nyrex.Effect.Table.{Table, Row}
use nyrex.Effect.Statement.{Statement, Rows, DbError}

pub data Request : Type 0 where
  sql : {t : Table} → Statement t → Request
  -- `Utc::now()`
  utc_now : Request
  -- `Uuid::new_v4()`
  new_v4 : Request
  -- `SaltString::generate(&mut OsRng)`
  generate_salt : Request
  -- `Aes256Gcm::generate_nonce(&mut OsRng)`
  generate_nonce : Request

abbrev pub Reply : Request → Type 0
Reply (sql {t} q) = Rows t
Reply utc_now = DateTime
Reply new_v4 = Uuid
Reply generate_salt = String
Reply generate_nonce = Bytes

pub data Program (A : Type 0) : Type 0 where
  done : A → Program A
  panic : Program A
  ask : (q : Request) → (Reply q → Program A) → Program A

infixl 5 ◌>>=◌
abbrev pub ◌>>=◌ : {A B : Type 0} → Program A → (A → Program B) → Program B
done a >>= f = f a
panic >>= f = panic
ask q k >>= f = ask q (λ r. k r >>= f)

abbrev pub request : (q : Request) → Program (Reply q)
request q = ask q done

-- `sqlx`'s `fetch_all`, `fetch_optional` and `fetch_one` on the rows that come back, and `execute`.
abbrev pub fetch_all : (t : Table) → Statement t → Program (Rows t)
fetch_all t q = request (sql q)

abbrev pub optional : {A : Type 0} → Result (List A) DbError → Result (Option A) DbError
optional (ok rows) = ok (head? rows)
optional (err e) = err e

abbrev pub fetch_optional : (t : Table) → Statement t → Program (Result (Option (Row t)) DbError)
fetch_optional t q = request (sql q) >>= λ r. done (optional r)

-- The text of `sqlx::Error::RowNotFound`.
abbrev pub row_not_found : DbError
row_not_found = "no rows returned by a query that expected to return at least one row"

abbrev pub one : {A : Type 0} → Result (List A) DbError → Result A DbError
one (ok []) = err row_not_found
one (ok (row ∷ rows)) = ok row
one (err e) = err e

abbrev pub fetch_one : (t : Table) → Statement t → Program (Result (Row t) DbError)
fetch_one t q = request (sql q) >>= λ r. done (one r)

abbrev pub executed : {A : Type 0} → Result (List A) DbError → Result (Unit {0}) DbError
executed (ok rows) = ok tt
executed (err e) = err e

abbrev pub execute : (t : Table) → Statement t → Program (Result (Unit {0}) DbError)
execute t q = request (sql q) >>= λ r. done (executed r)
