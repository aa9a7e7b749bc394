-- ===== src/Effect/Only.antt =====
-- Which statements a program makes, whatever the replies are.
use nyrex.Prelude.{List, [], ◌∷◌, All}
use nyrex.Effect.Table.{Table, Tables}
use nyrex.Effect.Tasks.{Executes, Within, Guarantees}
use nyrex.Effect.Statement.{Statement}
use nyrex.Effect.Program.{
  Request, sql, utc_now, new_v4, generate_salt, generate_nonce, Reply, Program, done, panic, ask,
  ◌>>=◌,
}

module _ (P : (t : Table) → Statement t → Type 0) where
  abbrev pub OnlyRequest : Request → Type 0
  OnlyRequest (sql {t} q) = P t q
  OnlyRequest utc_now = Unit
  OnlyRequest new_v4 = Unit
  OnlyRequest generate_salt = Unit
  OnlyRequest generate_nonce = Unit

  -- All statements of a program are of one kind.
  abbrev pub Only : {A : Type 0} → Program A → Type 0
  Only (done a) = Unit
  Only panic = Unit
  Only (ask q k) = OnlyRequest q × ((r : Reply q) → Only (k r))

  pub Only-bind :
      {A B : Type 0} (m : Program A) (f : A → Program B)
      → Only m
      → ((a : A) → Only (f a))
      → Only (m >>= f)
  Only-bind (done a) f g w = w a
  Only-bind panic f g w = tt
  Only-bind (ask q k) f g w = (g.0, λ r. Only-bind (k r) f (g.1 r) w)

module _ (P Q : (t : Table) → Statement t → Type 0)
    (weaker : (t : Table) (q : Statement t) → P t q → Q t q) where
  OnlyRequest-mono : (q : Request) → OnlyRequest P q → OnlyRequest Q q
  OnlyRequest-mono (sql {t} q) w = weaker t q w
  OnlyRequest-mono utc_now w = tt
  OnlyRequest-mono new_v4 w = tt
  OnlyRequest-mono generate_salt w = tt
  OnlyRequest-mono generate_nonce w = tt

  pub Only-mono : {A : Type 0} (m : Program A) → Only P m → Only Q m
  Only-mono (done a) w = tt
  Only-mono panic w = tt
  Only-mono (ask q k) (w, ws) = (OnlyRequest-mono q w, λ r. Only-mono (k r) (ws r))

module _ (P : (t : Table) → Statement t → Type 0) (R : Tables → Tables → Type 0)
    (executes : (t : Table) (q : Statement t) → P t q → Executes R q) where
  OnlyRequest-Within : (q : Request) → OnlyRequest P q → Within R q
  OnlyRequest-Within (sql {t} q) g = executes t q g
  OnlyRequest-Within utc_now g = tt
  OnlyRequest-Within new_v4 g = tt
  OnlyRequest-Within generate_salt g = tt
  OnlyRequest-Within generate_nonce g = tt

  -- What each statement of the kind does to the tables, a program that makes no other does.
  Only-Guarantees : {A : Type 0} (m : Program A) → Only P m → Guarantees R m
  Only-Guarantees (done a) g = tt
  Only-Guarantees panic g = tt
  Only-Guarantees (ask q k) g = (OnlyRequest-Within q g.0, λ r. Only-Guarantees (k r) (g.1 r))

  pub All-Guarantees :
      {A : Type 0} (tasks : List (Program A)) → All (Only P) tasks → All (Guarantees R) tasks
  All-Guarantees [] g = tt
  All-Guarantees (m ∷ tasks) (g, gs) = (Only-Guarantees m g, All-Guarantees tasks gs)
