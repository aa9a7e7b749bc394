-- ===== src/Effect/Tasks.antt =====
-- Several tasks on one host: each step answers the pending request of one of them, so that their
-- requests interleave in every order. A task whose first request is pending has not begun.
pub mod Schedule
pub mod Bound
use nyrex.Prelude.{sym, subst, List, [], ◌∷◌, All}
use nyrex.Effect.Table.{Table, Tables}
use nyrex.Effect.Statement.{Statement, Rows}
use nyrex.Effect.Program.{
  Request, sql, utc_now, new_v4, generate_salt, generate_nonce, Reply, Program, done, panic, ask,
  ◌>>=◌,
}
use nyrex.Effect.Host.{Host, Executed, IsPostgres}

module _ (h : Host) {A : Type 0} where
  pub data Step : List (Program A) → h.State → List (Program A) → h.State → Type 0 where
    replied :
        (q : Request) (k : Reply q → Program A) {tasks : List (Program A)} (s : h.State)
        → Step (ask q k ∷ tasks) s (k (h.answer q s).0 ∷ tasks) (h.answer q s).1
    elsewhere :
        (m : Program A) {tasks tasks' : List (Program A)} {s s' : h.State}
        → Step tasks s tasks' s'
        → Step (m ∷ tasks) s (m ∷ tasks') s'

  pub data Steps : List (Program A) → h.State → List (Program A) → h.State → Type 0 where
    rest : {tasks : List (Program A)} {s : h.State} → Steps tasks s tasks s
    next :
        {tasks : List (Program A)} {s : h.State} (tasks' : List (Program A)) (s' : h.State)
        {tasks'' : List (Program A)} {s'' : h.State}
        → Step tasks s tasks' s'
        → Steps tasks' s' tasks'' s''
        → Steps tasks s tasks'' s''

-- A statement changes the tables by `R` only, whatever the tables are.
pub record Executes (R : Tables → Tables → Type 0) {t : Table} (q : Statement t) : Type 0 where
  pub executes : (r : Rows t) (d d' : Tables) → Executed q d r d' → R d d'

module _ (R : Tables → Tables → Type 0) where
  -- The statement of a request changes the tables by `R` only.
  abbrev pub Within : Request → Type 0
  Within (sql q) = Executes R q
  Within utc_now = Unit
  Within new_v4 = Unit
  Within generate_salt = Unit
  Within generate_nonce = Unit

  -- All requests of a program are of this kind, whatever the answers are.
  abbrev pub Guarantees : {A : Type 0} → Program A → Type 0
  Guarantees (done a) = Unit
  Guarantees panic = Unit
  Guarantees (ask q k) = Within q × ((r : Reply q) → Guarantees (k r))

  pub Guarantees-bind :
      {A B : Type 0} (m : Program A) (f : A → Program B)
      → Guarantees m
      → ((a : A) → Guarantees (f a))
      → Guarantees (m >>= f)
  Guarantees-bind (done a) f g w = w a
  Guarantees-bind panic f g w = tt
  Guarantees-bind (ask q k) f g w = (g.0, λ r. Guarantees-bind (k r) f (g.1 r) w)

  module _ {h : Host} (p : IsPostgres h) (refl_R : (d : Tables) → R d d)
      (trans_R : (d e f : Tables) → R d e → R e f → R d f) where
    Within-answer :
        (q : Request) (s : h.State) → Within q → R (p.tables s) (p.tables (h.answer q s).1)
    Within-answer (sql q) s w = w.executes _ _ _ (p.executes q s)
    Within-answer utc_now s w = subst (R (p.tables s)) (sym (p.utc_now-tables s)) (refl_R _)
    Within-answer new_v4 s w = subst (R (p.tables s)) (sym (p.new_v4-tables s)) (refl_R _)
    Within-answer generate_salt s w =
        subst (R (p.tables s)) (sym (p.generate_salt-tables s)) (refl_R _)
    Within-answer generate_nonce s w =
        subst (R (p.tables s)) (sym (p.generate_nonce-tables s)) (refl_R _)

    step_lem :
        {A : Type 0} {tasks tasks' : List (Program A)} {s s' : h.State}
        → Step h tasks s tasks' s'
        → All Guarantees tasks
        → R (p.tables s) (p.tables s') × All Guarantees tasks'
    step_lem (replied q k s) (g, gs) = (Within-answer q s g.0, (g.1 _, gs))
    step_lem (elsewhere m step) (g, gs) =
        let (changed, kept) = step_lem step gs in (changed, (g, kept))

    -- What each request of all tasks guarantees holds between any two moments of an interleaving.
    pub Steps-Guarantees :
        {A : Type 0} {tasks tasks' : List (Program A)} {s s' : h.State}
        → Steps h tasks s tasks' s'
        → All Guarantees tasks
        → R (p.tables s) (p.tables s')
    Steps-Guarantees rest g = refl_R _
    Steps-Guarantees (next tasks' s' step steps) g =
        let (changed, kept) = step_lem step g in trans_R _ _ _ changed (Steps-Guarantees steps kept)
