-- ===== src/Effect/Calls.antt =====
-- A component that keeps each call's promise keeps them over any run of calls. The promise is stated
-- on an abstract state, which is a view of the tables.
use nyrex.Prelude.{Option, none, some, List, [], ◌∷◌}
use nyrex.Effect.Table.{Tables}
use nyrex.Effect.Program.{Program, done, ◌>>=◌}
use nyrex.Effect.Logic.{Ensures, Ensures-bind, Ensures-mono, Next}
use nyrex.Effect.Schema.{IsWellFormed}

-- A run of calls on one abstract state, where each call behaves as it may.
pub data Runs {S Op R : Type 0} (Behaves : S → S → Op → R → Type 0)
    : S → S → List Op → List R → Type 0 where
  ended : {f : S} → Runs Behaves f f [] []
  called :
      {f : S} (g : S) {f' : S} {op : Op} {ops : List Op} {r : R} {rs : List R}
      → Behaves f g op r
      → Runs Behaves g f' ops rs
      → Runs Behaves f f' (op ∷ ops) (r ∷ rs)

-- The calls in their order, also after an error.
unfoldable pub perform_all : {Op R : Type 0} → (Op → Program R) → List Op → Program (List R)
perform_all perform [] = done []
perform_all perform (op ∷ ops) = perform op >>= λ r. perform_all perform ops >>= λ rs. done (r ∷ rs)

module _ {S Op R : Type 0} (Behaves : S → S → Op → R → Type 0) (view : Tables → S) where
  -- The answer is one of the abstract state's, and the constraints hold again. A panic is none.
  abbrev pub Kept : Op → Tables → Option R → Tables → Type 0
  Kept op d none d' = ⊥
  Kept op d (some r) d' = Behaves (view d) (view d') op r × IsWellFormed d'

  -- The same of the answers to a run of calls.
  abbrev pub AllKept : List Op → Tables → Option (List R) → Tables → Type 0
  AllKept ops d none d' = ⊥
  AllKept ops d (some rs) d' = Runs Behaves (view d) (view d') ops rs × IsWellFormed d'

module _ {S Op R : Type 0} (Behaves : S → S → Op → R → Type 0) (view : Tables → S)
    (perform : Op → Program R)
    (law : (op : Op) (d : Tables)
      → IsWellFormed d
      → Ensures (perform op) (Kept Behaves view op d) d) where
  after_calls :
      (op : Op) (ops : List Op) (d : Tables) (r : R) (e : Tables)
      → Behaves (view d) (view e) op r
      → (rs : Option (List R)) (d' : Tables) → AllKept Behaves view ops e rs d'
      → Next (λ rs. done (r ∷ rs)) (AllKept Behaves view (op ∷ ops) d) rs d'
  after_calls op ops d r e b none d' never = never
  after_calls op ops d r e b (some rs) d' (runs, wf) = (called (view e) b runs, wf)

  after_call :
      (op : Op) (ops : List Op) (d : Tables)
      → ((e : Tables)
          → IsWellFormed e
          → Ensures (perform_all perform ops) (AllKept Behaves view ops e) e)
      → (r : Option R) (e : Tables) → Kept Behaves view op d r e
      → Next
          (λ r. perform_all perform ops >>= λ rs. done (r ∷ rs))
          (AllKept Behaves view (op ∷ ops) d)
          r
          e
  after_call op ops d rest none e never = never
  after_call op ops d rest (some r) e (b, wf) =
      Ensures-bind (λ rs. done (r ∷ rs)) (AllKept Behaves view (op ∷ ops) d)
        (perform_all perform ops) e
        (Ensures-mono (after_calls op ops d r e b) (perform_all perform ops) e (rest e wf))

  pub perform_all-Ensures :
      (ops : List Op) (d : Tables)
      → IsWellFormed d
      → Ensures (perform_all perform ops) (AllKept Behaves view ops d) d
  unfolding perform_all
  perform_all-Ensures [] d wf = (ended, wf)
  perform_all-Ensures (op ∷ ops) d wf =
      Ensures-bind (λ r. perform_all perform ops >>= λ rs. done (r ∷ rs))
        (AllKept Behaves view (op ∷ ops) d) (perform op) d
        (Ensures-mono (after_call op ops d (perform_all-Ensures ops)) (perform op) d (law op d wf))
