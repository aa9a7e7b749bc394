-- ===== src/Effect/Tasks/Schedule.antt =====
-- Interleavings that can be run: a list of the tasks whose turn it is.
use nyrex.Prelude.{ℕ, zero, suc, List, [], ◌∷◌}
use nyrex.Effect.Program.{Program, done, panic, ask}
use nyrex.Effect.Host.{Host}
use nyrex.Effect.Tasks.{Steps, replied, elsewhere, rest, next}

module _ (h : Host) {A : Type 0} where
  -- The task of this number goes on by one request, if there is such a task and it has not ended.
  abbrev pub turn : ℕ → List (Program A) → h.State → List (Program A) × h.State
  turn n [] s = ([], s)
  turn zero (done a ∷ tasks) s = (done a ∷ tasks, s)
  turn zero (panic ∷ tasks) s = (panic ∷ tasks, s)
  turn zero (ask q k ∷ tasks) s = let (r, s') = h.answer q s in (k r ∷ tasks, s')
  turn (suc n) (m ∷ tasks) s = let (tasks', s') = turn n tasks s in (m ∷ tasks', s')

  abbrev pub schedule : List ℕ → List (Program A) → h.State → List (Program A) × h.State
  schedule [] tasks s = (tasks, s)
  schedule (n ∷ turns) tasks s = let (tasks', s') = turn n tasks s in schedule turns tasks' s'

  beside :
      (m : Program A) {tasks tasks' : List (Program A)} {s s' : h.State}
      → Steps h tasks s tasks' s'
      → Steps h (m ∷ tasks) s (m ∷ tasks') s'
  beside m rest = rest
  beside m (next tasks' s' step steps) = next (m ∷ tasks') s' (elsewhere m step) (beside m steps)

  turn-Steps :
      (n : ℕ) (tasks : List (Program A)) (s : h.State)
      → let (tasks', s') = turn n tasks s in Steps h tasks s tasks' s'
  turn-Steps n [] s = rest
  turn-Steps zero (done a ∷ tasks) s = rest
  turn-Steps zero (panic ∷ tasks) s = rest
  turn-Steps zero (ask q k ∷ tasks) s = next _ _ (replied q k s) rest
  turn-Steps (suc n) (m ∷ tasks) s = beside m (turn-Steps n tasks s)

  Steps-trans :
      {a b c : List (Program A)} {s t u : h.State}
      → Steps h a s b t
      → Steps h b t c u
      → Steps h a s c u
  Steps-trans rest steps = steps
  Steps-trans (next tasks' s' step steps) steps' = next tasks' s' step (Steps-trans steps steps')

  -- A schedule is an interleaving.
  pub schedule-Steps :
      (turns : List ℕ) (tasks : List (Program A)) (s : h.State)
      → let (tasks', s') = schedule turns tasks s in Steps h tasks s tasks' s'
  schedule-Steps [] tasks s = rest
  schedule-Steps (n ∷ turns) tasks s =
      let (tasks', s') = turn n tasks s in
      Steps-trans (turn-Steps n tasks s) (schedule-Steps turns tasks' s')
