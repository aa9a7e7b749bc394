-- ===== src/Effect/Handler.antt =====
-- Asynchronous functions that return a `Result`: a `do` block goes on with the value, and an error
-- ends it, which is what `?` does.
use nyrex.Prelude.{Option, none, some, Result, ok, err, map_err, ok_or_else}
use nyrex.Effect.Program
use nyrex.Effect.Program.{Program, Request, Reply, done, panic}

abbrev pub Handler : Type 0 → Type 0 → Type 0
Handler A E = Program (Result A E)

module _ {A E : Type 0} where
  abbrev pub continue : {B : Type 0} → (A → Handler B E) → Result A E → Handler B E
  continue f (ok a) = f a
  continue f (err e) = done (err e)

  infixl 5 ◌>>=◌
  abbrev pub ◌>>=◌ : {B : Type 0} → Handler A E → (A → Handler B E) → Handler B E
  m >>= f = Program.◌>>=◌ m (continue f)

  abbrev pub pure : A → Handler A E
  pure a = done (ok a)

  abbrev pub fail : E → Handler A E
  fail e = done (err e)

  -- A step with no `?` behind it.
  abbrev pub awaiting : Program A → Handler A E
  awaiting m = Program.◌>>=◌ m pure

  -- `.map_err(f)`
  abbrev pub mapping_err : {F : Type 0} → (F → E) → Handler A F → Handler A E
  mapping_err f m = Program.◌>>=◌ m (λ r. done (map_err f r))

  -- `.ok_or_else(|| e)`
  abbrev pub present : Option A → E → Handler A E
  present o e = done (ok_or_else o e)

-- The result of a step with no `?` behind it.
abbrev pub lifted : {A E S : Type 0} → Option A × S → Option (Result A E) × S
lifted (some a, s) = (some (ok a), s)
lifted (none, s) = (none, s)
