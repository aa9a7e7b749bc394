-- ===== src/Effect/Tasks/Bound.antt =====
-- How many requests a task makes at most.
use nyrex.Prelude.{ℕ, zero, suc, ◌+◌, ◌≤◌, ◌≡◌, arith}
use nyrex.Effect.Program.{Reply, Program, done, panic, ask, ◌>>=◌}

-- The program makes at most so many requests, whatever the replies are.
abbrev pub Ends : {A : Type 0} → ℕ → Program A → Type 0
Ends n (done a) = Unit
Ends n panic = Unit
Ends zero (ask q k) = ⊥
Ends (suc n) (ask q k) = (r : Reply q) → Ends n (k r)

pub Ends-mono : {A : Type 0} (n m : ℕ) (p : Program A) → n ≤ m → Ends n p → Ends m p
Ends-mono n m (done a) le e = tt
Ends-mono n m panic le e = tt
Ends-mono zero m (ask q k) le e = absurd e
Ends-mono (suc n) zero (ask q k) le e = absurd (omega arith)
Ends-mono (suc n) (suc m) (ask q k) le e = λ r. Ends-mono n m (k r) (omega arith) (e r)

-- A sequence makes the requests of both parts.
pub Ends-bind :
    {A B : Type 0} (n m : ℕ) (p : Program A) (f : A → Program B)
    → Ends n p
    → ((a : A) → Ends m (f a))
    → Ends (n + m) (p >>= f)
Ends-bind n m (done a) f e w = Ends-mono m (n + m) (f a) (omega arith) (w a)
Ends-bind n m panic f e w = tt
Ends-bind zero m (ask q k) f e w = absurd e
Ends-bind (suc n) m (ask q k) f e w =
    let more : suc n + m ≡ suc (n + m) = omega arith in rw more (λ r. Ends-bind n m (k r) f (e r) w)
