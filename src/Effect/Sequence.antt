-- ===== src/Effect/Sequence.antt =====
-- Sequences of programs, as equations between programs: so they hold on every host, and among
-- other tasks as well as alone.
use mathlib.Core.Path.{fun_ext}
use nyrex.Prelude.{◌≡◌, refl, ap}
use nyrex.Effect.Program.{Program, done, panic, ask, ◌>>=◌}

pub >>=_assoc :
    {A B C : Type 0} (m : Program A) (f : A → Program B) (g : B → Program C)
    → (m >>= f) >>= g ≡ m >>= (λ a. f a >>= g)
>>=_assoc (done a) f g = refl
>>=_assoc panic f g = refl
>>=_assoc (ask q k) f g = ap (ask q) (fun_ext λ r. >>=_assoc (k r) f g)

pub >>=_done : {A : Type 0} (m : Program A) → m >>= done ≡ m
>>=_done (done a) = refl
>>=_done panic = refl
>>=_done (ask q k) = ap (ask q) (fun_ext λ r. >>=_done (k r))

-- Programs that go on in the same way are the same.
pub >>=_cong :
    {A B : Type 0} (m : Program A) {f g : A → Program B} → ((a : A) → f a ≡ g a) → m >>= f ≡ m >>= g
>>=_cong m same = ap (λ f. m >>= f) (fun_ext same)
