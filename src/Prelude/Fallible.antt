-- ===== src/Prelude/Fallible.antt =====
-- Rust's `Result<T, E>`.
use mathlib.Core.Path.{◌≡◌, refl}
use mathlib.Core.Logic.{◌⊎◌, inl, inr}
use mathlib.Core.Option.{Option, none, some}

pub data Result (A E : Type 0) : Type 0 where
  ok : A → Result A E
  err : E → Result A E

module _ {A E : Type 0} where
  -- `Option::ok_or_else`
  abbrev pub ok_or_else : Option A → E → Result A E
  ok_or_else none e = err e
  ok_or_else (some a) e = ok a

  -- `Result::map_err`
  abbrev pub map_err : {F : Type 0} → (E → F) → Result A E → Result A F
  map_err f (ok a) = ok a
  map_err f (err e) = err (f e)

  pub Result-cases : (r : Result A E) → ((a : A) × (r ≡ ok a)) ⊎ ((e : E) × (r ≡ err e))
  Result-cases (ok a) = inl (a, refl)
  Result-cases (err e) = inr (e, refl)

-- `?` on a plain `Result`
infixl 5 ◌>>=?◌
abbrev pub ◌>>=?◌ : {A B E : Type 0} → Result A E → (A → Result B E) → Result B E
ok a >>=? f = f a
err e >>=? f = err e
