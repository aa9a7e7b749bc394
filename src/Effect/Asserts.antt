-- ===== src/Effect/Asserts.antt =====
-- The macros and methods of the unit tests: a failed one panics.
use nyrex.Prelude.{Bool, true, false, Result, ok, err}
use nyrex.Effect.Program.{Program, done, panic}

-- `assert!`, and `assert_eq!` and `assert_ne!` on the test of the two sides
abbrev pub assert : Bool → Program (Unit {0})
assert true = done tt
assert false = panic

-- `.unwrap()` and `.expect(…)`
abbrev pub unwrap : {A E : Type 0} → Result A E → Program A
unwrap (ok a) = done a
unwrap (err e) = panic
