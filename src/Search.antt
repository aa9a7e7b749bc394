-- ===== src/Search.antt =====
-- crates/search/src/lib.rs: the function of the package template. A u64 is a number below 2 ^ 64.
use nyrex.Prelude.{ℕ, ◌+◌, ◌%◌, ◌^◌, ◌==◌, Bool, Option, none, some, if◌then◌else◌, ltb}
use nyrex.Effect.Program.{Program, ◌>>=◌}
use nyrex.Effect.Asserts.{assert, unwrap}
use nyrex.Prelude.{ok_or_else}

-- `none` is the panic of a build with overflow checks; without them the sum wraps.
abbrev pub add : Bool → ℕ → ℕ → Option ℕ
add overflow_checks left right =
    if ltb (left + right) (2 ^ 64)
    then some (left + right)
    else (if overflow_checks then none else some ((left + right) % 2 ^ 64))

abbrev pub it_works : Bool → Program (Unit {0})
it_works overflow_checks = do
  result ← unwrap (ok_or_else (add overflow_checks 2 2) tt)
  assert (result == 4)
