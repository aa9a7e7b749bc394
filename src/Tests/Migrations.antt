-- ===== src/Tests/Migrations.antt =====
-- The migrations on a database without tables, which is a function from names to tables.
use nyrex.Prelude.{◌≡◌, refl, String, Bool, true, false, ◌&&◌, Option, none, some}
use nyrex.Store.Migrations.{
  Table, Statement, create_table_if_not_exists, drop_columns_if_exist, add_columns, effect, CanRun,
  can_add, can_refer, is_distinct, IsDocumented, migrate,
}
use nyrex.Store.Schema.{Columns}
use nyrex.Store.Queries.Typing.{WellTyped, migrate-WellTyped}

abbrev Database : Type 0
Database = String → Option Table

abbrev fits_in : Database → Columns → Option Table → Bool
fits_in d cs none = false
fits_in d cs (some t) = can_add cs t && (is_distinct cs && can_refer d cs)

abbrev is_there : Option Table → Bool
is_there none = false
is_there (some t) = true

abbrev can_run : Statement → Database → Bool
can_run (create_table_if_not_exists name cs) d = is_distinct cs && can_refer d cs
can_run (drop_columns_if_exist name cs) d = is_there (d name)
can_run (add_columns name cs) d = fits_in d cs (d name)

abbrev run : Statement → Database → Option Database
run q d = elim (can_run q d) [ true ↦ some (λ v. effect v q (d v)) | false ↦ none ]

can_run-CanRun : (q : Statement) (d : Database) → CanRun d q → can_run q d ≡ true
can_run-CanRun (create_table_if_not_exists name cs) d c = c
can_run-CanRun (drop_columns_if_exist name cs) d (t, e) = rw e refl
can_run-CanRun (add_columns name cs) d (t, e, f) = rw e f

run-IsDocumented : IsDocumented {Database = Database} (λ d. d) run
run-IsDocumented q d known c =
    (λ v. effect v q (d v), rw (can_run-CanRun q d c, run) refl, λ v. refl)

migrate-WellTyped_example : (d : Database) × (migrate run (λ v. none) ≡ some d) × WellTyped d
migrate-WellTyped_example = migrate-WellTyped (λ d. d) run run-IsDocumented (λ v. none) (λ v. refl)
