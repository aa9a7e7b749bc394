-- ===== src/Store/Migrations/Outcome.antt =====
-- crates/store/migrations: the tables that the migrations leave, and the one that the uploads of
-- attachments write to.
use nyrex.Prelude.{
  ◌≡◌, refl, sym, ◌∙◌, ap, subst, String, true, Option, none, some, List, [], ◌∷◌, In, inl, inr,
}
use mathlib.Core.Path.{fun_ext}
use nyrex.Store.Schema.{
  Columns, uuid, text, bytea, integer, boolean, timestamptz, text_array, varchar, unique, nullable,
  required, defaulted, identified, referring,
}
use nyrex.Store.Migrations.{
  Table, Statement, all_migrations, effect, CanRun, IsDocumented, run_all, migrate,
}

abbrev effects : String → List Statement → Option Table → Option Table
effects v [] o = o
effects v (q ∷ qs) o = effects v qs (effect v q o)

abbrev CanRunAll : (String → Option Table) → List Statement → Type 0
CanRunAll l [] = Unit {0}
CanRunAll l (q ∷ qs) = CanRun l q × CanRunAll (λ v. effect v q (l v)) qs

abbrev no_tables : String → Option Table
no_tables v = none

-- The references and the alterations come after the statements that create their tables, and the
-- columns that are added are new.
migrations-CanRunAll : CanRunAll no_tables all_migrations
migrations-CanRunAll = (
  refl,
  (refl, (refl, (refl, ((_, refl, refl), (refl, ((_, refl), ((_, refl, refl), (refl, tt)))))))),
)

-- An empty table with the columns.
abbrev pub created : Columns → Option Table
created cs = some (record { columns = cs; is_empty = true })

-- The columns of the tables at the end: those of the first migration for vault_entries, where the
-- third one has `attachment_columns`.
abbrev pub user_columns : Columns
user_columns =
    identified uuid
    ∷ record (required "email" (varchar 255)) { key = unique }
    ∷ nullable "display_name" (varchar 255)
    ∷ nullable "sso_provider" (varchar 50)
    ∷ nullable "sso_sub" (varchar 255)
    ∷ defaulted "created_at" timestamptz "NOW()"
    ∷ defaulted "updated_at" timestamptz "NOW()"
    ∷ defaulted "password_hash" text "''"
    ∷ []

abbrev pub note_columns : Columns
note_columns =
    identified uuid
    ∷ referring "user_id" "users"
    ∷ defaulted "format" (varchar 20) "'markdown'"
    ∷ defaulted "tags" text_array "'{}'"
    ∷ defaulted "is_encrypted" boolean "false"
    ∷ defaulted "created_at" timestamptz "NOW()"
    ∷ defaulted "updated_at" timestamptz "NOW()"
    ∷ nullable "deleted_at" timestamptz
    ∷ required "title_cipher" bytea
    ∷ required "content_cipher" bytea
    ∷ required "nonce" bytea
    ∷ defaulted "version" integer "1"
    ∷ []

abbrev pub refresh_token_columns : Columns
refresh_token_columns =
    identified uuid
    ∷ referring "user_id" "users"
    ∷ required "token_hash" text
    ∷ required "expires_at" timestamptz
    ∷ defaulted "revoked" boolean "false"
    ∷ defaulted "created_at" timestamptz "NOW()"
    ∷ []

abbrev pub old_vault_columns : Columns
old_vault_columns =
    identified uuid
    ∷ referring "user_id" "users"
    ∷ required "ciphertext" bytea
    ∷ required "nonce" bytea
    ∷ nullable "hint" text
    ∷ defaulted "created_at" timestamptz "NOW()"
    ∷ defaulted "updated_at" timestamptz "NOW()"
    ∷ nullable "deleted_at" timestamptz
    ∷ []

abbrev pub Migrated : (String → Option Table) → Type 0
Migrated tables =
    (tables "users" ≡ created user_columns)
    × ((tables "notes" ≡ created note_columns)
        × ((tables "refresh_tokens" ≡ created refresh_token_columns)
            × (tables "vault_entries" ≡ created old_vault_columns)))

module _ {Database : Type 0} (tables : Database → String → Option Table)
    (run : Statement → Database → Option Database) (documented : IsDocumented tables run) where
  -- Statements that can run in their order do, and each table is what they make of it.
  run_all-effects :
      (qs : List Statement) (d : Database)
      → ((q : Statement) → In q qs → In q all_migrations)
      → CanRunAll (tables d) qs
      → (d' : Database) × (run_all run qs d ≡ some d')
        × ((v : String) → tables d' v ≡ effects v qs (tables d v))
  unfolding run_all
  run_all-effects [] d known c = (d, refl, λ v. refl)
  run_all-effects (q ∷ qs) d known (c, cs) =
      let (d1, e, after) = documented q d (known q (inl refl)) c in
      let same : (λ v. effect v q (tables d v)) ≡ tables d1 = fun_ext (λ v. sym (after v)) in
      let rest =
        run_all-effects qs d1 (λ x m. known x (inr m)) (subst (λ l. CanRunAll l qs) same cs) in
      rw (e, run_all) (rest.0, rest.1, λ v. rest.2 v ∙ ap (effects v qs) (after v))

  -- On a database without tables that does what PostgreSQL documents, the migrations run to their
  -- end, and they leave the tables users, notes and refresh_tokens with the columns of
  -- their structures, but vault_entries with those of the first migration, since the third one's
  -- CREATE TABLE IF NOT EXISTS finds the table there.
  pub migrate-Migrated :
      (d : Database)
      → ((v : String) → tables d v ≡ none)
      → (d' : Database) × (migrate run d ≡ some d') × Migrated (tables d')
  unfolding migrate
  migrate-Migrated d fresh =
      let no : no_tables ≡ tables d = fun_ext (λ v. sym (fresh v)) in
      let (d', e, after) =
        run_all-effects all_migrations d (λ q m. m)
          (subst (λ l. CanRunAll l all_migrations) no migrations-CanRunAll) in
      let at : (v : String) → tables d' v ≡ effects v all_migrations none =
        λ v. after v ∙ ap (effects v all_migrations) (fresh v) in
      (d', e, (at "users", (at "notes", (at "refresh_tokens", at "vault_entries"))))
