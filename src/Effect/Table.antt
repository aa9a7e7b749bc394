-- ===== src/Effect/Table.antt =====
-- The tables that the migrations of crates/store/migrations declare and the server's queries name.
use nyrex.Prelude.{List, Bool, ◌&&◌, not, any, ◌==◌}
use nyrex.Prelude.Text.{str_eq}
use nyrex.Core.Models.{Uuid, User, RefreshToken, Note, VaultEntry}

pub data Table : Type 0 where
  users refresh_tokens notes vault_entries : Table

abbrev pub Row : Table → Type 0
Row users = User
Row refresh_tokens = RefreshToken
Row notes = Note
Row vault_entries = VaultEntry

-- The column `id`, each table's primary key.
abbrev pub row_id : (t : Table) → Row t → Uuid
row_id users r = r.id
row_id refresh_tokens r = r.id
row_id notes r = r.id
row_id vault_entries r = r.id

-- The contents of the database.
pub record Tables : Type 0 where
  pub users : List User
  pub refresh_tokens : List RefreshToken
  pub notes : List Note
  pub vault_entries : List VaultEntry

abbrev pub get_table : (t : Table) → Tables → List (Row t)
get_table Table.users d = d.users
get_table Table.refresh_tokens d = d.refresh_tokens
get_table Table.notes d = d.notes
get_table Table.vault_entries d = d.vault_entries

abbrev pub put_table : (t : Table) → List (Row t) → Tables → Tables
put_table Table.users rows d = record d { users = rows }
put_table Table.refresh_tokens rows d = record d { refresh_tokens = rows }
put_table Table.notes rows d = record d { notes = rows }
put_table Table.vault_entries rows d = record d { vault_entries = rows }

-- Some row has this primary key.
abbrev pub has_id : (t : Table) → Uuid → Tables → Bool
has_id t i d = any (λ r. row_id t r == i) (get_table t d)

-- The constraints that the migrations declare on a new row: 202604170001_initial_schema.sql for users
-- and notes, and 202604170002_auth.sql for the tokens.
abbrev user_constraints : User → Tables → Bool
user_constraints u d =
    not (has_id Table.users u.id d) && not (any (λ r. str_eq r.email u.email) d.users)

abbrev note_constraints : Note → Tables → Bool
note_constraints n d = not (has_id Table.notes n.id d) && has_id Table.users n.user_id d

abbrev refresh_token_constraints : RefreshToken → Tables → Bool
refresh_token_constraints r d =
    not (has_id Table.refresh_tokens r.id d) && has_id Table.users r.user_id d

-- Those of 202604170003_secure_sync_v2.sql, the table that the uploads write to. Where all migrations
-- ran on a database without tables, the first one's table stands in its place, which has no
-- `note_id`: there no INSERT of an upload is carried out.
abbrev vault_entry_constraints : VaultEntry → Tables → Bool
vault_entry_constraints e d =
    not (has_id Table.vault_entries e.id d)
    && (has_id Table.notes e.note_id d && has_id Table.users e.user_id d)

abbrev pub meets_constraints : (t : Table) → Row t → Tables → Bool
meets_constraints Table.users u d = user_constraints u d
meets_constraints Table.refresh_tokens r d = refresh_token_constraints r d
meets_constraints Table.notes n d = note_constraints n d
meets_constraints Table.vault_entries e d = vault_entry_constraints e d
