-- ===== src/Core/Traits.antt =====
-- crates/core/src/traits/mod.rs: the interface of a note store, which the PostgreSQL store fills, and
-- those of a store of attachments and of a log of events, which nothing implements.
use nyrex.Prelude.{String, Option, List}
use nyrex.Prelude.Int.{ℤ}
use nyrex.Core.Error.{CoreError}
use nyrex.Core.Models.{Uuid, Note, VaultEntry, SyncEvent}
use nyrex.Effect.Handler.{Handler}

pub record NoteStore : Type 0 where
  pub get_note : Uuid → Uuid → Handler (Option Note) CoreError
  pub list_notes : Uuid → Handler (List Note) CoreError
  pub create_note : Note → Handler Note CoreError
  pub update_note : Note → Handler Note CoreError
  pub delete_note : Uuid → Uuid → Handler (Unit {0}) CoreError

pub record VaultStore : Type 0 where
  pub get_entry : Uuid → Uuid → Handler (Option VaultEntry) CoreError
  pub list_entries : Uuid → Handler (List VaultEntry) CoreError
  pub create_entry : VaultEntry → Handler VaultEntry CoreError
  pub update_entry : VaultEntry → Handler VaultEntry CoreError
  pub delete_entry : Uuid → Uuid → Handler (Unit {0}) CoreError

-- The arguments of `get_events_since` are the user, the client and the last event it knows.
pub record SyncEngine (Value : Type 0) : Type 0 where
  pub get_events_since : Uuid → String → ℤ → Handler (List (SyncEvent Value)) CoreError
  pub append_events : List (SyncEvent Value) → Handler (Unit {0}) CoreError
