-- ===== src/Store/Auth/Directory.antt =====
-- The registry that the rows of `users` and `refresh_tokens` stand for.
use nyrex.Prelude.{◌==◌}
use nyrex.Prelude.Text.{str_eq}
use nyrex.Core.Models.{User, RefreshToken}
use nyrex.Effect.Table.{Tables}
use nyrex.Effect.Schema.Lookup.{first}
use nyrex.Store.Auth.Spec.{Registry}

abbrev pub registry : Tables → Registry
registry d = record {
  account = λ email. first (λ (u : User). str_eq u.email email) d.users;
  session = λ i. first (λ (r : RefreshToken). r.id == i) d.refresh_tokens;
}
