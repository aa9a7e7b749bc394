-- ===== src/Api/Server/Stored.antt =====
-- services/api/src/main.rs: what holds of every stored row, however requests interleave.
use nyrex.Prelude.{◌≡◌, refl, String, Bool, Option, List, [], ◌∷◌, All, ok}
use nyrex.Core.Models.{Uuid}
use nyrex.Effect.Table.{Table, users, refresh_tokens, notes, vault_entries, Row}
use nyrex.Effect.Statement.{Statement}
use nyrex.Effect.Program.{Program}
use nyrex.Effect.Host.{Host, IsPostgres}
use nyrex.Effect.Only.{Only, Only-mono}
use nyrex.Effect.Rows.{AllRows, Writes, Steps-AllRows}
use nyrex.Effect.Tasks.{Steps}
use nyrex.Api.Libraries.{Libraries}
use nyrex.Api.Response.{AppState}
use nyrex.Api.AuthUtils.{hash_token}
use nyrex.Api.Server.{Call, Answer, serve}
use nyrex.Api.Server.Makes.{
  Makes, finds_user, adds_user, finds_token, revokes_token, adds_token, finds_note, pushes_note,
  adds_entry,
}
use nyrex.Api.Server.Requests.{serve-Only}
use nyrex.Api.Server.Interleaving.{tasks}

module _ (Good : (t : Table) → Row t → Type 0) (Fits : Call → Type 0) (L : Libraries)
    (state : AppState) (checks : Bool)
    (writes : (call : Call)
      → Fits call
      → (t : Table) (q : Statement t) → Makes L checks call t q
      → Writes Good t q) where
  tasks-Writes :
      (calls : List (Option String × Call))
      → All (λ c. Fits c.1) calls
      → All (Only (Writes Good)) (tasks L state checks calls)
  tasks-Writes [] fit = tt
  tasks-Writes ((header, call) ∷ calls) (fit, fits) = (
    Only-mono (Makes L checks call) (Writes Good) (writes call fit)
        (serve L state checks header call) (serve-Only L state checks header call),
    tasks-Writes calls fits,
  )

-- A user's row has an output of argon2, and a token's the hash of a generated identifier.
abbrev pub IsHashed : Libraries → (t : Table) → Row t → Type 0
IsHashed L users u =
    (password : String) × (salt : String) × (L.argon2_hash_password password salt
      ≡ ok u.password_hash)
IsHashed L refresh_tokens r = (raw : Uuid) × (r.token_hash ≡ hash_token L (L.uuid_to_string raw))
IsHashed L notes n = Unit
IsHashed L vault_entries e = Unit

any_call : (calls : List (Option String × Call)) → All (λ c. Unit {0}) calls
any_call [] = tt
any_call (c ∷ calls) = (tt, any_call calls)

Writes-IsHashed :
    {L : Libraries} {checks : Bool} (call : Call)
    → Unit {0}
    → (t : Table) (q : Statement t) → Makes L checks call t q
    → Writes (IsHashed L) t q
Writes-IsHashed _ _ t q (finds_user email) = tt
Writes-IsHashed _ _ t q (adds_user {body} id salt hash e) = λ now. (body.password, salt, e)
Writes-IsHashed _ _ t q finds_token = tt
Writes-IsHashed _ _ t q (revokes_token token_id) = λ now old hashed. hashed
Writes-IsHashed _ _ t q (adds_token id user_id raw now) = λ at. (raw, refl)
Writes-IsHashed _ _ t q (finds_note session note) = tt
Writes-IsHashed _ _ t q (pushes_note note found updated m e) = λ now. (tt, λ old hashed. tt)
Writes-IsHashed _ _ t q adds_entry = λ now. tt

-- No interleaving of requests stores a secret in the clear: if every stored password hash was an
-- output of argon2 and every stored refresh token the hash of an identifier's text, then this holds
-- of all rows at every later moment.
pub tasks-IsHashed :
    {h : Host} (p : IsPostgres h) (L : Libraries) (state : AppState) (checks : Bool)
    (calls : List (Option String × Call)) {later : List (Program Answer)} {s s' : h.State}
    → Steps h (tasks L state checks calls) s later s'
    → AllRows (IsHashed L) (p.tables s)
    → AllRows (IsHashed L) (p.tables s')
tasks-IsHashed p L state checks calls steps = Steps-AllRows (IsHashed L) p steps (
    tasks-Writes (IsHashed L) (λ call. Unit {0}) L state checks Writes-IsHashed calls
      (any_call calls))
