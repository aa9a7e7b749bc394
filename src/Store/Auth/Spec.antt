-- ===== src/Store/Auth/Spec.antt =====
-- What the store of accounts and sessions promises, without tables: a registry that maps addresses to
-- users and identifiers to refresh tokens, and what each method of `PgAuthStore`
-- (crates/store/src/pg/auth.rs) may answer and leave in it.
use nyrex.Prelude.{
  ◌≡◌, ◌<◌, ◌==◌, String, false, Option, none, some, Result, ok, err, if◌then◌else◌,
}
use nyrex.Prelude.Text.{str_eq}
use mathlib.Core.Option.{map}
use nyrex.Core.Error.{CoreError}
use nyrex.Core.Models.{Uuid, DateTime, User, RefreshToken}
use nyrex.Effect.Program.{Program, done, ◌>>=◌}
use nyrex.Store.Auth.{
  create_user, get_user_by_email, store_refresh_token, get_valid_refresh_token, revoke,
  revoke_refresh_token, revoke_all_user_tokens,
}

pub record Registry : Type 0 where
  pub account : String → Option User
  pub session : Uuid → Option RefreshToken

pub data Op : Type 0 where
  create : Uuid → String → String → Option String → Op
  find : String → Op
  open_session : RefreshToken → Op
  find_session : String → Op
  close : Uuid → Op
  close_all : Uuid → Op

pub data Reply : Type 0 where
  registered : User → Reply
  account_found : Option User → Reply
  session_found : Option RefreshToken → Reply
  carried_out : Reply

abbrev pub SameAccounts : Registry → Registry → Type 0
SameAccounts g g' = (email : String) → g'.account email ≡ g.account email

abbrev pub SameSessions : Registry → Registry → Type 0
SameSessions g g' = (i : Uuid) → g'.session i ≡ g.session i

abbrev pub Same : Registry → Registry → Type 0
Same g g' = SameAccounts g g' × SameSessions g g'

abbrev pub new_user : Uuid → String → String → Option String → DateTime → User
new_user id email password_hash display_name now = record {
  id = id;
  email = email;
  password_hash = password_hash;
  display_name = display_name;
  sso_provider = none;
  sso_sub = none;
  created_at = now;
  updated_at = now;
}

-- A session with the hash that is open at the time.
abbrev pub IsOpen : Registry → String → DateTime → RefreshToken → Type 0
IsOpen g token_hash now r =
    (g.session r.id ≡ some r)
    × (r.token_hash ≡ token_hash)
    × (r.revoked ≡ false)
    × (now < r.expires_at)

-- One of the open sessions, and none only if there is none.
abbrev pub Finds : Registry → String → DateTime → Option RefreshToken → Type 0
Finds g token_hash now none = (r : RefreshToken) → ¬ (IsOpen g token_hash now r)
Finds g token_hash now (some r) = IsOpen g token_hash now r

abbrev pub closed_of : Uuid → RefreshToken → RefreshToken
closed_of user_id r = if r.user_id == user_id then revoke r else r

-- The answers that a call may have, and the registry after it. An error leaves the registry alone.
pub data Behaves (g g' : Registry) : Op → Result Reply CoreError → Type 0 where
  failed : {op : Op} {e : CoreError} → Same g g' → Behaves g g' op (err e)
  created :
      {id : Uuid} {email password_hash : String} {display_name : Option String} {u : User}
      (now : DateTime)
      → g.account email ≡ none
      → u ≡ new_user id email password_hash display_name now
      → ((e : String) → g'.account e ≡ (if str_eq email e then some u else g.account e))
      → SameSessions g g'
      → Behaves g g' (create id email password_hash display_name) (ok (registered u))
  found :
      {email : String} {r : Option User}
      → r ≡ g.account email
      → Same g g'
      → Behaves g g' (find email) (ok (account_found r))
  opened :
      {token : RefreshToken}
      → g.session token.id ≡ none
      → ((i : Uuid) → g'.session i ≡ (if token.id == i then some token else g.session i))
      → SameAccounts g g'
      → Behaves g g' (open_session token) (ok carried_out)
  checked :
      {token_hash : String} {r : Option RefreshToken} (now : DateTime)
      → Finds g token_hash now r
      → Same g g'
      → Behaves g g' (find_session token_hash) (ok (session_found r))
  ended :
      {token_id : Uuid}
      → ((i : Uuid)
          → g'.session i ≡ (if token_id == i then map revoke (g.session i) else g.session i))
      → SameAccounts g g'
      → Behaves g g' (close token_id) (ok carried_out)
  ended_all :
      {user_id : Uuid}
      → ((i : Uuid) → g'.session i ≡ map (closed_of user_id) (g.session i))
      → SameAccounts g g'
      → Behaves g g' (close_all user_id) (ok carried_out)

abbrev replying : {A : Type 0} → (A → Reply) → Result A CoreError → Result Reply CoreError
replying f (ok a) = ok (f a)
replying f (err e) = err e

-- The methods of `PgAuthStore`.
unfoldable pub perform : Op → Program (Result Reply CoreError)
perform (create id email password_hash display_name) =
    create_user id email password_hash display_name >>= λ r. done (replying registered r)
perform (find email) = get_user_by_email email >>= λ r. done (replying account_found r)
perform (open_session token) =
    store_refresh_token token >>= λ r. done (replying (λ _. carried_out) r)
perform (find_session token_hash) =
    get_valid_refresh_token token_hash >>= λ r. done (replying session_found r)
perform (close token_id) =
    revoke_refresh_token token_id >>= λ r. done (replying (λ _. carried_out) r)
perform (close_all user_id) =
    revoke_all_user_tokens user_id >>= λ r. done (replying (λ _. carried_out) r)
