-- ===== src/Api/Server/Bound.antt =====
-- services/api/src/main.rs: how many requests a call makes of the world outside.
use nyrex.Prelude.{
  ℕ, suc, ◌+◌, ◌*◌, length, arith, Bool, true, false, Option, none, some, List, [], ◌∷◌, ok, err,
  inl, inr, ◌==◌, Bool-cases, Result-cases, Option-cases, String,
}
use nyrex.Prelude.Text.{strip_prefix}
use nyrex.Core.Models.{
  Uuid, Note, VaultEntry, User, RefreshToken, RegisterRequest, LoginRequest, RefreshRequest,
}
use nyrex.Effect.Program.{Program, optional, ◌>>=◌, done}
use nyrex.Effect.Handler.{continue}
use nyrex.Effect.Tasks.Bound.{Ends, Ends-mono, Ends-bind}
use nyrex.Sync.{SyncResult, success, conflict, error, reconcile_note}
use nyrex.Api.Libraries.{Libraries, eddsa}
use nyrex.Api.Response.{AppState, StatusCode, ok_200, created_201}
use nyrex.Api.AuthUtils.{verify_password}
use nyrex.Api.Jwt.{encode_token}
use nyrex.Api.Middleware.{AuthUser, require_auth}
use nyrex.Api.Routes.Auth.Pair.{then_answer}
use nyrex.Api.Routes.Auth.{
  access_claims, generate_token_pair, create_account, register, login_as, login, rotate, refresh,
}
use nyrex.Api.Routes.Sync.{
  or_panic, found_or_none, push_result, sync_note, sync_notes, upload_vault_entry,
}
use nyrex.Api.Server.{
  Call, get_health, post_register, post_login, post_refresh, get_me, post_sync_notes,
  post_sync_vault_entries, Answer, answered, guarded, notes_synced, vault_entry_synced, serve, me,
  synced, attached,
}

-- The most requests of a call.
abbrev pub cost : Call → ℕ
cost get_health = 0
cost (post_register _) = 8
cost (post_login _) = 5
cost (post_refresh _) = 6
cost get_me = 1
cost (post_sync_notes client_notes) = 1 + 2 * length client_notes
cost (post_sync_vault_entries _) = 2

module _ (L : Libraries) (state : AppState) where
  generate_token_pair-Ends : (user_id : Uuid) → Ends 4 (generate_token_pair L state user_id)
  unfolding generate_token_pair
  generate_token_pair-Ends user_id = λ now.
      elim (Result-cases (encode_token L (access_claims L user_id now) state.jwt_private_key)) [
        | inr (m, e) ↦ rw e tt
        | inl (access_token, e) ↦ rw e λ raw id. (elim [ ok rows ↦ tt | err m ↦ tt ])
      ]

  -- A handler that ends with a new pair of tokens.
  pair_then-Ends :
      (user_id : Uuid) (status : StatusCode)
      → Ends 4 (generate_token_pair L state user_id >>= continue (then_answer L state status))
  pair_then-Ends user_id status =
      Ends-bind 4 0 (generate_token_pair L state user_id) (continue (then_answer L state status))
        (generate_token_pair-Ends user_id) (elim [ ok response ↦ tt | err e ↦ tt ])

  rotate-Ends : (token : RefreshToken) → Ends 5 (rotate L state token)
  unfolding rotate
  rotate-Ends token = elim [ ok rows ↦ pair_then-Ends token.user_id ok_200 | err m ↦ tt ]

  refresh-Ends : (body : RefreshRequest) → Ends 6 (refresh L state body)
  unfolding refresh
  refresh-Ends body = elim [ ok [] ↦ tt | ok (token ∷ tokens) ↦ rotate-Ends token | err m ↦ tt ]

  login_as-Ends : (body : LoginRequest) (user : User) → Ends 4 (login_as L state body user)
  unfolding login_as
  login_as-Ends body user =
      elim (Result-cases (verify_password L body.password user.password_hash)) [
        | inr (m, e) ↦ rw e tt
        | inl (true, e) ↦ rw e (pair_then-Ends user.id ok_200)
        | inl (false, e) ↦ rw e tt
      ]

  login-Ends : (body : LoginRequest) → Ends 5 (login L state body)
  unfolding login
  login-Ends body = elim [ ok [] ↦ tt | ok (user ∷ users) ↦ login_as-Ends body user | err m ↦ tt ]

  create_account-Ends : (body : RegisterRequest) → Ends 7 (create_account L state body)
  unfolding create_account
  create_account-Ends body = λ salt.
      elim (Result-cases (L.argon2_hash_password body.password salt)) [
        | inr (m, e) ↦ rw e tt
        | inl (hash, e) ↦ rw e λ id. (elim [
          | ok [] ↦ tt
          | ok (user ∷ users) ↦ pair_then-Ends user.id created_201
          | err m ↦ tt
        ])
      ]

  register-Ends : (body : RegisterRequest) → Ends 8 (register L state body)
  unfolding register
  register-Ends body = elim [
    | ok [] ↦ create_account-Ends body
    | ok (user ∷ users) ↦ tt
    | err m ↦ create_account-Ends body
  ]

module _ (checks : Bool) (session : AuthUser) where
  push_result-Ends : (r : Option (SyncResult Note)) → Ends 1 (or_panic r >>= push_result)
  unfolding push_result
  push_result-Ends none = tt
  push_result-Ends (some (success u)) = λ r. tt
  push_result-Ends (some (conflict v)) = tt
  push_result-Ends (some (error m)) = tt

  sync_note-Ends : (note : Note) → Ends 2 (sync_note checks session note)
  unfolding sync_note
  sync_note-Ends note = elim (Bool-cases (note.user_id == session.user_id)) [
    | inr other ↦ rw (other, sync_note, Ends) tt
    | inl mine ↦
        rw (mine, sync_note, Ends)
          λ r. push_result-Ends (reconcile_note checks note (found_or_none (optional r)))
  ]

  sync_notes-Ends : (batch : List Note) → Ends (2 * length batch) (sync_notes checks session batch)
  unfolding sync_notes
  sync_notes-Ends [] = tt
  sync_notes-Ends (note ∷ batch) =
      Ends-mono (2 + (2 * length batch + 0)) (2 * suc (length batch)) _ (omega arith) (
        Ends-bind 2 (2 * length batch + 0) (sync_note checks session note) _ (sync_note-Ends note)
          λ result.
            Ends-bind (2 * length batch) 0 (sync_notes checks session batch) _
              (sync_notes-Ends batch) (λ results. tt))

  upload_vault_entry-Ends : (entry : VaultEntry) → Ends 1 (upload_vault_entry session entry)
  unfolding upload_vault_entry
  upload_vault_entry-Ends entry = elim (Bool-cases (entry.user_id == session.user_id)) [
    | inr other ↦ rw (other, upload_vault_entry, Ends) tt
    | inl mine ↦ rw (mine, upload_vault_entry, Ends) λ r. tt
  ]

module _ (L : Libraries) (state : AppState) (header : Option String) {A : Type 0}
    (next : AuthUser → Program A) (n : ℕ) (w : (user : AuthUser) → Ends n (next user)) where
  require_auth-Ends : Ends (suc n) (require_auth L state next header)
  unfolding require_auth
  require_auth-Ends = elim (Option-cases header) [
    | inl e ↦ rw (e, require_auth, Ends) tt
    | inr (value, e) ↦ elim (Option-cases (strip_prefix "Bearer " value)) [
      | inl bad ↦ rw (e, require_auth, Ends) (rw (bad, Ends) tt)
      | inr (token, stripped) ↦
          rw (e, require_auth, Ends)
            (rw (stripped, Ends)
              λ now. elim (Result-cases (L.jwt_decode now token state.jwt_public_key eddsa)) [
                | inr (m, f) ↦ rw (f, Ends) tt
                | inl (claims, f) ↦ elim (Option-cases (L.uuid_parse_str claims.sub)) [
                  | inl bad ↦ rw (f, Ends) (rw (bad, Ends) tt)
                  | inr (id, good) ↦
                      rw (f, Ends)
                        (rw (good, Ends)
                          (Ends-mono (n + 0) n _ (omega arith) (
                            Ends-bind n 0 (next (record { user_id = id })) _
                              (w (record { user_id = id })) (λ a. tt))))
                ]
              ])
    ]
  ]

-- A handler whose result is put into an answer.
then_done :
    {A : Type 0} (n : ℕ) (m : Program A) (f : A → Answer)
    → Ends n m
    → Ends n (m >>= λ a. done (f a))
then_done n m f e =
    Ends-mono (n + 0) n _ (omega arith) (Ends-bind n 0 m (λ a. done (f a)) e (λ a. tt))

-- A call makes a bounded number of requests of the database, the clock and the generators, whatever
-- they reply: at most eight, and for a batch of notes one and two for each note; then it has been
-- answered, or has panicked.
pub serve-Ends :
    (L : Libraries) (state : AppState) (checks : Bool) (header : Option String) (call : Call)
    → Ends (cost call) (serve L state checks header call)
unfolding serve
serve-Ends L state checks header get_health = tt
serve-Ends L state checks header (post_register body) =
    then_done 8 (register L state body) answered (register-Ends L state body)
serve-Ends L state checks header (post_login body) =
    then_done 5 (login L state body) answered (login-Ends L state body)
serve-Ends L state checks header (post_refresh body) =
    then_done 6 (refresh L state body) answered (refresh-Ends L state body)
serve-Ends L state checks header get_me =
    then_done 1 (require_auth L state (me L state checks) header) guarded
      (require_auth-Ends L state header (me L state checks) 0 (λ user. tt))
serve-Ends L state checks header (post_sync_notes client_notes) =
    let n = 2 * length client_notes in
    Ends-mono (suc n) (1 + n) _ (omega arith) (
      then_done (suc n) (require_auth L state (synced L state checks client_notes) header) guarded (
        require_auth-Ends L state header (synced L state checks client_notes) n λ user.
          then_done n (sync_notes checks user client_notes) notes_synced
            (sync_notes-Ends checks user client_notes)))
serve-Ends L state checks header (post_sync_vault_entries entry) =
    then_done 2 (require_auth L state (attached L state checks entry) header) guarded (
      require_auth-Ends L state header (attached L state checks entry) 1 λ user.
        then_done 1 (upload_vault_entry user entry) vault_entry_synced
          (upload_vault_entry-Ends checks user entry))
