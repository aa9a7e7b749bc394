-- ===== src/Tests/Server.antt =====
-- The server on the small database: single requests and interleaved ones.
use nyrex.Prelude.{
  ℕ, ◌≡◌, refl, true, Option, none, some, String, List, [], ◌∷◌, inl, inr, ◌<>◌, In, ap, arith,
}
use nyrex.Prelude.Int.{pos}
use nyrex.Prelude.Text.{strip_prefix}
use nyrex.Core.Models.{VaultEntry, RefreshToken, Note}
use nyrex.Effect.Host.{run}
use nyrex.Effect.Program.{Program, done, panic}
use nyrex.Effect.Memory.{Memory, memory, memory-IsPostgres, reply}
use nyrex.Effect.Tasks.Schedule.{schedule, schedule-Steps}
use nyrex.Sync.{success}
use nyrex.Api.Response.{ok_200}
use nyrex.Api.Middleware.{require_auth}
use nyrex.Api.Routes.Auth.{access_claims, refresh}
use nyrex.Api.Routes.Sync.{sync_notes, upload_vault_entry}
use nyrex.Api.Server.{
  Call, Answer, post_refresh, post_sync_notes, get_me, serve, identity, session_opened,
}
use nyrex.Api.Server.Served.{Served, serve-Served}
use nyrex.Api.Server.Interleaving.{tasks, IsRevoked, tasks-IsRevoked, IsOwned, tasks-IsOwned}
use nyrex.Tests.Toy.{toy, state, alice, note, token, store, sign, to_string, ones, read_ones}

abbrev entry : VaultEntry
entry = record {
  id = 70;
  note_id = 20;
  user_id = 1;
  file_cipher = 9 ∷ [];
  nonce = 8 ∷ [];
  mime_type = none;
  file_size = pos 1;
  created_at = 3;
}

-- Alice attaches a file to a note of Bob's.
run-upload : (run memory (upload_vault_entry alice entry) store).0 ≡ some (success 70)
unfolding upload_vault_entry reply
run-upload = refl

abbrev header : Option String
header = some ("Bearer " <> sign (access_claims toy 1 500))

run-me : (run memory (serve toy state true header get_me) store).0 ≡ some (identity (to_string 1))
unfolding serve reply require_auth strip_prefix ones read_ones
run-me = refl

serve-Served_example :
    let (answer, s') =
      run memory (serve toy state true header (post_sync_notes (note 10 1 3 ∷ []))) store in
    Served toy state true header store.tables (post_sync_notes (note 10 1 3 ∷ [])) answer s'.tables
serve-Served_example =
    serve-Served memory-IsPostgres toy state true header (post_sync_notes (note 10 1 3 ∷ [])) store

abbrev head_or_panic : List (Program Answer) → Program Answer
head_or_panic [] = panic
head_or_panic (m ∷ tasks) = m

abbrev tail : {A : Type 0} → List (Program A) → List (Program A)
tail [] = []
tail (m ∷ tasks) = tasks

-- Two exchanges of the one token, and a sync.
abbrev calls : List (Option String × Call)
calls =
    (none, post_refresh (record { refresh_token = "11." }))
    ∷ (none, post_refresh (record { refresh_token = "11." }))
    ∷ (header, post_sync_notes (note 10 1 3 ∷ []))
    ∷ []

-- Both lookups are answered before either revocation.
abbrev turns : List ℕ
turns = 0 ∷ 1 ∷ 2 ∷ 0 ∷ 1 ∷ 2 ∷ 0 ∷ 0 ∷ 1 ∷ 1 ∷ 2 ∷ 0 ∷ 0 ∷ 1 ∷ 1 ∷ []

abbrev ended : List (Program Answer) × Memory
ended = schedule memory turns (tasks toy state true calls) store

abbrev OpensSession : Program Answer → Type 0
OpensSession (done (session_opened status response)) = status ≡ ok_200
OpensSession m = ⊥

-- So both open a session with the one token.
run-race : OpensSession (head_or_panic ended.0) × OpensSession (head_or_panic (tail ended.0))
unfolding serve refresh reply require_auth strip_prefix ones read_ones sync_notes
run-race = (refl, refl)

abbrev revoked_store : Memory
revoked_store = record store {
  tables = record store.tables {
    refresh_tokens = record (token 30 1 "11.") { revoked = true } ∷ [];
  };
}

is_revoked : IsRevoked 30 revoked_store.tables
is_revoked = ((_, inl refl, refl), all)
  where
    all :
        (r : RefreshToken) → In r revoked_store.tables.refresh_tokens → r.id ≡ 30 → r.revoked ≡ true
    all r (inl e) same = ap (λ (x : RefreshToken). x.revoked) e
    all r (inr e) same = absurd e

tasks-IsRevoked_example :
    IsRevoked 30 (schedule memory turns (tasks toy state true calls) revoked_store).1.tables
tasks-IsRevoked_example =
    tasks-IsRevoked memory-IsPostgres toy state true calls 30
      (schedule-Steps memory turns (tasks toy state true calls) revoked_store) is_revoked

bobs : IsOwned 20 2 store.tables
bobs = ((note 20 2 8, inr (inl refl), refl), all)
  where
    all : (n : Note) → In n store.tables.notes → n.id ≡ 20 → n.user_id ≡ 2
    all n (inl e) same = absurd (omega (arith, ap (λ (x : Note). x.id) e))
    all n (inr (inl e)) same = ap (λ (x : Note). x.user_id) e
    all n (inr (inr e)) same = absurd e

tasks-IsOwned_example : IsOwned 20 2 ended.1.tables
tasks-IsOwned_example =
    tasks-IsOwned memory-IsPostgres toy state true calls 20 2
      (schedule-Steps memory turns (tasks toy state true calls) store) bobs
