-- ===== src/Api/Middleware/Bearer.antt =====
-- services/api/src/middleware/auth.rs: the layer in front of a route, on the tables alone.
use nyrex.Prelude.{
  ◌≡◌, refl, String, Option, none, some, inl, inr, Result, ok, err, Result-cases, Option-cases,
}
use nyrex.Prelude.Text.{strip_prefix}
use nyrex.Core.Models.{DateTime}
use nyrex.Effect.Table.{Tables}
use nyrex.Effect.Program.{Program}
use nyrex.Effect.Handler.{awaiting}
use nyrex.Effect.Logic.{Ensures, Ensures-bind, Ensures-mono, Next}
use nyrex.Api.Libraries.{Libraries, eddsa}
use nyrex.Api.Response.{AppState, Rejection, unauthorized_401}
use nyrex.Api.Middleware.{AuthUser, require_auth}
use nyrex.Api.Middleware.Guards.{Bears}

module _ (L : Libraries) (state : AppState) (header : Option String) where
  -- At some time of the clock, the header bore a token of the user's.
  abbrev pub IsBearer : AuthUser → Type 0
  IsBearer user = (now : DateTime) × Bears L state header now user

  module _ {A : Type 0} (Q : AuthUser → Option A → Tables → Type 0) where
    -- The layer's answer: a 401 that has changed nothing, or what the route ensures for a bearer.
    abbrev pub Admitted : Tables → Option (Result A Rejection) → Tables → Type 0
    Admitted d none d' = (user : AuthUser) × IsBearer user × Q user none d'
    Admitted d (some (ok a)) d' = (user : AuthUser) × IsBearer user × Q user (some a) d'
    Admitted d (some (err e)) d' = (e.status ≡ unauthorized_401) × (d' ≡ d)

    module _ (next : AuthUser → Program A) (d : Tables) where
      awaited :
          (user : AuthUser)
          → IsBearer user
          → Ensures (next user) (Q user) d
          → Ensures (awaiting (next user)) (Admitted d) d
      awaited user bears w =
          Ensures-bind _ (Admitted d) (next user) d (Ensures-mono passed (next user) d w)
        where
          passed :
              (r : Option A) (d' : Tables)
              → Q user r d'
              → Next (λ a. Program.done (ok a)) (Admitted d) r d'
          passed none d' q = (user, bears, q)
          passed (some a) d' q = (user, bears, q)

-- A route's promise, behind the layer.
pub require_auth-Ensures :
    (L : Libraries) (state : AppState) (header : Option String) {A : Type 0}
    (Q : AuthUser → Option A → Tables → Type 0) (next : AuthUser → Program A) (d : Tables)
    → ((user : AuthUser) → Ensures (next user) (Q user) d)
    → Ensures (require_auth L state next header) (Admitted L state header Q d) d
unfolding require_auth
require_auth-Ensures L state none Q next d w = (refl, refl)
require_auth-Ensures L state (some value) Q next d w =
    elim (Option-cases (strip_prefix "Bearer " value)) [
      | inl bad ↦ rw (bad, require_auth, Ensures) (refl, refl)
      | inr (token, stripped) ↦
          rw (stripped, require_auth, Ensures)
            λ now. elim (Result-cases (L.jwt_decode now token state.jwt_public_key eddsa)) [
              | inr (m, e) ↦ rw (e, Ensures) (refl, refl)
              | inl (claims, e) ↦ elim (Option-cases (L.uuid_parse_str claims.sub)) [
                | inl bad ↦ rw (e, Ensures) (rw (bad, Ensures) (refl, refl))
                | inr (id, good) ↦
                    rw (e, Ensures)
                      (rw (good, Ensures)
                        (awaited L state (some value) Q next d (record { user_id = id })
                          (now, (value, token, claims, refl, stripped, e, good))
                          (w (record { user_id = id }))))
              ]
            ]
    ]
