-- ===== src/Api/Middleware.antt =====
-- services/api/src/middleware/auth.rs: the layer in front of the protected routes.
pub mod Guards
pub mod Bearer
use nyrex.Prelude.{String, Option, ok, ◌<>◌}
use nyrex.Prelude.Text.{strip_prefix}
use nyrex.Core.Models.{Uuid}
use nyrex.Effect.Program.{Program, done}
use nyrex.Effect.Handler.{Handler, ◌>>=◌, mapping_err, awaiting, present}
use nyrex.Api.Libraries.{Libraries}
use nyrex.Api.Response.{AppState, Rejection, reject, unauthorized_401}
use nyrex.Api.Jwt.{decode_token}

pub record AuthUser : Type 0 where
  pub user_id : Uuid

module _ (L : Libraries) (state : AppState) where
  -- The checks of `require_auth`, on the value of the header if there is one and it is text.
  unfoldable pub authenticate : Option String → Handler AuthUser Rejection
  unfolding decode_token
  authenticate header = do
    auth_header ← present header (reject unauthorized_401 "Missing Authorization header")
    token ←
        present (strip_prefix "Bearer " auth_header)
          (reject unauthorized_401 "Invalid Authorization format. Expected: Bearer <token>")
    claims ←
        mapping_err (λ e. reject unauthorized_401 ("Invalid token: " <> e))
          (decode_token L token state.jwt_public_key)
    user_id ←
        present (L.uuid_parse_str claims.sub) (reject unauthorized_401 "Invalid user ID in token")
    done (ok (record { user_id = user_id }))

  -- `next` is the route behind the layer, which finds the user among the request's extensions.
  unfoldable pub require_auth :
      {A : Type 0} → (AuthUser → Program A) → Option String → Handler A Rejection
  unfolding authenticate
  require_auth next header = do auth_user ← authenticate header; awaiting (next auth_user)
