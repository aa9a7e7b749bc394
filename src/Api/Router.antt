-- ===== src/Api/Router.antt =====
-- services/api/src/main.rs: the router, with the layer of services/api/src/middleware/auth.rs around the
-- protected routes and the extractors of the handlers' signatures.
pub mod Dispatch
pub mod Layer
pub mod Refusals
pub mod Statements
pub mod Interleaving
pub mod Access
use nyrex.Prelude.{Bool, some, Result, ok, err}
use nyrex.Core.Models.{Note, VaultEntry, RegisterRequest, LoginRequest, RefreshRequest}
use nyrex.Effect.Program.{Program, done, ◌>>=◌}
use nyrex.Api.Libraries.{Libraries}
use nyrex.Api.Response.{AppState, Rejection}
use nyrex.Api.Middleware.{AuthUser, require_auth}
use nyrex.Api.Routes.Auth.{register, login, refresh}
use nyrex.Api.Server.{Answer, rejected, health_check, me, public, synced, attached}
use nyrex.Api.Http.{
  HttpRequest, get, post, Response, answer, Endpoint, Extractors, json, extension, Router, new,
  route, layer, merge,
}

module _ {Unread : Type 0} where
  abbrev pub sent : Program Answer → Program (Response Unread)
  sent m = m >>= λ a. done (answer a)

  -- What `require_auth` returns, as a response.
  abbrev pub let_through : Result (Response Unread) Rejection → Response Unread
  let_through (ok response) = response
  let_through (err e) = answer (rejected e)

module _ {Body Unread : Type 0} where
  -- `from_fn_with_state(state, require_auth)`: the rest of the stack sees the request with the user
  -- among its extensions.
  abbrev pub auth_layer : Libraries → AppState → Endpoint Body Unread → Endpoint Body Unread
  auth_layer L state next req =
      require_auth L state (λ user. next (record req { auth_user = some user })) req.authorization
      >>= λ r. done (let_through r)

module _ {Body Unread : Type 0} (X : Extractors Body Unread) (L : Libraries) (state : AppState)
    (overflow_checks : Bool) where
  abbrev pub health_endpoint : Endpoint Body Unread
  health_endpoint req = sent health_check

  abbrev pub register_endpoint : Endpoint Body Unread
  register_endpoint =
      json X.register_request
        (λ body. sent (public L state overflow_checks (register L state body)))

  abbrev pub login_endpoint : Endpoint Body Unread
  login_endpoint =
      json X.login_request (λ body. sent (public L state overflow_checks (login L state body)))

  abbrev pub refresh_endpoint : Endpoint Body Unread
  refresh_endpoint =
      json X.refresh_request (λ body. sent (public L state overflow_checks (refresh L state body)))

  abbrev pub me_endpoint : Endpoint Body Unread
  me_endpoint = extension (λ auth_user req. sent (me L state overflow_checks auth_user))

  abbrev pub sync_notes_endpoint : Endpoint Body Unread
  sync_notes_endpoint =
      extension
        λ session. json X.notes (λ notes. sent (synced L state overflow_checks notes session))

  abbrev pub upload_vault_entry_endpoint : Endpoint Body Unread
  upload_vault_entry_endpoint =
      extension λ session.
        json X.vault_entry (λ entry. sent (attached L state overflow_checks entry session))

  -- `public_routes`
  abbrev pub public_routes : Router Body Unread
  public_routes =
      route
        (route
          (route (route new "/health" get health_endpoint) "/auth/register" post register_endpoint)
          "/auth/login" post login_endpoint)
        "/auth/refresh" post refresh_endpoint

  -- The routes that the layer is put around.
  abbrev pub behind_layer : Router Body Unread
  behind_layer =
      route (route (route new "/me" get me_endpoint) "/sync/notes" post sync_notes_endpoint)
        "/sync/vault_entries" post upload_vault_entry_endpoint

  -- `protected_routes`
  abbrev pub protected_routes : Router Body Unread
  protected_routes = layer behind_layer (auth_layer L state)

  -- `app`; the state that `with_state` gives the handlers is the parameter `state`.
  abbrev pub app : Router Body Unread
  app = merge (merge new public_routes) protected_routes
