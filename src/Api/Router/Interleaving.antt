-- ===== src/Api/Router/Interleaving.antt =====
-- services/api/src/main.rs: raw requests to the whole router, whose awaits interleave in any order.
use nyrex.Prelude.{sym, subst, Bool, none, some, List, [], ◌∷◌, map, inl, inr, In, All}
use nyrex.Effect.Program.{Program}
use nyrex.Effect.Host.{Host, IsPostgres}
use nyrex.Effect.Only.{Only-bind, Only-mono}
use nyrex.Effect.Permits.{Permits, Permitted}
use nyrex.Effect.Tasks.{Steps}
use nyrex.Effect.Evolution.{Evolves}
use nyrex.Effect.Evolution.Statements.{Steps-Evolves}
use nyrex.Api.Libraries.{Libraries}
use nyrex.Api.Response.{AppState}
use nyrex.Api.Middleware.{AuthUser, require_auth}
use nyrex.Api.Server.{synced, attached}
use nyrex.Api.Server.Requests.{
  serve-Permits, require_auth-Only, synced-Only, attached-Only, Makes-Permitted,
}
use nyrex.Api.Http.{
  HttpRequest, Response, Endpoint, Extractors, Router, Route, routes, IsDocumented,
}
use nyrex.Api.Router.{sent, auth_layer, behind_layer, app}
use nyrex.Api.Router.Statements.{sent-Only, extracted-Only, endpoint-Only, IsRouted, requests-Only}

module _ {Body Unread : Type 0} (X : Extractors Body Unread) (L : Libraries) (state : AppState)
    (checks : Bool) where
  -- What the routes behind the layer make for a user.
  behind-Permits :
      (req : HttpRequest Body) (user : AuthUser) (r : Route Body Unread)
      → In r (routes (behind_layer X L state checks))
      → Permits (r.endpoint (record req { auth_user = some user }))
  behind-Permits req user r (inl e) =
      subst (λ (x : Route Body Unread). Permits (x.endpoint (record req { auth_user = some user })))
        (sym e) tt
  behind-Permits req user r (inr (inl e)) =
      subst (λ (x : Route Body Unread). Permits (x.endpoint (record req { auth_user = some user })))
        (sym e)
        (extracted-Only Permitted (λ notes. sent (synced L state checks notes user))
          (λ notes. sent-Only Permitted Unread (synced L state checks notes user) (
            Only-mono _ Permitted Makes-Permitted (synced L state checks notes user)
              (synced-Only L state checks notes user)))
          (X.notes req.body))
  behind-Permits req user r (inr (inr (inl e))) =
      subst (λ (x : Route Body Unread). Permits (x.endpoint (record req { auth_user = some user })))
        (sym e)
        (extracted-Only Permitted (λ entry. sent (attached L state checks entry user))
          (λ entry. sent-Only Permitted Unread (attached L state checks entry user) (
            Only-mono _ Permitted Makes-Permitted (attached L state checks entry user)
              (attached-Only L state checks entry user)))
          (X.vault_entry req.body))
  behind-Permits req user r (inr (inr (inr m))) = absurd m

  layered-Permits :
      (req : HttpRequest Body) (r : Route Body Unread)
      → In r (routes (behind_layer X L state checks))
      → Permits (auth_layer L state r.endpoint req)
  layered-Permits req r at =
      let next : AuthUser → Program (Response Unread) =
        λ user. r.endpoint (record req { auth_user = some user }) in
      Only-bind Permitted (require_auth L state next req.authorization) _
        (require_auth-Only Permitted L state req.authorization next
          (λ now user bears. behind-Permits req user r at))
        (λ r. tt)

  any_request : (requests : List (HttpRequest Body)) → All (λ req. Unit {0}) requests
  any_request [] = tt
  any_request (req ∷ requests) = (tt, any_request requests)

  requests-Permits :
      {dispatch : Router Body Unread → Endpoint Body Unread}
      → IsDocumented dispatch
      → (requests : List (HttpRequest Body)) → All (IsRouted X L state checks) requests
      → All Permits (map (dispatch (app X L state checks)) requests)
  requests-Permits documented requests routed =
      requests-Only X L state checks Permitted (λ req. Unit {0})
        (λ req fit.
          endpoint-Only Permitted X L state checks
            (λ call closed. serve-Permits L state checks none call) req (layered-Permits req))
        documented requests routed (any_request requests)

  module _ {dispatch : Router Body Unread → Endpoint Body Unread}
      (documented : IsDocumented dispatch) {h : Host} (p : IsPostgres h)
      (requests : List (HttpRequest Body)) (routed : All (IsRouted X L state checks) requests)
      {later : List (Program (Response Unread))} {s s' : h.State}
      (steps : Steps h (map (dispatch (app X L state checks)) requests) s later s') where
    -- However raw requests for the routes interleave, whatever their headers and bodies are, and
    -- wherever they have got to, where axum dispatches as it documents: users and attachments that
    -- are stored stay as they are; a stored refresh token stays, as it is or revoked; a stored note
    -- stays, with its owner and its time of creation; and a row that was neither there nor changed
    -- from one that was has an identifier that was free.
    pub requests-Evolves : Evolves (p.tables s) (p.tables s')
    requests-Evolves = Steps-Evolves p steps (requests-Permits documented requests routed)
