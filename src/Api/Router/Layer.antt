-- ===== src/Api/Router/Layer.antt =====
-- services/api/src/main.rs: the layer around the protected routes, on the whole router.
use mathlib.Core.Option.{map}
use nyrex.Prelude.{
  ◌≡◌, refl, sym, ap, ◌∙◌, Bool, Option, none, some, Result, ◌⊎◌, inl, inr, In, In-map, subst,
}
use nyrex.Effect.Program.{Program, utc_now}
use nyrex.Effect.Handler.{lifted}
use nyrex.Effect.Host.{Host, run, IsPostgres}
use nyrex.Effect.Logic.{run-mapped}
use nyrex.Api.Libraries.{Libraries}
use nyrex.Api.Response.{AppState, Rejection, unauthorized_401}
use nyrex.Api.Middleware.{AuthUser, require_auth}
use nyrex.Api.Middleware.Guards.{Bears, require_auth-Guarded}
use nyrex.Api.Server.{rejected}
use nyrex.Api.Http.{
  HttpRequest, Response, answer, Endpoint, Extractors, Router, Route, routes, Matches, IsDocumented,
}
use nyrex.Api.Router.{let_through, auth_layer, behind_layer, app}
use nyrex.Api.Router.Dispatch.{dispatched}

let_through-lifted :
    {Unread S : Type 0} (x : Option (Response Unread) × S)
    → (let (o, s) = lifted {E = Rejection} x in (map let_through o, s)) ≡ x
let_through-lifted (some r, s) = refl
let_through-lifted (none, s) = refl

-- The answer is a 401 and nothing has changed.
abbrev pub TurnedAway :
    {h : Host} {Unread : Type 0} (p : IsPostgres h)
    → h.State
    → Option (Response Unread) × h.State
    → Type 0
TurnedAway p s outcome =
    (e : Rejection) × (e.status ≡ unauthorized_401)
    × (outcome.0 ≡ some (answer (rejected e)))
    × (p.tables outcome.1 ≡ p.tables s)

module _ {h : Host} (p : IsPostgres h) (L : Libraries) (state : AppState) {Body Unread : Type 0}
    (endpoint : Endpoint Body Unread) (req : HttpRequest Body) (s : h.State) where
  -- The header bears a token of the user's, and the endpoint runs for that user.
  abbrev pub RunsFor : AuthUser → Option (Response Unread) × h.State → Type 0
  RunsFor user outcome =
      let (now, s') = h.answer utc_now s in
      Bears L state req.authorization now user
      × (outcome ≡ run h (endpoint (record req { auth_user = some user })) s')

  abbrev pub PassesLayer : Option (Response Unread) × h.State → Type 0
  PassesLayer outcome = TurnedAway p s outcome ⊎ ((user : AuthUser) × RunsFor user outcome)

  auth_layer-PassesLayer : PassesLayer (run h (auth_layer L state endpoint req) s)
  auth_layer-PassesLayer =
      let next : AuthUser → Program (Response Unread) =
        λ user. endpoint (record req { auth_user = some user }) in
      let mapped = run-mapped h let_through (require_auth L state next req.authorization) s in
      elim (require_auth-Guarded p L state next req.authorization s) [
        | inl (e, refused, o, same) ↦ inl (
          e,
          refused,
          ap (λ (x : Option (Response Unread) × h.State). x.0) mapped ∙ ap (map let_through) o,
          ap (λ (x : Option (Response Unread) × h.State). p.tables x.1) mapped ∙ same,
        )
        | inr (user, (bears, o)) ↦ inr (
          user,
          (
            bears,
            mapped
                ∙ ap
                    (λ (x : Option (Result (Response Unread) Rejection) × h.State).
                      (map let_through x.0, x.1))
                    o
                ∙ let_through-lifted (run h (next user) (h.answer utc_now s).1),
          ),
        )
      ]

module _ {h : Host} (p : IsPostgres h) {Body Unread : Type 0} (X : Extractors Body Unread)
    (L : Libraries) (state : AppState) (checks : Bool)
    {dispatch : Router Body Unread → Endpoint Body Unread} (documented : IsDocumented dispatch)
    (req : HttpRequest Body) (s : h.State) where
  -- Where axum dispatches as it documents, a request for a route that was added before the layer gets
  -- through to it, on the whole router, only for a user whose token the header bears at the time of the
  -- clock, and then the answer is that of the route; else the answer is a 401, and nothing has changed.
  pub app-PassesLayer :
      (r : Route Body Unread)
      → In r (routes (behind_layer X L state checks))
      → Matches req r
      → PassesLayer p L state r.endpoint req s (run h (dispatch (app X L state checks) req) s)
  app-PassesLayer r at matches =
      let around : Route Body Unread → Route Body Unread =
        λ r. record r { endpoint = auth_layer L state r.endpoint } in
      let sends =
        dispatched X L state checks documented req (around r)
          (inr (inr (inr (inr (In-map around r (routes (behind_layer X L state checks)) at)))))
          matches in
      subst (λ m. PassesLayer p L state r.endpoint req s (run h m s)) (sym sends)
        (auth_layer-PassesLayer p L state r.endpoint req s)
