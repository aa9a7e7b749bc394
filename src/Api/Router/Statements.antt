-- ===== src/Api/Router/Statements.antt =====
-- services/api/src/main.rs: the statements that the endpoints of the router make, whatever the bodies are.
use nyrex.Prelude.{
  ◌≡◌, refl, sym, subst, Bool, false, none, List, [], ◌∷◌, map, Result, ok, err, inl, inr, In, All,
}
use nyrex.Effect.Table.{Table}
use nyrex.Effect.Statement.{Statement}
use nyrex.Effect.Program.{Program}
use nyrex.Effect.Only.{Only, Only-bind}
use nyrex.Api.Libraries.{Libraries}
use nyrex.Api.Response.{AppState}
use nyrex.Api.Server.{Answer, Call, post_register, post_login, post_refresh, is_protected, serve}
use nyrex.Api.Http.{
  HttpRequest, Response, Endpoint, Extractors, extracted, json, Router, Route, routes, Matches,
  IsDocumented,
}
use nyrex.Api.Router.{sent, auth_layer, behind_layer, app}
use nyrex.Api.Router.Dispatch.{dispatched}

module _ (P : (t : Table) → Statement t → Type 0) where
  pub sent-Only :
      (Unread : Type 0) (m : Program Answer) → Only P m → Only P (sent {Unread = Unread} m)
  sent-Only Unread m w = Only-bind P m _ w (λ a. tt)

  pub extracted-Only :
      {A Unread : Type 0} (handler : A → Program (Response Unread))
      → ((a : A) → Only P (handler a))
      → (r : Result A Unread) → Only P (extracted handler r)
  extracted-Only handler w (ok a) = w a
  extracted-Only handler w (err e) = tt

module _ (P : (t : Table) → Statement t → Type 0) {Body Unread : Type 0}
    (X : Extractors Body Unread) (L : Libraries) (state : AppState) (checks : Bool)
    (public : (call : Call) → is_protected call ≡ false → Only P (serve L state checks none call))
    (req : HttpRequest Body)
    (layered : (r : Route Body Unread)
      → In r (routes (behind_layer X L state checks))
      → Only P (auth_layer L state r.endpoint req)) where
  read-Only :
      {A : Type 0} (read : Body → Result A Unread) (call : A → Call)
      → ((a : A) → is_protected (call a) ≡ false)
      → Only P (json read (λ body. sent (serve L state checks none (call body))) req)
  read-Only read call closed =
      extracted-Only P (λ body. sent (serve L state checks none (call body)))
        (λ body.
          sent-Only P Unread (serve L state checks none (call body))
            (public (call body) (closed body)))
        (read req.body)

  -- What the public handlers and the layer around the others make is all that the router makes.
  pub endpoint-Only :
      (r : Route Body Unread) → In r (routes (app X L state checks)) → Only P (r.endpoint req)
  unfolding serve
  endpoint-Only r (inl e) = subst (λ (x : Route Body Unread). Only P (x.endpoint req)) (sym e) tt
  endpoint-Only r (inr (inl e)) =
      subst (λ (x : Route Body Unread). Only P (x.endpoint req)) (sym e)
        (read-Only X.register_request post_register (λ a. refl))
  endpoint-Only r (inr (inr (inl e))) =
      subst (λ (x : Route Body Unread). Only P (x.endpoint req)) (sym e)
        (read-Only X.login_request post_login (λ a. refl))
  endpoint-Only r (inr (inr (inr (inl e)))) =
      subst (λ (x : Route Body Unread). Only P (x.endpoint req)) (sym e)
        (read-Only X.refresh_request post_refresh (λ a. refl))
  endpoint-Only r (inr (inr (inr (inr (inl e))))) =
      subst (λ (x : Route Body Unread). Only P (x.endpoint req)) (sym e) (layered _ (inl refl))
  endpoint-Only r (inr (inr (inr (inr (inr (inl e)))))) =
      subst (λ (x : Route Body Unread). Only P (x.endpoint req)) (sym e)
        (layered _ (inr (inl refl)))
  endpoint-Only r (inr (inr (inr (inr (inr (inr (inl e))))))) =
      subst (λ (x : Route Body Unread). Only P (x.endpoint req)) (sym e)
        (layered _ (inr (inr (inl refl))))
  endpoint-Only r (inr (inr (inr (inr (inr (inr (inr m))))))) = absurd m

module _ {Body Unread : Type 0} (X : Extractors Body Unread) (L : Libraries) (state : AppState)
    (checks : Bool) where
  -- The request is for one of the routes.
  abbrev pub IsRouted : HttpRequest Body → Type 0
  IsRouted req = (r : Route Body Unread) × In r (routes (app X L state checks)) × Matches req r

  pub requests-Only :
      (P : (t : Table) → Statement t → Type 0) (Fits : HttpRequest Body → Type 0)
      → ((req : HttpRequest Body)
          → Fits req
          → (r : Route Body Unread) → In r (routes (app X L state checks))
          → Only P (r.endpoint req))
      → {dispatch : Router Body Unread → Endpoint Body Unread} → IsDocumented dispatch
      → (requests : List (HttpRequest Body)) → All IsRouted requests
      → All Fits requests
      → All (Only P) (map (dispatch (app X L state checks)) requests)
  requests-Only P Fits w documented [] routed fits = tt
  requests-Only P Fits w documented (req ∷ requests) ((r, at, matches), routed) (fit, fits) = (
    subst (Only P) (sym (dispatched X L state checks documented req r at matches)) (w req fit r at),
    requests-Only P Fits w documented requests routed fits,
  )
