-- ===== src/Api/Router/Dispatch.antt =====
-- services/api/src/main.rs: the router and its layer, against the handlers of Api.Server.
use mathlib.Core.Path.{fun_ext}
use nyrex.Prelude.{◌≡◌, refl, ap, ◌∙◌, Bool, true, some, Result, ok, err, inl, inr, In}
use nyrex.Effect.Program.{Program, done, panic, ask, ◌>>=◌}
use nyrex.Effect.Handler
use nyrex.Effect.Handler.{Handler, awaiting}
use nyrex.Api.Libraries.{Libraries}
use nyrex.Api.Response.{AppState, Rejection}
use nyrex.Api.Middleware.{AuthUser, authenticate, require_auth}
use nyrex.Api.Server.{
  Call, get_health, post_register, post_login, post_refresh, get_me, post_sync_notes,
  post_sync_vault_entries, path, Answer, guarded, protected, serve,
}
use nyrex.Api.Http.{
  Method, get, post, HttpRequest, Response, Endpoint, Extractors, Router, Route, routes, are_apart,
  Matches, IsDocumented,
}
use nyrex.Api.Router.{
  sent, let_through, auth_layer, me_endpoint, sync_notes_endpoint, upload_vault_entry_endpoint, app,
}

-- The method of a call's route.
abbrev pub method : Call → Method
method get_health = get
method (post_register _) = post
method (post_login _) = post
method (post_refresh _) = post
method get_me = get
method (post_sync_notes _) = post
method (post_sync_vault_entries _) = post

-- The routes of the server are seven different ones.
are_apart-app :
    {Body Unread : Type 0} (X : Extractors Body Unread) (L : Libraries) (state : AppState)
    (checks : Bool)
    → are_apart (routes (app X L state checks)) ≡ true
are_apart-app X L state checks = refl

abbrev as_answer : Program (Result Answer Rejection) → Program Answer
as_answer m = m >>= λ r. done (guarded r)

module _ {Unread : Type 0} where
  abbrev as_response : Program (Result (Response Unread) Rejection) → Program (Response Unread)
  as_response m = m >>= λ r. done (let_through r)

  awaiting-sent :
      (m : Program Answer) → as_response (awaiting (sent m)) ≡ sent (as_answer (awaiting m))
  awaiting-sent (done a) = refl
  awaiting-sent panic = refl
  awaiting-sent (ask q k) = ap (ask q) (fun_ext λ r. awaiting-sent (k r))

  continue-sent :
      (m : Handler AuthUser Rejection) (next : AuthUser → Program Answer)
      → as_response (Handler.◌>>=◌ m (λ user. awaiting (sent (next user))))
        ≡ sent (as_answer (Handler.◌>>=◌ m (λ user. awaiting (next user))))
  continue-sent (done (ok user)) next = awaiting-sent (next user)
  continue-sent (done (err e)) next = refl
  continue-sent panic next = refl
  continue-sent (ask q k) next = ap (ask q) (fun_ext λ r. continue-sent (k r) next)

  -- The layer around a handler that answers.
  auth_layer-sent :
      {Body : Type 0} (L : Libraries) (state : AppState) (checks : Bool)
      (endpoint : Endpoint Body Unread) (next : AuthUser → Program Answer) (req : HttpRequest Body)
      → ((user : AuthUser) → endpoint (record req { auth_user = some user }) ≡ sent (next user))
      → auth_layer L state endpoint req ≡ sent (protected L state checks req.authorization next)
  unfolding require_auth
  auth_layer-sent L state checks endpoint next req same =
      ap
        (λ (f : AuthUser → Program (Response Unread)).
          as_response (require_auth L state f req.authorization))
        (fun_ext same)
      ∙ continue-sent (authenticate L state req.authorization) next

module _ {Body Unread : Type 0} (X : Extractors Body Unread) (req : HttpRequest Body) where
  -- The body holds what the handler of the call takes.
  abbrev Holds : Call → Type 0
  Holds get_health = Unit {0}
  Holds (post_register body) = X.register_request req.body ≡ ok body
  Holds (post_login body) = X.login_request req.body ≡ ok body
  Holds (post_refresh body) = X.refresh_request req.body ≡ ok body
  Holds get_me = Unit {0}
  Holds (post_sync_notes notes) = X.notes req.body ≡ ok notes
  Holds (post_sync_vault_entries entry) = X.vault_entry req.body ≡ ok entry

  -- The request is that of the call.
  abbrev pub Carries : Call → Type 0
  Carries call = (req.path ≡ path call) × (req.method ≡ method call) × Holds call

module _ {Body Unread : Type 0} (X : Extractors Body Unread) (L : Libraries) (state : AppState)
    (checks : Bool) {dispatch : Router Body Unread → Endpoint Body Unread}
    (documented : IsDocumented dispatch) (req : HttpRequest Body) where
  pub dispatched :
      (r : Route Body Unread)
      → In r (routes (app X L state checks))
      → Matches req r
      → dispatch (app X L state checks) req ≡ r.endpoint req
  dispatched r at matches =
      documented (app X L state checks) (are_apart-app X L state checks) r at req matches

  -- Where axum dispatches as it documents, a request for one of the routes, with a body of the handler's
  -- type, is answered by the program that `serve` gives for the value of its header and for the body; so
  -- no handler behind the layer misses the user that it extracts.
  pub app-serve :
      (call : Call)
      → Carries X req call
      → dispatch (app X L state checks) req ≡ sent (serve L state checks req.authorization call)
  unfolding serve
  app-serve get_health (p, m, held) = dispatched _ (inl refl) (p, m)
  app-serve (post_register body) (p, m, held) = dispatched _ (inr (inl refl)) (p, m) ∙ rw held refl
  app-serve (post_login body) (p, m, held) =
      dispatched _ (inr (inr (inl refl))) (p, m) ∙ rw held refl
  app-serve (post_refresh body) (p, m, held) =
      dispatched _ (inr (inr (inr (inl refl)))) (p, m) ∙ rw held refl
  app-serve get_me (p, m, held) =
      dispatched _ (inr (inr (inr (inr (inl refl))))) (p, m)
      ∙ auth_layer-sent L state checks (me_endpoint X L state checks) _ req (λ user. refl)
  app-serve (post_sync_notes notes) (p, m, held) =
      dispatched _ (inr (inr (inr (inr (inr (inl refl)))))) (p, m)
      ∙ auth_layer-sent L state checks (sync_notes_endpoint X L state checks) _ req
          (λ user. rw held refl)
  app-serve (post_sync_vault_entries entry) (p, m, held) =
      dispatched _ (inr (inr (inr (inr (inr (inr (inl refl))))))) (p, m)
      ∙ auth_layer-sent L state checks (upload_vault_entry_endpoint X L state checks) _ req
          (λ user. rw held refl)
