-- ===== src/Api/Router/Refusals.antt =====
-- services/api/src/main.rs: the requests whose body an extractor refuses, on the whole router.
use nyrex.Prelude.{
  ◌≡◌, refl, ap, ◌∙◌, String, Bool, true, false, Option, some, err, ◌⊎◌, inl, inr, In,
}
use nyrex.Effect.Program.{Program, done, utc_now}
use nyrex.Effect.Host.{Host, run, IsPostgres}
use nyrex.Api.Libraries.{Libraries}
use nyrex.Api.Response.{AppState}
use nyrex.Api.Middleware.{AuthUser}
use nyrex.Api.Http.{
  post, HttpRequest, Response, unreadable, Endpoint, Extractors, Router, Route, routes, Matches,
  IsDocumented,
}
use nyrex.Api.Router.{behind_layer, app}
use nyrex.Api.Router.Dispatch.{dispatched}
use nyrex.Api.Router.Layer.{TurnedAway, app-PassesLayer}

-- The types that the handlers extract from a body.
pub data Input : Type 0 where
  register_input login_input refresh_input notes_input vault_entry_input : Input

abbrev pub input_path : Input → String
input_path register_input = "/auth/register"
input_path login_input = "/auth/login"
input_path refresh_input = "/auth/refresh"
input_path notes_input = "/sync/notes"
input_path vault_entry_input = "/sync/vault_entries"

abbrev pub is_behind_layer : Input → Bool
is_behind_layer notes_input = true
is_behind_layer vault_entry_input = true
is_behind_layer _ = false

-- axum refuses to read the body as the input.
abbrev pub Refuses :
    {Body Unread : Type 0} → Extractors Body Unread → Body → Unread → Input → Type 0
Refuses X body u register_input = X.register_request body ≡ err u
Refuses X body u login_input = X.login_request body ≡ err u
Refuses X body u refresh_input = X.refresh_request body ≡ err u
Refuses X body u notes_input = X.notes body ≡ err u
Refuses X body u vault_entry_input = X.vault_entry body ≡ err u

-- The refusal, or a 401 in front of a protected route; the tables stay as they are.
abbrev pub Rebuffed :
    {h : Host} {Unread : Type 0} (p : IsPostgres h)
    → h.State
    → Unread
    → Input
    → Option (Response Unread) × h.State
    → Type 0
Rebuffed p s u i outcome =
    ((is_behind_layer i ≡ true) × TurnedAway p s outcome)
    ⊎ ((outcome.0 ≡ some (unreadable u)) × (p.tables outcome.1 ≡ p.tables s))

module _ {h : Host} (p : IsPostgres h) {Body Unread : Type 0} (X : Extractors Body Unread)
    (L : Libraries) (state : AppState) (checks : Bool)
    {dispatch : Router Body Unread → Endpoint Body Unread} (documented : IsDocumented dispatch)
    (req : HttpRequest Body) (s : h.State) where
  -- A body that a public handler cannot take.
  public-Rebuffed :
      (u : Unread) (i : Input)
      → dispatch (app X L state checks) req ≡ done (unreadable u)
      → Rebuffed p s u i (run h (dispatch (app X L state checks) req) s)
  public-Rebuffed u i e = rw e (inr (refl, refl))

  -- A body that the handler behind the layer cannot take.
  layered-Rebuffed :
      (u : Unread) (i : Input)
      → is_behind_layer i ≡ true
      → (r : Route Body Unread) → In r (routes (behind_layer X L state checks))
      → Matches req r
      → ((user : AuthUser)
          → r.endpoint (record req { auth_user = some user }) ≡ done (unreadable u))
      → Rebuffed p s u i (run h (dispatch (app X L state checks) req) s)
  layered-Rebuffed u i behind r at matches refuses =
      elim (app-PassesLayer p X L state checks documented req s r at matches) [
        | inl away ↦ inl (behind, away)
        | inr (user, (bears, o)) ↦
            let ended =
              o
              ∙ ap (λ (m : Program (Response Unread)). run h m (h.answer utc_now s).1)
                  (refuses user) in
            inr (
              ap (λ (x : Option (Response Unread) × h.State). x.0) ended,
              ap (λ (x : Option (Response Unread) × h.State). p.tables x.1) ended
                  ∙ p.utc_now-tables s,
            )
      ]

  -- Where axum dispatches as it documents, a POST whose body it refuses to read for the route is answered
  -- with that refusal, or with a 401 when the route is behind the layer, which comes first; and nothing
  -- has changed.
  pub app-Rebuffed :
      (u : Unread) (i : Input)
      → Refuses X req.body u i
      → req.path ≡ input_path i
      → req.method ≡ post
      → Rebuffed p s u i (run h (dispatch (app X L state checks) req) s)
  app-Rebuffed u register_input e q m =
      public-Rebuffed u register_input
        (dispatched X L state checks documented req _ (inr (inl refl)) (q, m) ∙ rw e refl)
  app-Rebuffed u login_input e q m =
      public-Rebuffed u login_input
        (dispatched X L state checks documented req _ (inr (inr (inl refl))) (q, m) ∙ rw e refl)
  app-Rebuffed u refresh_input e q m =
      public-Rebuffed u refresh_input (
        dispatched X L state checks documented req _ (inr (inr (inr (inl refl)))) (q, m)
        ∙ rw e refl)
  app-Rebuffed u notes_input e q m =
      layered-Rebuffed u notes_input refl _ (inr (inl refl)) (q, m) (λ user. rw e refl)
  app-Rebuffed u vault_entry_input e q m =
      layered-Rebuffed u vault_entry_input refl _ (inr (inr (inl refl))) (q, m) (λ user. rw e refl)
