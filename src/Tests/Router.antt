-- ===== src/Tests/Router.antt =====
-- The router of the server, where the first route of a request's path and method answers it.
use nyrex.Prelude.{
  ◌≡◌, refl, sym, ◌∙◌, String, ◌<>◌, Bool, true, false, ◌&&◌, not, any, Option, none, some, List,
  [], ◌∷◌, ok, err, In, inl, inr, any-In, Bool-cases, if◌then◌else◌,
}
use nyrex.Prelude.Text.{str_eq, str_eq_refl, str_eq_iff, strip_prefix}
use nyrex.Core.Models.{Note}
use nyrex.Effect.Program.{done}
use nyrex.Effect.Host.{run}
use nyrex.Effect.Memory.{memory, memory-IsPostgres, reply}
use nyrex.Api.Response.{reject, unauthorized_401}
use nyrex.Api.Middleware.{require_auth}
use nyrex.Api.Routes.Auth.{access_claims}
use nyrex.Api.Server.{post_sync_notes, rejected, serve}
use nyrex.Api.Http.{
  Method, get, post, other, method_eq, HttpRequest, answer, missing_extension, unreadable, Endpoint,
  Extractors, Router, Route, routes, same_place, are_apart, Matches, IsDocumented,
}
use nyrex.Api.Router.{sent, app, upload_vault_entry_endpoint}
use nyrex.Api.Router.Dispatch.{app-serve}
use nyrex.Api.Router.Layer.{PassesLayer, app-PassesLayer}
use nyrex.Api.Router.Refusals.{Rebuffed, notes_input, app-Rebuffed}
use nyrex.Tests.Toy.{toy, state, note, store, sign, ones, read_ones}

method_eq_refl : (m : Method) → method_eq m m ≡ true
method_eq_refl get = refl
method_eq_refl post = refl
method_eq_refl other = refl

method_eq-≡ : (m n : Method) → method_eq m n ≡ true → m ≡ n
method_eq-≡ get get e = refl
method_eq-≡ post post e = refl
method_eq-≡ other other e = refl
method_eq-≡ get post e = cc
method_eq-≡ get other e = cc
method_eq-≡ post get e = cc
method_eq-≡ post other e = cc
method_eq-≡ other get e = cc
method_eq-≡ other post e = cc

and_true : (a b : Bool) → (a && b) ≡ true → (a ≡ true) × (b ≡ true)
and_true true true e = (refl, refl)
and_true true false e = cc
and_true false b e = cc

module _ {Body Unread : Type 0} where
  abbrev pub goes_to : HttpRequest Body → Route Body Unread → Bool
  goes_to req r = str_eq req.path r.path && method_eq req.method r.method

  abbrev pub first : List (Route Body Unread) → Endpoint Body Unread
  first [] req = done missing_extension
  first (r ∷ rs) req = if goes_to req r then r.endpoint req else first rs req

  -- Two routes that a request matches are at the same place.
  goes_to-same_place :
      (req : HttpRequest Body) (r a : Route Body Unread)
      → Matches req r
      → goes_to req a ≡ true
      → same_place a r ≡ true
  goes_to-same_place req r a (p, m) e =
      let (q, n) = and_true (str_eq req.path a.path) (method_eq req.method a.method) e in
      let same_path = (str_eq_iff a.path r.path).1 (sym ((str_eq_iff req.path a.path).0 q) ∙ p) in
      let same_method = sym (method_eq-≡ req.method a.method n) ∙ m in
      rw same_path (rw same_method (method_eq_refl r.method))

  first-Matches :
      (rs : List (Route Body Unread))
      → are_apart rs ≡ true
      → (r : Route Body Unread) → In r rs
      → (req : HttpRequest Body) → Matches req r
      → first rs req ≡ r.endpoint req
  first-Matches [] apart r at req matches = absurd at
  first-Matches (a ∷ rs) apart r (inl e) req (p, m) =
      let goes : goes_to req a ≡ true =
        rw (p, m) (rw e (rw (str_eq_refl a.path) (method_eq_refl a.method))) in
      rw goes (rw e refl)
  first-Matches (a ∷ rs) apart r (inr at) req matches =
      let (alone, rest) = and_true (not (any (same_place a) rs)) (are_apart rs) apart in
      elim (Bool-cases (goes_to req a)) [
        | inr misses ↦ rw misses (first-Matches rs rest r at req matches)
        | inl goes ↦
            let taken = any-In (same_place a) r rs at (goes_to-same_place req r a matches goes) in
            absurd cc
      ]

-- A body that is nothing or a list of notes.
abbrev pub X : Extractors (Option (List Note)) String
X = record {
  register_request = λ body. err "no request";
  login_request = λ body. err "no request";
  refresh_request = λ body. err "no request";
  notes = λ body. elim body [ none ↦ err "no notes" | some notes ↦ ok notes ];
  vault_entry = λ body. err "no entry";
}

abbrev pub dispatch : Router (Option (List Note)) String → Endpoint (Option (List Note)) String
dispatch router = first (routes router)

pub dispatch-IsDocumented : IsDocumented dispatch
dispatch-IsDocumented router apart r at req matches =
    first-Matches (routes router) apart r at req matches

abbrev pub notes : List Note
notes = note 10 1 3 ∷ []

abbrev pub header : Option String
header = some ("Bearer " <> sign (access_claims toy 1 500))

abbrev pub push : Option (List Note) → HttpRequest (Option (List Note))
push body = record {
  path = "/sync/notes";
  method = post;
  authorization = header;
  auth_user = none;
  body = body;
}

run-without_header :
    (run memory
      (dispatch (app X toy state true) (record (push none) { authorization = none }))
      store).0
    ≡ some (answer (rejected (reject unauthorized_401 "Missing Authorization header")))
unfolding require_auth
run-without_header = refl

run-without_notes :
    (run memory (dispatch (app X toy state true) (push none)) store).0
    ≡ some (unreadable "no notes")
unfolding require_auth reply strip_prefix ones read_ones
run-without_notes = refl

app-serve_example :
    dispatch (app X toy state true) (push (some notes))
    ≡ sent (serve toy state true header (post_sync_notes notes))
app-serve_example =
    app-serve X toy state true dispatch-IsDocumented (push (some notes)) (post_sync_notes notes)
      (refl, refl, refl)

abbrev pub upload : HttpRequest (Option (List Note))
upload = record (push none) { path = "/sync/vault_entries" }

app-PassesLayer_example :
    PassesLayer memory-IsPostgres toy state
      (upload_vault_entry_endpoint X toy state true)
      upload
      store
      (run memory (dispatch (app X toy state true) upload) store)
app-PassesLayer_example =
    app-PassesLayer memory-IsPostgres X toy state true dispatch-IsDocumented upload store
      (record {
        path = "/sync/vault_entries";
        method = post;
        endpoint = upload_vault_entry_endpoint X toy state true;
      })
      (inr (inr (inl refl))) (refl, refl)

app-Rebuffed_example :
    let (response, s') = run memory (dispatch (app X toy state true) (push none)) store in
    Rebuffed memory-IsPostgres store "no notes" notes_input (response, s')
app-Rebuffed_example =
    app-Rebuffed memory-IsPostgres X toy state true dispatch-IsDocumented (push none) store
      "no notes" notes_input refl refl refl
