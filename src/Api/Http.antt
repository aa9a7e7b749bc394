-- ===== src/Api/Http.antt =====
-- What services/api/src/main.rs and the handlers use of axum: the calls that build a router, and the
-- extractors. How a router answers, and how bodies are read, are parameters; what the server relies
-- on is axum's documentation of `Router::route`, `Router::layer`, `Router::merge` and of the
-- extractors `Extension` and `Json`.
use nyrex.Prelude.{
  ◌≡◌, String, Bool, true, false, ◌&&◌, not, Option, none, some, List, [], ◌∷◌, ◌++◌, map, any, In,
  Result, ok, err,
}
use nyrex.Prelude.Text.{str_eq}
use nyrex.Core.Models.{Note, VaultEntry, RegisterRequest, LoginRequest, RefreshRequest}
use nyrex.Effect.Program.{Program, done}
use nyrex.Api.Middleware.{AuthUser}
use nyrex.Api.Server.{Answer}

pub data Method : Type 0 where
  get post other : Method

-- A request: what the routes and the extractors look at. `body` is all that `Json` reads, the
-- content type included.
pub record HttpRequest (Body : Type 0) : Type 0 where
  pub path : String
  pub method : Method
  pub authorization : Option String
  -- the extension of the type `AuthUser`
  pub auth_user : Option AuthUser
  pub body : Body

-- The answer of a handler, or that of an extractor that refuses the request.
pub data Response (Unread : Type 0) : Type 0 where
  answer : Answer → Response Unread
  missing_extension : Response Unread
  unreadable : Unread → Response Unread

abbrev pub Endpoint : Type 0 → Type 0 → Type 0
Endpoint Body Unread = HttpRequest Body → Program (Response Unread)

-- `Json<T>` for the types of the handlers: the value that a body holds, or axum's refusal.
pub record Extractors (Body Unread : Type 0) : Type 0 where
  pub register_request : Body → Result RegisterRequest Unread
  pub login_request : Body → Result LoginRequest Unread
  pub refresh_request : Body → Result RefreshRequest Unread
  pub notes : Body → Result (List Note) Unread
  pub vault_entry : Body → Result VaultEntry Unread

-- The handler on the value that `Json` extracts, or the refusal.
abbrev pub extracted :
    {A Unread : Type 0}
    → (A → Program (Response Unread))
    → Result A Unread
    → Program (Response Unread)
extracted handler (ok a) = handler a
extracted handler (err e) = done (unreadable e)

module _ {Body Unread : Type 0} where
  abbrev pub json :
      {A : Type 0}
      → (Body → Result A Unread)
      → (A → Program (Response Unread))
      → Endpoint Body Unread
  json read handler req = extracted handler (read req.body)

  abbrev pub extension : (AuthUser → Endpoint Body Unread) → Endpoint Body Unread
  extension handler req = elim req.auth_user [
    | none ↦ done missing_extension
    | some user ↦ handler user req
  ]

-- `Router::new()`, `.route(path, get(…))`, `.layer(…)` and `.merge(…)`.
pub data Router (Body Unread : Type 0) : Type 0 where
  new : Router Body Unread
  route : Router Body Unread → String → Method → Endpoint Body Unread → Router Body Unread
  layer : Router Body Unread → (Endpoint Body Unread → Endpoint Body Unread) → Router Body Unread
  merge : Router Body Unread → Router Body Unread → Router Body Unread

pub record Route (Body Unread : Type 0) : Type 0 where
  pub path : String
  pub method : Method
  pub endpoint : Endpoint Body Unread

abbrev pub method_eq : Method → Method → Bool
method_eq get get = true
method_eq post post = true
method_eq other other = true
method_eq _ _ = false

module _ {Body Unread : Type 0} where
  -- The routes of a router: a layer is put around the routes that are there when it is added.
  abbrev pub routes : Router Body Unread → List (Route Body Unread)
  routes new = []
  routes (route router path method endpoint) =
      routes router ++ (record { path = path; method = method; endpoint = endpoint } ∷ [])
  routes (layer router around) =
      map (λ (r : Route Body Unread). record r { endpoint = around r.endpoint }) (routes router)
  routes (merge left right) = routes left ++ routes right

  abbrev pub same_place : Route Body Unread → Route Body Unread → Bool
  same_place a b = str_eq a.path b.path && method_eq a.method b.method

  -- No two routes overlap; axum panics when they do.
  abbrev pub are_apart : List (Route Body Unread) → Bool
  are_apart [] = true
  are_apart (r ∷ rs) = not (any (same_place r) rs) && are_apart rs

  -- The request goes to the route.
  abbrev pub Matches : HttpRequest Body → Route Body Unread → Type 0
  Matches req r = (req.path ≡ r.path) × (req.method ≡ r.method)

  -- A router whose routes do not overlap answers a request by the route of its path and method.
  -- Nothing is said of the requests that match no route.
  abbrev pub IsDocumented : (Router Body Unread → Endpoint Body Unread) → Type 0
  IsDocumented dispatch =
      (router : Router Body Unread)
      → are_apart (routes router) ≡ true
      → (r : Route Body Unread) → In r (routes router)
      → (req : HttpRequest Body) → Matches req r
      → dispatch router req ≡ r.endpoint req
