-- ===== src/Api/Router/Access.antt =====
-- services/api/src/main.rs: the reach of requests that bear no valid token, on the whole router.
use nyrex.Prelude.{◌≡◌, refl, ap, ◌∙◌, Bool, false, some, List, map, inl, inr, All}
use nyrex.Core.Models.{DateTime}
use nyrex.Effect.Table.{Table, users, refresh_tokens, notes, vault_entries, Tables, put_table, Row}
use nyrex.Effect.Statement.{Statement, Rows}
use nyrex.Effect.Program.{Program}
use nyrex.Effect.Frame.{Executed-put_table}
use nyrex.Effect.Host.{Host, IsPostgres, Executed}
use nyrex.Effect.Only.{Only, Only-bind, Only-mono, All-Guarantees}
use nyrex.Effect.Tasks.{Steps, Steps-Guarantees}
use nyrex.Api.Libraries.{Libraries}
use nyrex.Api.Response.{AppState}
use nyrex.Api.Middleware.{AuthUser, require_auth}
use nyrex.Api.Middleware.Guards.{Bears}
use nyrex.Api.Server.{Call, is_protected, serve}
use nyrex.Api.Server.Makes.{
  Makes, finds_user, adds_user, finds_token, revokes_token, adds_token, finds_note, pushes_note,
  adds_entry,
}
use nyrex.Api.Server.Requests.{serve-Only, require_auth-Only}
use nyrex.Api.Http.{HttpRequest, Response, Endpoint, Extractors, Router, Route, IsDocumented}
use nyrex.Api.Router.{auth_layer, app}
use nyrex.Api.Router.Statements.{endpoint-Only, IsRouted, requests-Only}

-- The statements on the tables of accounts and sessions.
abbrev OfAccounts : (t : Table) → Statement t → Type 0
OfAccounts users q = Unit
OfAccounts refresh_tokens q = Unit
OfAccounts notes q = ⊥
OfAccounts vault_entries q = ⊥

abbrev pub SameContents : Tables → Tables → Type 0
SameContents d d' = (d'.notes ≡ d.notes) × (d'.vault_entries ≡ d.vault_entries)

SameContents-refl : (d : Tables) → SameContents d d
SameContents-refl d = (refl, refl)

SameContents-trans : (d e f : Tables) → SameContents d e → SameContents e f → SameContents d f
SameContents-trans d e f first second = (second.0 ∙ first.0, second.1 ∙ first.1)

same_contents : (d d' e : Tables) → d' ≡ e → SameContents d e → SameContents d d'
same_contents d d' e same c =
    (ap (λ (x : Tables). x.notes) same ∙ c.0, ap (λ (x : Tables). x.vault_entries) same ∙ c.1)

put_table-SameContents :
    (t : Table) (q : Statement t)
    → OfAccounts t q
    → (rows : List (Row t)) (d : Tables) → SameContents d (put_table t rows d)
put_table-SameContents users q c rows d = (refl, refl)
put_table-SameContents refresh_tokens q c rows d = (refl, refl)
put_table-SameContents notes q c rows d = absurd c
put_table-SameContents vault_entries q c rows d = absurd c

Executed-SameContents :
    (t : Table) (q : Statement t)
    → OfAccounts t q
    → (r : Rows t) (d d' : Tables) → Executed q d r d'
    → SameContents d d'
Executed-SameContents t q c r d d' executed = elim (Executed-put_table q r d d' executed) [
  | inl same ↦ same_contents d d' d same (SameContents-refl d)
  | inr (rows, put) ↦ same_contents d d' _ put (put_table-SameContents t q c rows d)
]

Makes-OfAccounts :
    {L : Libraries} {checks : Bool} (call : Call)
    → is_protected call ≡ false
    → (t : Table) (q : Statement t) → Makes L checks call t q
    → OfAccounts t q
Makes-OfAccounts _ open_route t q (finds_user email) = tt
Makes-OfAccounts _ open_route t q (adds_user id salt hash e) = tt
Makes-OfAccounts _ open_route t q finds_token = tt
Makes-OfAccounts _ open_route t q (revokes_token token_id) = tt
Makes-OfAccounts _ open_route t q (adds_token id user_id raw now) = tt
Makes-OfAccounts _ open_route t q (finds_note session note) = cc
Makes-OfAccounts _ open_route t q (pushes_note note found updated m e) = cc
Makes-OfAccounts _ open_route t q adds_entry = cc

module _ {Body Unread : Type 0} (X : Extractors Body Unread) (L : Libraries) (state : AppState)
    (checks : Bool) where
  -- At no time does the header bear a token of a user's.
  abbrev pub BearsNone : HttpRequest Body → Type 0
  BearsNone req = (now : DateTime) (user : AuthUser) → ¬ (Bears L state req.authorization now user)

  layered-OfAccounts :
      (req : HttpRequest Body)
      → BearsNone req
      → (r : Route Body Unread) → Only OfAccounts (auth_layer L state r.endpoint req)
  layered-OfAccounts req never r =
      let next : AuthUser → Program (Response Unread) =
        λ user. r.endpoint (record req { auth_user = some user }) in
      Only-bind OfAccounts (require_auth L state next req.authorization) _
        (require_auth-Only OfAccounts L state req.authorization next
          (λ now user bears. absurd (never now user bears)))
        (λ r. tt)

  -- Requests for the routes that bear no valid token, however they interleave and whatever their bodies
  -- are, leave all notes and attachments as they are, where axum dispatches as it documents.
  pub requests-SameContents :
      {dispatch : Router Body Unread → Endpoint Body Unread}
      → IsDocumented dispatch
      → {h : Host} (p : IsPostgres h) (requests : List (HttpRequest Body))
      → All (IsRouted X L state checks) requests
      → All BearsNone requests
      → {later : List (Program (Response Unread))} {s s' : h.State}
      → Steps h (map (dispatch (app X L state checks)) requests) s later s'
      → SameContents (p.tables s) (p.tables s')
  requests-SameContents documented p requests routed none_bear steps =
      Steps-Guarantees SameContents p SameContents-refl SameContents-trans steps (
        All-Guarantees OfAccounts SameContents
          (λ t q c. record { executes = Executed-SameContents t q c }) _
          (requests-Only X L state checks OfAccounts BearsNone
            (λ req never.
              endpoint-Only OfAccounts X L state checks
                (λ call open_route.
                  Only-mono (Makes L checks call) OfAccounts (Makes-OfAccounts call open_route)
                    (serve L state checks _ call) (serve-Only L state checks _ call))
                req (λ r at. layered-OfAccounts req never r))
            documented requests routed none_bear))
