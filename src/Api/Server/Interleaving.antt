-- ===== src/Api/Server/Interleaving.antt =====
-- services/api/src/main.rs: the server under concurrent requests, whose awaits interleave in any order.
use nyrex.Prelude.{
  ◌≡◌, sym, ap, ◌∙◌, inl, inr, Bool, true, Option, String, List, [], ◌∷◌, In, All, any-In, ◌==◌,
  ==_iff, arith,
}
use nyrex.Core.Models.{Uuid, RefreshToken, Note}
use nyrex.Effect.Table.{Tables, refresh_tokens}
use nyrex.Effect.Program.{Program}
use nyrex.Effect.Host.{Host, IsPostgres}
use nyrex.Effect.Tasks.{Steps}
use nyrex.Effect.Permits.{Permits}
use nyrex.Effect.Evolution.{Evolves}
use nyrex.Effect.Evolution.Statements.{Steps-Evolves}
use nyrex.Effect.Permits.{row_id-Change}
use nyrex.Api.Libraries.{Libraries}
use nyrex.Api.Response.{AppState}
use nyrex.Api.Server.{Call, Answer, serve}
use nyrex.Api.Server.Requests.{serve-Permits}

-- One task for each request: its header and its call.
abbrev pub tasks : Libraries → AppState → Bool → List (Option String × Call) → List (Program Answer)
tasks L state checks [] = []
tasks L state checks ((header, call) ∷ calls) =
    serve L state checks header call ∷ tasks L state checks calls

tasks-All :
    (L : Libraries) (state : AppState) (checks : Bool) (calls : List (Option String × Call))
    → All Permits (tasks L state checks calls)
tasks-All L state checks [] = tt
tasks-All L state checks ((header, call) ∷ calls) =
    (serve-Permits L state checks header call, tasks-All L state checks calls)

-- However the requests of any number of tasks interleave, and wherever they have got to: users and
-- attachments that are stored stay as they are; a stored refresh token stays, as it is or revoked; a
-- stored note stays, with its owner and its time of creation; and a row that was neither there nor
-- changed from one that was has an identifier that was free.
tasks-Evolves :
    {h : Host} (p : IsPostgres h) (L : Libraries) (state : AppState) (checks : Bool)
    (calls : List (Option String × Call)) {later : List (Program Answer)} {s s' : h.State}
    → Steps h (tasks L state checks calls) s later s'
    → Evolves (p.tables s) (p.tables s')
tasks-Evolves p L state checks calls steps = Steps-Evolves p steps (tasks-All L state checks calls)

-- All rows with the identifier are revoked, and there is one.
abbrev pub IsRevoked : Uuid → Tables → Type 0
IsRevoked id d =
    ((r : RefreshToken) × In r d.refresh_tokens × (r.id ≡ id))
    × ((r : RefreshToken) → In r d.refresh_tokens → r.id ≡ id → r.revoked ≡ true)

-- All rows with the identifier belong to the user, and there is one.
abbrev pub IsOwned : Uuid → Uuid → Tables → Type 0
IsOwned id user_id d =
    ((n : Note) × In n d.notes × (n.id ≡ id))
    × ((n : Note) → In n d.notes → n.id ≡ id → n.user_id ≡ user_id)

IsRevoked-Evolves : (id : Uuid) (d d' : Tables) → Evolves d d' → IsRevoked id d → IsRevoked id d'
IsRevoked-Evolves id d d' e ((r, m, same), all) = (still, later)
  where
    still : (r' : RefreshToken) × In r' d'.refresh_tokens × (r'.id ≡ id)
    still =
        let (r', m', c) = e.refresh_tokens.kept r m in
        (r', m', row_id-Change refresh_tokens r r' c ∙ same)

    later : (r' : RefreshToken) → In r' d'.refresh_tokens → r'.id ≡ id → r'.revoked ≡ true
    later r' m' same' = elim (e.refresh_tokens.traced r' m') [
      | inl (o, mo, inl c) ↦
          ap (λ (x : RefreshToken). x.revoked) c
          ∙ all o mo (sym (ap (λ (x : RefreshToken). x.id) c) ∙ same')
      | inl (o, mo, inr c) ↦ ap (λ (x : RefreshToken). x.revoked) c
      | inr free ↦
          let taken =
            any-In (λ (x : RefreshToken). x.id == r'.id) r d.refresh_tokens m
              ((==_iff _ _).1 (same ∙ sym same')) in
          absurd (ground arith)
    ]

IsOwned-Evolves :
    (id user_id : Uuid) (d d' : Tables)
    → Evolves d d'
    → IsOwned id user_id d
    → IsOwned id user_id d'
IsOwned-Evolves id user_id d d' e ((n, m, same), all) = (still, later)
  where
    still : (n' : Note) × In n' d'.notes × (n'.id ≡ id)
    still = let (n', m', c) = e.notes.kept n m in (n', m', c.0 ∙ same)

    later : (n' : Note) → In n' d'.notes → n'.id ≡ id → n'.user_id ≡ user_id
    later n' m' same' = elim (e.notes.traced n' m') [
      | inl (o, mo, c) ↦ c.1 ∙ all o mo (sym c.0 ∙ same')
      | inr free ↦
          let taken =
            any-In (λ (x : Note). x.id == n'.id) n d.notes m ((==_iff _ _).1 (same ∙ sym same')) in
          absurd (ground arith)
    ]

-- A refresh token that is revoked is revoked for good: no interleaving of requests to the server
-- makes a row with its identifier valid again.
pub tasks-IsRevoked :
    {h : Host} (p : IsPostgres h) (L : Libraries) (state : AppState) (checks : Bool)
    (calls : List (Option String × Call)) {later : List (Program Answer)} {s s' : h.State}
    (id : Uuid)
    → Steps h (tasks L state checks calls) s later s'
    → IsRevoked id (p.tables s)
    → IsRevoked id (p.tables s')
tasks-IsRevoked p L state checks calls id steps =
    IsRevoked-Evolves id _ _ (tasks-Evolves p L state checks calls steps)

-- A note never changes hands: no interleaving of requests to the server, whoever makes them, moves a
-- stored note to another user or removes it.
pub tasks-IsOwned :
    {h : Host} (p : IsPostgres h) (L : Libraries) (state : AppState) (checks : Bool)
    (calls : List (Option String × Call)) {later : List (Program Answer)} {s s' : h.State}
    (id user_id : Uuid)
    → Steps h (tasks L state checks calls) s later s'
    → IsOwned id user_id (p.tables s)
    → IsOwned id user_id (p.tables s')
tasks-IsOwned p L state checks calls id user_id steps =
    IsOwned-Evolves id user_id _ _ (tasks-Evolves p L state checks calls steps)
