-- ===== src/Api/Middleware/Guards.antt =====
-- The layer lets a request through only with a token that the server signed, and a token that the
-- server hands out gets its bearer through.
use nyrex.Prelude.{
  ℕ, ◌+◌, ◌^◌, ◌<◌, String, ◌<>◌, Option, none, some, ◌≡◌, refl, ok, err, Result, Result-cases,
  Option-cases, ◌⊎◌, inl, inr, arith,
}
use nyrex.Prelude.Int.{pos, as_usize}
use nyrex.Prelude.Text.{strip_prefix, strip_prefix-append}
use nyrex.Core.Models.{Uuid, DateTime, TokenClaims}
use nyrex.Effect.Program.{Program, utc_now}
use nyrex.Effect.Handler.{lifted}
use nyrex.Effect.Logic.{run-awaiting}
use nyrex.Effect.Host.{Host, run, IsPostgres}
use nyrex.Api.Libraries.{Libraries, IsLawful, IsKeyPair, eddsa}
use nyrex.Api.Jwt.{encode_token}
use nyrex.Api.Response.{AppState, Rejection, unauthorized_401}
use nyrex.Api.Middleware.{AuthUser, require_auth}
use nyrex.Api.Routes.Auth.{access_claims, access_expires_in}

module _ (L : Libraries) (state : AppState) where
  -- The header carries a token that decodes at this time to the identifier of the user.
  abbrev pub Bears : Option String → DateTime → AuthUser → Type 0
  Bears header now user =
      (value : String) × (token : String) × (claims : TokenClaims) × (header ≡ some value)
      × (strip_prefix "Bearer " value ≡ some token)
      × (L.jwt_decode now token state.jwt_public_key eddsa ≡ ok claims)
      × (L.uuid_parse_str claims.sub ≡ some user.user_id)

module _ (h : Host) (L : Libraries) (state : AppState) {A : Type 0} (next : AuthUser → Program A)
    (value token : String) (s : h.State)
    (stripped : strip_prefix "Bearer " value ≡ some token) where
  -- A bearer reaches the route.
  pub run-require_auth :
      (claims : TokenClaims) (id : Uuid)
      → L.jwt_decode (h.answer utc_now s).0 token state.jwt_public_key eddsa ≡ ok claims
      → L.uuid_parse_str claims.sub ≡ some id
      → run h (require_auth L state next (some value)) s
        ≡ lifted (run h (next (record { user_id = id })) (h.answer utc_now s).1)
  unfolding require_auth
  run-require_auth claims id e good =
      rw (stripped, require_auth, run)
        (rw (e, run) (rw (good, run) (run-awaiting h (next _) (h.answer utc_now s).1)))

module _ {h : Host} (p : IsPostgres h) (L : Libraries) (state : AppState) {A : Type 0}
    (next : AuthUser → Program A) where
  -- The layer's two ways: it answers 401 and has changed nothing, or the route ran for the bearer,
  -- right after the clock was read, and its result is the answer.
  abbrev pub Guarded : Option String → h.State → Option (Result A Rejection) × h.State → Type 0
  Guarded header s outcome =
      ((e : Rejection) × (e.status ≡ unauthorized_401)
        × (outcome.0 ≡ some (err e))
        × (p.tables outcome.1 ≡ p.tables s))
      ⊎ ((user : AuthUser) × (let (now, s') = h.answer utc_now s in
            Bears L state header now user × (outcome ≡ lifted (run h (next user) s'))))

  bearer :
      (value token : String) (s : h.State)
      → strip_prefix "Bearer " value ≡ some token
      → Guarded (some value) s (run h (require_auth L state next (some value)) s)
  unfolding require_auth
  bearer value token s stripped =
      let now = (h.answer utc_now s).0 in
      elim (Result-cases (L.jwt_decode now token state.jwt_public_key eddsa)) [
        | inr (m, e) ↦
            rw (stripped, require_auth, run) (rw (e, run) (inl (_, refl, refl, p.utc_now-tables s)))
        | inl (claims, e) ↦ elim (Option-cases (L.uuid_parse_str claims.sub)) [
          | inl bad ↦
              rw (stripped, require_auth, run)
                (rw (e, run) (rw (bad, run) (inl (_, refl, refl, p.utc_now-tables s))))
          | inr (id, good) ↦ inr (
            record { user_id = id },
            (
              (value, token, claims, refl, stripped, e, good),
              run-require_auth h L state next value token s stripped claims id e good,
            ),
          )
        ]
      ]

  require_auth-cases :
      (header : Option String) (s : h.State)
      → Guarded header s (run h (require_auth L state next header) s)
  unfolding require_auth
  require_auth-cases none s = inl (_, refl, refl, refl)
  require_auth-cases (some value) s = elim (Option-cases (strip_prefix "Bearer " value)) [
    | inl bad ↦ rw (bad, require_auth, run) (inl (_, refl, refl, refl))
    | inr (token, stripped) ↦ bearer value token s stripped
  ]

-- A request to a protected route is answered 401 with nothing changed, or its header is `Bearer` and
-- a token that decodes under the server's public key, at the time read from the clock, to claims
-- whose subject is a user identifier; then the route runs for that user, and its result is the answer.
pub require_auth-Guarded :
    {h : Host} (p : IsPostgres h) (L : Libraries) (state : AppState) {A : Type 0}
    (next : AuthUser → Program A) (header : Option String) (s : h.State)
    → Guarded p L state next header s (run h (require_auth L state next header) s)
require_auth-Guarded p L state next header s = require_auth-cases p L state next header s

-- An access token that the server signed for a user at one time gets its bearer through the layer as
-- that user at any time before fifteen minutes have passed, with a matching pair of keys.
pub require_auth-encode_token :
    (h : Host) {L : Libraries}
    → IsLawful L
    → (state : AppState) → IsKeyPair L state.jwt_private_key state.jwt_public_key
    → {A : Type 0} (next : AuthUser → Program A) (user_id : Uuid) (at : DateTime) (token : String)
      (s : h.State) (k j : ℕ)
    → encode_token L (access_claims L user_id at) state.jwt_private_key ≡ ok token
    → L.timestamp at ≡ pos k
    → k + access_expires_in < 2 ^ 64
    → L.timestamp (h.answer utc_now s).0 ≡ pos j
    → j < k + access_expires_in
    → run h (require_auth L state next (some ("Bearer " <> token))) s
      ≡ lifted (run h (next (record { user_id = user_id })) (h.answer utc_now s).1)
unfolding encode_token
require_auth-encode_token h {L} lawful state pair next user_id at token s k j signed start small
      current before =
    let expiry = lawful.timestamp-add_seconds at access_expires_in k start in
    let in_term : j < as_usize (L.timestamp (L.add_seconds at access_expires_in)) =
      rw expiry (omega arith) in
    run-require_auth h L state next ("Bearer " <> token) token s
      (strip_prefix-append "Bearer " token) (access_claims L user_id at) user_id
      (pair _ (access_claims L user_id at) token (h.answer utc_now s).0 j signed current in_term)
      (lawful.uuid_parse_str-to_string user_id)
