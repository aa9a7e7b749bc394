-- ===== src/Api/Routes/Auth/Return.antt =====
-- services/api/src/routes/auth.rs: a user who has registered comes back.
use nyrex.Prelude.{
  ◌≡◌, refl, sym, subst, String, true, Option, none, some, [], ◌∷◌, inl, inr, Result, ok, err, In,
  In-perm, In-filter, found-All,
}
use nyrex.Prelude.Text.{str_eq, str_eq_iff}
use nyrex.Core.Models.{Uuid, User, RegisterRequest, LoginRequest, AuthResponse}
use nyrex.Effect.Table.{Tables}
use nyrex.Effect.Handler.{continue, ◌>>=◌}
use nyrex.Effect.Host.{Host, run, IsPostgres}
use nyrex.Effect.Logic.{Ensures, Ensures-run, Ensures-bind, Ensures-mono, Next}
use nyrex.Api.Libraries.{Libraries, IsLawful}
use nyrex.Api.AuthUtils.{verify_password}
use nyrex.Api.Response.{AppState, Rejection, StatusCode, ok_200, internal_server_error_500}
use nyrex.Api.Routes.Auth.{generate_token_pair, register, login_as, login}
use nyrex.Api.Routes.Auth.Pair.{PairOutcome, generate_token_pair-Ensures, then_answer}
use nyrex.Api.Routes.Auth.Register.{RegisterOutcome, register-RegisterOutcome}

-- A session, or an internal error; no refusal.
abbrev pub LetIn : Option (Result (StatusCode × AuthResponse) Rejection) → Type 0
LetIn none = ⊥
LetIn (some (ok (status, response))) = status ≡ ok_200
LetIn (some (err e)) = e.status ≡ internal_server_error_500

-- The credentials of a registration.
abbrev pub credentials : RegisterRequest → LoginRequest
credentials body = record { email = body.email; password = body.password }

verify_password-hash :
    {L : Libraries}
    → IsLawful L
    → (password salt hash : String) → L.argon2_hash_password password salt ≡ ok hash
    → verify_password L password hash ≡ ok true
unfolding verify_password
verify_password-hash lawful password salt hash e =
    let (parsed, f, verified) = lawful.verify-hash password salt hash e in rw f (rw verified refl)

module _ (L : Libraries) (state : AppState) where
  paired :
      (user_id : Uuid) (d : Tables) (result : Option (Result AuthResponse Rejection)) (d' : Tables)
      → PairOutcome L state user_id d result d'
      → Next (continue (then_answer L state ok_200)) (λ r e. LetIn r) result d'
  paired user_id d none d' o = o
  paired user_id d (some (ok response)) d' o = refl
  paired user_id d (some (err e)) d' o = o.0

  -- A pair of tokens and the answer with it.
  pub pair-LetIn :
      (user_id : Uuid) (d : Tables)
      → Ensures
          (generate_token_pair L state user_id >>= then_answer L state ok_200)
          (λ r e. LetIn r)
          d
  pair-LetIn user_id d =
      Ensures-bind (continue (then_answer L state ok_200)) (λ r e. LetIn r)
        (generate_token_pair L state user_id) d
        (Ensures-mono (paired user_id d) (generate_token_pair L state user_id) d
          (generate_token_pair-Ensures L state user_id d))

module _ (L : Libraries) (state : AppState) (body : LoginRequest) where
  -- Every user with the address has the password, and there is one.
  abbrev IsKnown : Tables → Type 0
  IsKnown d =
      ((user : User) × In user d.users × (user.email ≡ body.email))
      × ((user : User)
          → In user d.users
          → user.email ≡ body.email
          → verify_password L body.password user.password_hash ≡ ok true)

  login_as-LetIn :
      (user : User) (d : Tables)
      → verify_password L body.password user.password_hash ≡ ok true
      → Ensures (login_as L state body user) (λ r e. LetIn r) d
  unfolding login_as
  login_as-LetIn user d e = rw (e, Ensures) (pair-LetIn L state user.id d)

  login-LetIn : (d : Tables) → IsKnown d → Ensures (login L state body) (λ r e. LetIn r) d
  unfolding login
  login-LetIn d ((known, m, same_email), all) = elim [
    | err m ↦ λ d' same. refl
    | ok [] ↦ λ d' (now, (found, same)). absurd (
        In-perm known found (
          In-filter (λ (u : User). str_eq u.email body.email) known d.users m
            ((str_eq_iff _ _).1 same_email)))
    | ok (user ∷ others) ↦ λ d' (now, (found, same)).
        let row = (found-All (λ (u : User). str_eq u.email body.email) d.users found).0 in
        login_as-LetIn user d' (all user row.0 ((str_eq_iff _ _).0 row.1))
  ]

module _ {h : Host} (p : IsPostgres h) {L : Libraries} (lawful : IsLawful L) (state : AppState)
    (body : RegisterRequest) where
  RegisterOutcome-IsKnown :
      (d d' : Tables) {status : StatusCode} {response : AuthResponse}
      → RegisterOutcome L state body d (some (ok (status, response))) d'
      → IsKnown L state (credentials body) d'
  RegisterOutcome-IsKnown d d' (created, user, (email, name, (salt, hashed), free), opened) =
      let (now, raw, id, signed, r1, r2, r3, put) = opened in
      subst (IsKnown L state (credentials body)) (sym put) ((user, inl refl, email), all)
    where
      all :
          (u : User)
          → In u (user ∷ d.users)
          → u.email ≡ body.email
          → verify_password L body.password u.password_hash ≡ ok true
      all u (inl e) same =
          let verified = verify_password-hash lawful body.password salt user.password_hash hashed in
          subst (λ (x : User). verify_password L body.password x.password_hash ≡ ok true) (sym e)
            verified
      all u (inr m) same = absurd (free u m same)

-- After a registration that succeeded, a login with its address and password is never refused: it
-- opens a session or ends in an internal error, when a hash of a password verifies that password.
pub login-register :
    {h : Host} (p : IsPostgres h) {L : Libraries}
    → IsLawful L
    → (state : AppState) (body : RegisterRequest) {status : StatusCode} {response : AuthResponse}
      (s : h.State)
    → (run h (register L state body) s).0 ≡ some (ok (status, response))
    → LetIn (run h (login L state (credentials body)) (run h (register L state body) s).1).0
login-register {h} p {L} lawful state body s succeeded =
    let s' = (run h (register L state body) s).1 in
    let outcome =
      subst (λ r. RegisterOutcome L state body (p.tables s) r (p.tables s')) succeeded
        (register-RegisterOutcome p L state body s) in
    Ensures-run p (λ r e. LetIn r) (login L state (credentials body)) s'
      (login-LetIn L state (credentials body) (p.tables s')
        (RegisterOutcome-IsKnown p lawful state body (p.tables s) (p.tables s') outcome))
