-- ===== src/Api/Routes/Auth/Register.antt =====
-- What `register` does to the database, result by result.
use nyrex.Prelude.{
  String, true, Option, none, some, [], ◌∷◌, ◌≡◌, ◌≢◌, refl, sym, subst, ap, ◌∙◌, ok, err, Result,
  ◌⊎◌, inl, inr, arith, In, Result-cases, any-In, cons-injective_left, found-All,
}
use nyrex.Prelude.Text.{str_eq, str_eq_iff}
use nyrex.Core.Models.{Uuid, DateTime, User, RegisterRequest, AuthResponse}
use nyrex.Effect.Table.{Tables, meets_constraints, users}
use nyrex.Effect.Handler.{Handler, ◌>>=◌, continue}
use nyrex.Effect.Host.{Host, run, IsPostgres}
use nyrex.Effect.Logic.{Ensures, Ensures-run, Ensures-bind, Ensures-mono, Next}
use nyrex.Api.Libraries.{Libraries}
use nyrex.Api.Response.{
  AppState, Rejection, StatusCode, created_201, conflict_409, reject, internal_server_error_500,
}
use nyrex.Api.Routes.Auth.{generate_token_pair, create_account, register}
use nyrex.Api.Routes.Auth.Pair.{Opened, PairOutcome, generate_token_pair-Ensures, then_answer}

-- The addresses of all users differ from this one.
abbrev pub IsFree : String → Tables → Type 0
IsFree email d = (u : User) → In u d.users → u.email ≢ email

abbrev with_user : User → Tables → Tables
with_user u d = record d { users = u ∷ d.users }

module _ (L : Libraries) (state : AppState) where
  -- The row of a new user holds the request's address and name and a hash of its password, and no
  -- other row had the address.
  abbrev pub IsAccount : RegisterRequest → Tables → User → Type 0
  IsAccount body d user =
      (user.email ≡ body.email)
      × (user.display_name ≡ body.display_name)
      × ((salt : String) × (L.argon2_hash_password body.password salt ≡ ok user.password_hash))
      × IsFree body.email d

  abbrev pub RegisterOutcome :
      RegisterRequest
      → Tables
      → Option (Result (StatusCode × AuthResponse) Rejection)
      → Tables
      → Type 0
  RegisterOutcome body d none d' = ⊥
  RegisterOutcome body d (some (ok (status, response))) d' =
      (status ≡ created_201)
      × (user : User) × IsAccount body d user
      × Opened L state user.id (with_user user d) response d'
  RegisterOutcome body d (some (err e)) d' =
      (((e.status ≡ internal_server_error_500)
          ⊎ ((e ≡ reject conflict_409 "Email already registered") × (¬ (IsFree body.email d))))
        × (d' ≡ d))
      ⊎ ((user : User) × IsAccount body d user
          × (e.status ≡ internal_server_error_500)
          × (d' ≡ with_user user d))

  module _ (body : RegisterRequest) (d : Tables) where
    after_pair :
        (user : User)
        → IsAccount body d user
        → (result : Option (Result AuthResponse Rejection)) (d' : Tables)
        → PairOutcome L state user.id (with_user user d) result d'
        → Next (continue (then_answer L state created_201)) (RegisterOutcome body d) result d'
    after_pair user account none d' o = o
    after_pair user account (some (ok response)) d' o = (refl, user, account, o)
    after_pair user account (some (err e)) d' o = inr (user, account, o.0, o.1)

    pair_then_answer : User → Handler (StatusCode × AuthResponse) Rejection
    pair_then_answer user = generate_token_pair L state user.id >>= then_answer L state created_201

    pair-Ensures :
        (user : User) {d' : Tables}
        → IsAccount body d user
        → d' ≡ with_user user d
        → Ensures (pair_then_answer user) (RegisterOutcome body d) d'
    unfolding pair_then_answer
    pair-Ensures user account done =
        subst (Ensures (pair_then_answer user) (RegisterOutcome body d)) (sym done) (
          Ensures-bind (continue (then_answer L state created_201)) (RegisterOutcome body d)
            (generate_token_pair L state user.id) (with_user user d)
            (Ensures-mono (after_pair user account) (generate_token_pair L state user.id)
              (with_user user d) (generate_token_pair-Ensures L state user.id (with_user user d))))

    abbrev new_user : Uuid → String → DateTime → User
    new_user id hash now = record {
      id = id;
      email = body.email;
      password_hash = hash;
      display_name = body.display_name;
      sso_provider = none;
      sso_sub = none;
      created_at = now;
      updated_at = now;
    }

    legal-IsFree :
        (user : User)
        → user.email ≡ body.email
        → meets_constraints users user d ≡ true
        → IsFree body.email d
    legal-IsFree user same_email legal u found e =
        let taken =
          any-In (λ (r : User). str_eq r.email user.email) u d.users found
            ((str_eq_iff _ _).1 (e ∙ sym same_email)) in
        ground arith

    inserted-IsAccount :
        (id : Uuid) (salt hash : String) (now : DateTime) (row : User)
        → L.argon2_hash_password body.password salt ≡ ok hash
        → meets_constraints users (new_user id hash now) d ≡ true
        → row ≡ new_user id hash now
        → IsAccount body d row
    inserted-IsAccount id salt hash now row hashed legal same =
        subst (IsAccount body d) (sym same)
          (refl, refl, (salt, hashed), legal-IsFree (new_user id hash now) refl legal)

    create_account-Ensures : Ensures (create_account L state body) (RegisterOutcome body d) d
    unfolding create_account pair_then_answer
    create_account-Ensures = λ salt.
        elim (Result-cases (L.argon2_hash_password body.password salt)) [
          | inr (m, e) ↦ rw (e, Ensures) (inl (inl refl, refl))
          | inl (hash, e) ↦
              rw (e, Ensures)
                λ id. (elim [
                  | err m ↦ λ d' same. inl (inl refl, same)
                  | ok [] ↦ λ d' (now, (legal, same, done)). absurd (cc same)
                  | ok (row ∷ rows) ↦ λ d' (now, (legal, same, done)).
                      let is_row = cons-injective_left same in
                      pair-Ensures row (inserted-IsAccount id salt hash now row e legal is_row)
                        (done ∙ ap (λ u. with_user u d) (sym is_row))
                ])
        ]

    pub register-Ensures : Ensures (register L state body) (RegisterOutcome body d) d
    unfolding register
    register-Ensures = elim [
      | err m ↦ λ d' same.
          subst (Ensures (create_account L state body) (RegisterOutcome body d)) (sym same)
            create_account-Ensures
      | ok [] ↦ λ d' (now, (found, same)).
          subst (Ensures (create_account L state body) (RegisterOutcome body d)) (sym same)
            create_account-Ensures
      | ok (user ∷ others) ↦ λ d' (now, (found, same)).
          let row = (found-All (λ u. str_eq u.email body.email) d.users found).0 in
          inl (inr (refl, λ free. free user row.0 ((str_eq_iff _ _).0 row.1)), same)
    ]

-- A registration succeeds with status 201, when no user had the address: then a user with the
-- request's address and name and a hash of its password was stored, a session of that user is open,
-- and nothing else changed. It is refused with status 409 only if the address is taken. Any other
-- refusal is an internal error: it changes nothing, or it leaves the new user without a session. It
-- never panics.
pub register-RegisterOutcome :
    {h : Host} (p : IsPostgres h) (L : Libraries) (state : AppState) (body : RegisterRequest)
    (s : h.State)
    → let (result, s') = run h (register L state body) s in
      RegisterOutcome L state body (p.tables s) result (p.tables s')
register-RegisterOutcome p L state body s =
    Ensures-run p (RegisterOutcome L state body (p.tables s)) (register L state body) s
      (register-Ensures L state body (p.tables s))
