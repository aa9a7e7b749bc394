-- ===== src/Api/Server/Requests/Auth.antt =====
-- services/api/src/routes/auth.rs: the statements that the handlers make.
use nyrex.Prelude.{Bool, true, false, [], ◌∷◌, ok, err, inl, inr, Result-cases}
use nyrex.Core.Models.{Uuid, User, RefreshToken, RegisterRequest, LoginRequest, RefreshRequest}
use nyrex.Effect.Program.{◌>>=◌}
use nyrex.Effect.Handler.{continue}
use nyrex.Effect.Only.{Only, Only-bind}
use nyrex.Api.Libraries.{Libraries}
use nyrex.Api.Response.{AppState, StatusCode, ok_200, created_201}
use nyrex.Api.AuthUtils.{verify_password}
use nyrex.Api.Jwt.{encode_token}
use nyrex.Api.Routes.Auth.Pair.{then_answer}
use nyrex.Api.Routes.Auth.{
  access_claims, generate_token_pair, create_account, register, login_as, login, rotate, refresh,
}
use nyrex.Api.Server.{Call, post_register, post_refresh}
use nyrex.Api.Server.Makes.{Makes, finds_user, adds_user, finds_token, revokes_token, adds_token}

module _ (L : Libraries) (state : AppState) (checks : Bool) (call : Call) where
  generate_token_pair-Only :
      (user_id : Uuid) → Only (Makes L checks call) (generate_token_pair L state user_id)
  unfolding generate_token_pair
  generate_token_pair-Only user_id = (
    tt,
    λ now.
        elim (Result-cases (encode_token L (access_claims L user_id now) state.jwt_private_key)) [
          | inr (m, e) ↦ rw e tt
          | inl (access_token, e) ↦ rw e (
            tt,
            λ raw. (tt, λ id. (adds_token id user_id raw now, elim [ ok rows ↦ tt | err m ↦ tt ])),
          )
        ],
  )

  -- A handler that ends with a new pair of tokens.
  pair_then-Only :
      (user_id : Uuid) (status : StatusCode)
      → Only
          (Makes L checks call)
          (generate_token_pair L state user_id >>= continue (then_answer L state status))
  pair_then-Only user_id status =
      Only-bind (Makes L checks call) (generate_token_pair L state user_id)
        (continue (then_answer L state status)) (generate_token_pair-Only user_id)
        (elim [ ok response ↦ tt | err e ↦ tt ])

  login_as-Only :
      (body : LoginRequest) (user : User) → Only (Makes L checks call) (login_as L state body user)
  unfolding login_as
  login_as-Only body user =
      elim (Result-cases (verify_password L body.password user.password_hash)) [
        | inr (m, e) ↦ rw e tt
        | inl (true, e) ↦ rw e (pair_then-Only user.id ok_200)
        | inl (false, e) ↦ rw e tt
      ]

  pub login-Only : (body : LoginRequest) → Only (Makes L checks call) (login L state body)
  unfolding login
  login-Only body = (
    finds_user body.email,
    elim [ ok [] ↦ tt | ok (user ∷ users) ↦ login_as-Only body user | err m ↦ tt ],
  )

module _ (L : Libraries) (state : AppState) (checks : Bool) (body : RefreshRequest) where
  rotate-Only :
      (token : RefreshToken) → Only (Makes L checks (post_refresh body)) (rotate L state token)
  unfolding rotate
  rotate-Only token = (
    revokes_token token.id,
    elim [
      | ok rows ↦ pair_then-Only L state checks (post_refresh body) token.user_id ok_200
      | err m ↦ tt
    ],
  )

  pub refresh-Only : Only (Makes L checks (post_refresh body)) (refresh L state body)
  unfolding refresh
  refresh-Only =
      (finds_token, elim [ ok [] ↦ tt | ok (token ∷ tokens) ↦ rotate-Only token | err m ↦ tt ])

module _ (L : Libraries) (state : AppState) (checks : Bool) (body : RegisterRequest) where
  create_account-Only : Only (Makes L checks (post_register body)) (create_account L state body)
  unfolding create_account
  create_account-Only = (
    tt,
    λ salt. elim (Result-cases (L.argon2_hash_password body.password salt)) [
      | inr (m, e) ↦ rw e tt
      | inl (hash, e) ↦ rw e (
        tt,
        λ id. (
          adds_user id salt hash e,
          elim [
            | ok [] ↦ tt
            | ok (user ∷ users) ↦
                pair_then-Only L state checks (post_register body) user.id created_201
            | err m ↦ tt
          ],
        ),
      )
    ],
  )

  pub register-Only : Only (Makes L checks (post_register body)) (register L state body)
  unfolding register
  register-Only = (
    finds_user body.email,
    elim [ ok [] ↦ create_account-Only | ok (user ∷ users) ↦ tt | err m ↦ create_account-Only ],
  )
