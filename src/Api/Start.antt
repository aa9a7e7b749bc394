-- ===== src/Api/Start.antt =====
-- services/api/src/main.rs: the start of the server, up to its shared state. The process's environment
-- (after the file `.env` was read), the decoder of the crate base64 and the attempt to connect are
-- parameters. An error of theirs is what `{:?}` makes of it, also that of a variable that is set to what
-- is not Unicode, and a panic of `expect` is its text, which ends with that of the error.
use nyrex.Prelude.{◌≡◌, refl, ◌<>◌, ◌⊎◌, inl, inr, String, Result-cases, Result, ok, err, ◌>>=?◌}
use nyrex.Core.Models.{Bytes}
use nyrex.Api.Response.{AppState}

module _ (env : String → Result String String) (decode : String → Result Bytes String)
    (connect : String → Result (Unit {0}) String) where
  -- `.expect(text)`
  abbrev expect : {A : Type 0} → Result A String → String → Result A String
  expect (ok a) text = ok a
  expect (err e) text = err (text <> (": " <> e))

  unfoldable pub start : Result AppState String
  start =
      expect (env "DATABASE_URL") "DATABASE_URL environment variable must be set."
      >>=? λ database_url.
          expect (env "JWT_PRIVATE_KEY") "JWT_PRIVATE_KEY environment variable must be set."
          >>=? λ priv_key_b64.
              expect (env "JWT_PUBLIC_KEY") "JWT_PUBLIC_KEY environment variable must be set."
              >>=? λ pub_key_b64.
                  expect (decode priv_key_b64) "Invalid Base64 in JWT_PRIVATE_KEY"
                  >>=? λ jwt_private_key.
                      expect (decode pub_key_b64) "Invalid Base64 in JWT_PUBLIC_KEY"
                      >>=? λ jwt_public_key.
                          expect (connect database_url)
                            "Failed to construct Postgres Pool. Ensure Docker is running."
                          >>=? λ pool. ok (record {
                            jwt_private_key = jwt_private_key;
                            jwt_public_key = jwt_public_key;
                          })

  -- The variable cannot be read, and the server says so, with the error.
  abbrev pub IsUnset : String → String → Type 0
  IsUnset name text =
      (e : String) × (env name ≡ err e)
      × (text ≡ (name <> " environment variable must be set.") <> (": " <> e))

  -- The variable is set to a text that is not Base64.
  abbrev pub IsGarbled : String → String → Type 0
  IsGarbled name text =
      (value : String) × (e : String) × (env name ≡ ok value)
      × (decode value ≡ err e)
      × (text ≡ ("Invalid Base64 in " <> name) <> (": " <> e))

  -- The server starts with the keys that the environment holds, or one of six faults stops it.
  abbrev pub Started : Result AppState String → Type 0
  Started (ok state) =
      (database_url : String) × (priv_key_b64 : String) × (pub_key_b64 : String) × (env
          "DATABASE_URL"
        ≡ ok database_url)
      × (env "JWT_PRIVATE_KEY" ≡ ok priv_key_b64)
      × (env "JWT_PUBLIC_KEY" ≡ ok pub_key_b64)
      × (decode priv_key_b64 ≡ ok state.jwt_private_key)
      × (decode pub_key_b64 ≡ ok state.jwt_public_key)
      × (connect database_url ≡ ok tt)
  Started (err text) =
      IsUnset "DATABASE_URL" text
      ⊎ (IsUnset "JWT_PRIVATE_KEY" text
          ⊎ (IsUnset "JWT_PUBLIC_KEY" text
              ⊎ (IsGarbled "JWT_PRIVATE_KEY" text
                  ⊎ (IsGarbled "JWT_PUBLIC_KEY" text
                      ⊎ ((database_url : String) × (e : String) × (env "DATABASE_URL"
                            ≡ ok database_url)
                          × (connect database_url ≡ err e)
                          × (text
                              ≡ "Failed to construct Postgres Pool. Ensure Docker is running."
                                <> (": " <> e)))))))

  module _ (url priv public : String) (a : env "DATABASE_URL" ≡ ok url)
      (b : env "JWT_PRIVATE_KEY" ≡ ok priv) (c : env "JWT_PUBLIC_KEY" ≡ ok public) where
    connected :
        (private_key public_key : Bytes)
        → decode priv ≡ ok private_key
        → decode public ≡ ok public_key
        → Started (
            expect (connect url) "Failed to construct Postgres Pool. Ensure Docker is running."
            >>=? λ pool. ok (record { jwt_private_key = private_key; jwt_public_key = public_key }))
    connected private_key public_key f g = elim (Result-cases (connect url)) [
      | inl (pool, e) ↦ rw e (url, priv, public, a, b, c, f, g, e)
      | inr (m, e) ↦ rw e (inr (inr (inr (inr (inr (url, m, a, e, refl))))))
    ]

    decoded : Started (
        expect (decode priv) "Invalid Base64 in JWT_PRIVATE_KEY" >>=? λ private_key.
        expect (decode public) "Invalid Base64 in JWT_PUBLIC_KEY" >>=? λ public_key.
        expect (connect url) "Failed to construct Postgres Pool. Ensure Docker is running."
        >>=? λ pool. ok (record { jwt_private_key = private_key; jwt_public_key = public_key }))
    decoded = elim (Result-cases (decode priv)) [
      | inr (m, e) ↦ rw e (inr (inr (inr (inl (priv, m, b, e, refl)))))
      | inl (private_key, f) ↦ elim (Result-cases (decode public)) [
        | inr (m, e) ↦ rw f (rw e (inr (inr (inr (inr (inl (public, m, c, e, refl)))))))
        | inl (public_key, g) ↦ rw f (rw g (connected private_key public_key f g))
      ]
    ]

  started : Started start
  unfolding start
  started = elim (Result-cases (env "DATABASE_URL")) [
    | inr (m, e) ↦ rw e (inl (m, e, refl))
    | inl (url, a) ↦ elim (Result-cases (env "JWT_PRIVATE_KEY")) [
      | inr (m, e) ↦ rw a (rw e (inr (inl (m, e, refl))))
      | inl (priv, b) ↦ elim (Result-cases (env "JWT_PUBLIC_KEY")) [
        | inr (m, e) ↦ rw a (rw b (rw e (inr (inr (inl (m, e, refl))))))
        | inl (public, c) ↦ rw a (rw b (rw c (decoded url priv public a b c)))
      ]
    ]
  ]

-- The server starts only with its three variables read, both keys decoded from the environment's texts
-- and the database reached; otherwise it stops with a text that names a variable that cannot be read,
-- a key that is not Base64, or the database that it could not reach, and ends with the error's.
pub start-Started :
    (env : String → Result String String) (decode : String → Result Bytes String)
    (connect : String → Result (Unit {0}) String)
    → Started env decode connect (start env decode connect)
start-Started env decode connect = started env decode connect
