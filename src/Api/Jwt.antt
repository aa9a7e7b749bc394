-- ===== src/Api/Jwt.antt =====
-- services/api/src/jwt.rs: access tokens signed with Ed25519.
use nyrex.Prelude.{String, some, Result}
use nyrex.Core.Models.{Bytes, TokenClaims}
use nyrex.Effect.Program.{request, utc_now, done}
use nyrex.Effect.Handler.{Handler, ◌>>=◌, awaiting}
use nyrex.Api.Libraries.{Libraries, Header, eddsa}

module _ (L : Libraries) where
  unfoldable pub encode_token : TokenClaims → Bytes → Result String String
  encode_token claims private_key_der =
      let header : Header = record { typ = some "JWT"; alg = eddsa } in
      L.jwt_encode header claims private_key_der

  -- The library reads the system's clock to check the expiry.
  unfoldable pub decode_token : String → Bytes → Handler TokenClaims String
  decode_token token public_key_der = do
    now ← awaiting (request utc_now)
    done (L.jwt_decode now token public_key_der eddsa)
