-- ===== src/Api/Response.antt =====
-- What a handler answers: a status and a body, and the shape of every refusal,
-- `(StatusCode, Json(json!({ "error": ... })))`.
use nyrex.Prelude.{String}
use nyrex.Core.Models.{Bytes}
use nyrex.Core.Error.{CoreError, to_string}

pub data StatusCode : Type 0 where
  ok_200 created_201 unauthorized_401 conflict_409 internal_server_error_500 : StatusCode

pub record Rejection : Type 0 where
  pub status : StatusCode
  pub error : String

abbrev pub reject : StatusCode → String → Rejection
reject status error = record { status = status; error = error }

-- The refusals that the handlers build from an error of the store or of a library.
abbrev pub store_error : CoreError → Rejection
store_error e = reject internal_server_error_500 (to_string e)

abbrev pub library_error : String → Rejection
library_error e = reject internal_server_error_500 e

-- `AppState`, less the two stores, which are the pool that every program addresses.
pub record AppState : Type 0 where
  pub jwt_private_key : Bytes
  pub jwt_public_key : Bytes
