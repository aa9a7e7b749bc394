-- ===== src/Core/Error.antt =====
-- crates/core/src/error.rs: the domain's errors and the texts that `thiserror` derives.
use nyrex.Prelude.{String, ◌<>◌}

-- `Serialization` wraps a `serde_json::Error`, of which only the text is used.
pub data CoreError : Type 0 where
  not_found : String → CoreError
  conflict : String → CoreError
  database : String → CoreError
  serialization : String → CoreError
  internal : String → CoreError
  unauthorized : String → CoreError
  invalid_token : String → CoreError

-- `e.to_string()`
unfoldable pub to_string : CoreError → String
to_string (not_found m) = "Not found: " <> m
to_string (conflict m) = "Conflict: " <> m
to_string (database m) = "Database error: " <> m
to_string (serialization m) = "Serialization error: " <> m
to_string (internal m) = "Internal domain error: " <> m
to_string (unauthorized m) = "Unauthorized: " <> m
to_string (invalid_token m) = "Invalid token: " <> m
