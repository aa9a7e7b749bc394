-- ===== src/Core/UnitTests.antt =====
-- The unit test of crates/core/src/models/mod.rs, over the crate serde_json.
use nyrex.Prelude.{String, Bool, true, false, ◌&&◌, ◌==◌, Option, none, some, List, [], ◌∷◌, Result}
use nyrex.Prelude.Int.{pos, eq_ℤ}
use nyrex.Prelude.Text.{str_eq}
use nyrex.Core.Models.{Note}
use nyrex.Effect.Program.{Program, request, utc_now, new_v4, ◌>>=◌}
use nyrex.Effect.Asserts.{assert, unwrap}

module _ {A : Type 0} (eq : A → A → Bool) where
  abbrev pub list_eq : List A → List A → Bool
  list_eq [] [] = true
  list_eq [] (y ∷ ys) = false
  list_eq (x ∷ xs) [] = false
  list_eq (x ∷ xs) (y ∷ ys) = eq x y && list_eq xs ys

  abbrev option_eq : Option A → Option A → Bool
  option_eq none none = true
  option_eq none (some y) = false
  option_eq (some x) none = false
  option_eq (some x) (some y) = eq x y

-- `#[derive(PartialEq)]`
abbrev pub note_eq : Note → Note → Bool
note_eq a b =
    a.id == b.id
    && (a.user_id == b.user_id
        && (list_eq ◌==◌ a.title_cipher b.title_cipher
            && (list_eq ◌==◌ a.content_cipher b.content_cipher
                && (list_eq ◌==◌ a.nonce b.nonce
                    && (eq_ℤ a.version b.version
                        && (str_eq a.format b.format
                            && (list_eq str_eq a.tags b.tags
                                && (a.created_at == b.created_at
                                    && (a.updated_at == b.updated_at
                                        && option_eq ◌==◌ a.deleted_at b.deleted_at)))))))))

-- `serde_json::to_string` and `serde_json::from_str` are `to_json` and `from_json`.
unfoldable pub test_note_serialization :
    (Note → Result String String) → (String → Result Note String) → Program (Unit {0})
test_note_serialization to_json from_json = do
  id ← request new_v4
  user_id ← request new_v4
  created_at ← request utc_now
  updated_at ← request utc_now
  let note : Note = record {
    id = id;
    user_id = user_id;
    title_cipher = 1 ∷ 2 ∷ 3 ∷ [];
    content_cipher = 4 ∷ 5 ∷ 6 ∷ [];
    nonce = 0 ∷ 0 ∷ 0 ∷ 0 ∷ 0 ∷ 0 ∷ 0 ∷ 0 ∷ 0 ∷ 0 ∷ 0 ∷ 0 ∷ [];
    version = pos 1;
    format = "markdown";
    tags = "test" ∷ [];
    created_at = created_at;
    updated_at = updated_at;
    deleted_at = none;
  }
  serialized ← unwrap (to_json note)
  deserialized ← unwrap (from_json serialized)
  assert (note_eq note deserialized)
