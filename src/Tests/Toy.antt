-- ===== src/Tests/Toy.antt =====
-- Concrete data: libraries that keep their promises, a small database, and requests.
use Prim.Native.Char.{code}
use nyrex.Prelude.{
  ℕ, zero, suc, ◌+◌, ◌*◌, ◌<◌, String, true, false, Option, none, some, [], ◌∷◌, ◌≡◌, refl, ap, ◌∙◌,
  subst, Result, ok, err, ltb, if◌then◌else◌, arith, ◌==◌, In, inl, inr,
}
use nyrex.Prelude.Int.{pos}
use nyrex.Prelude.Text.{str_eq, str_eq_refl}
use nyrex.Core.Models.{Uuid, DateTime, User, RefreshToken, Note, TokenClaims}
use nyrex.Effect.Table.{users, has_id}
use nyrex.Effect.Memory.{Memory}
use nyrex.Effect.Schema.{IsWellFormed}
use nyrex.Api.Libraries.{Libraries, IsLawful, IsKeyPair, Header}
use nyrex.Api.Response.{AppState}
use nyrex.Api.Middleware.{AuthUser}

-- A number as so many ones in front of a text.
unfoldable pub ones : ℕ → String → String
ones zero s = s
ones (suc n) s = String.◌∷◌ "1" (ones n s)

-- The ones in front of a text, and what is behind them and one more character.
unfoldable pub read_ones : String → ℕ × String
read_ones String.[] = (0, String.[])
read_ones (String.◌∷◌ c s) =
    let (n, rest) = read_ones s in if code c == b'1' then (suc n, rest) else (0, s)

read_ones-ones : (n : ℕ) (s : String) → read_ones (ones n (String.◌∷◌ "." s)) ≡ (n, s)
unfolding read_ones ones
read_ones-ones zero s = refl
read_ones-ones (suc n) s = rw (read_ones-ones n s) refl

abbrev pub to_string : Uuid → String
to_string u = ones u "."

abbrev pub parse_str : String → Option Uuid
parse_str s = some (read_ones s).0

parse_str-to_string : (u : Uuid) → parse_str (to_string u) ≡ some u
parse_str-to_string u = ap (λ (r : ℕ × String). some r.0) (read_ones-ones u "")

abbrev pub sign : TokenClaims → String
sign c = ones c.iat (String.◌∷◌ "." (ones c.exp (String.◌∷◌ "." c.sub)))

abbrev check_term : ℕ → TokenClaims → Result TokenClaims String
check_term now c = if ltb now c.exp then ok c else err "ExpiredSignature"

abbrev read_claims : ℕ × String → TokenClaims
read_claims (iat, rest) =
    let (exp, sub) = read_ones rest in record { sub = sub; iat = iat; exp = exp }

abbrev pub verify : DateTime → String → Result TokenClaims String
verify now token = check_term now (read_claims (read_ones token))

read_claims-sign : (c : TokenClaims) → read_claims (read_ones (sign c)) ≡ c
read_claims-sign c =
    rw (read_ones-ones c.iat (ones c.exp (String.◌∷◌ "." c.sub)))
      (rw (read_ones-ones c.exp c.sub) refl)

abbrev pub toy : Libraries
toy = record {
  uuid_to_string = to_string;
  uuid_parse_str = parse_str;
  timestamp = λ t. pos t;
  add_seconds = λ t n. t + n;
  add_days = λ t n. t + n * 86400;
  argon2_hash_password = λ password salt. ok password;
  password_hash_new = λ hash. ok hash;
  argon2_verify_password = λ password parsed. str_eq parsed password;
  blake3_hex = λ token. token;
  jwt_encode = λ header claims key. ok (sign claims);
  jwt_decode = λ now token key algorithm. verify now token;
}

shift : (t n k : ℕ) → pos t ≡ pos k → pos (t + n) ≡ pos (k + n)
shift t n k e = ground arith

verifies :
    (password salt hash : String)
    → ◌≡◌ {A = Result String String} (ok password) (ok hash)
    → (parsed : String) × (◌≡◌ {A = Result String String} (ok hash) (ok parsed))
      × (str_eq parsed password ≡ true)
verifies password salt hash e =
    let same : password ≡ hash = cc in
    (hash, refl, subst (λ x. str_eq x password ≡ true) same (str_eq_refl password))

pub toy-IsLawful : IsLawful toy
toy-IsLawful = record {
  uuid_parse_str-to_string = parse_str-to_string;
  timestamp-add_seconds = shift;
  verify-hash = verifies;
}

in_term : (t : ℕ) (claims : TokenClaims) → t < claims.exp → check_term t claims ≡ ok claims
in_term t claims before = ground arith

verify-sign :
    (header : Header) (claims : TokenClaims) (token : String) (t : DateTime) (k : ℕ)
    → ◌≡◌ {A = Result String String} (ok (sign claims)) (ok token)
    → pos t ≡ pos k
    → k < claims.exp
    → verify t token ≡ ok claims
verify-sign header claims token t k signed at before =
    let same : sign claims ≡ token = cc in
    let time : t ≡ k = ground arith in
    subst (λ x. verify t x ≡ ok claims) same
      (ap (check_term t) (read_claims-sign claims) ∙ in_term t claims (omega arith))

abbrev pub state : AppState
state = record { jwt_private_key = 1 ∷ []; jwt_public_key = 2 ∷ [] }

pub toy-IsKeyPair : IsKeyPair toy state.jwt_private_key state.jwt_public_key
toy-IsKeyPair = verify-sign

abbrev pub alice : AuthUser
alice = record { user_id = 1 }

abbrev pub account : Uuid → String → User
account id email = record {
  id = id;
  email = email;
  password_hash = "hunter2";
  display_name = none;
  sso_provider = none;
  sso_sub = none;
  created_at = 5;
  updated_at = 5;
}

abbrev pub note : Uuid → Uuid → ℕ → Note
note id user_id version = record {
  id = id;
  user_id = user_id;
  title_cipher = 1 ∷ 2 ∷ [];
  content_cipher = 3 ∷ [];
  nonce = 4 ∷ [];
  version = pos version;
  format = "markdown";
  tags = [];
  created_at = 6;
  updated_at = 6;
  deleted_at = none;
}

abbrev pub token : Uuid → Uuid → String → RefreshToken
token id user_id hash = record {
  id = id;
  user_id = user_id;
  token_hash = hash;
  expires_at = 5000;
  revoked = false;
  created_at = 7;
}

-- Alice (1) has the note 10 and a refresh token, and Bob (2) has the note 20.
abbrev pub store : Memory
store = record {
  tables = record {
    users = account 1 "alice@nyrex.dev" ∷ account 2 "bob@nyrex.dev" ∷ [];
    refresh_tokens = token 30 1 "11." ∷ [];
    notes = note 10 1 3 ∷ note 20 2 8 ∷ [];
    vault_entries = [];
  };
  clock = 1000;
  fresh = 40;
  is_down = false;
}

abbrev pub store_down : Memory
store_down = record store { is_down = true }

all_tokens :
    (r : RefreshToken)
    → In r store.tables.refresh_tokens
    → has_id users r.user_id store.tables ≡ true
all_tokens r (inl e) = rw (ap (λ (x : RefreshToken). x.user_id) e) refl
all_tokens r (inr e) = absurd e

all_notes : (n : Note) → In n store.tables.notes → has_id users n.user_id store.tables ≡ true
all_notes n (inl e) = rw (ap (λ (x : Note). x.user_id) e) refl
all_notes n (inr (inl e)) = rw (ap (λ (x : Note). x.user_id) e) refl
all_notes n (inr (inr e)) = absurd e

pub store-IsWellFormed : IsWellFormed store.tables
store-IsWellFormed = record {
  user_ids = (refl, (refl, tt));
  token_ids = (refl, tt);
  note_ids = (refl, (refl, tt));
  entry_ids = tt;
  emails = (refl, (refl, tt));
  token_owner = all_tokens;
  note_owner = all_notes;
  entry_owner = λ e m. absurd m;
  entry_note = λ e m. absurd m;
}
