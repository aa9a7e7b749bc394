-- ===== src/Prelude/Text.antt =====
-- The operations of Rust's `str` that the program calls.
use Prim.Native.Char.{code}
use Prim.Native.Nat.{ℕ, zero, suc}
use Prim.Native.String.{String, ◌++◌ as ◌<>◌}
use text.Mathlib.Text.{◌==◌, starts_with}
use text.Mathlib.TextEquality.{eq_iff}
use text.Mathlib.TextLemmas.{nil-append, cons-append}
use mathlib.Core.Path.{◌≡◌, refl}
use mathlib.Core.Logic.{◌↔◌}
use mathlib.Core.Bool.{Bool, true, ◌||◌, ◌&&◌}
use mathlib.Core.Option.{Option, none, some}
use nyrex.Prelude.Tests.{if◌then◌else◌, ◌==◌ as nat_eq, ==_refl}

-- `a == b` on texts
abbrev pub str_eq : String → String → Bool
str_eq a b = a == b

-- `s.strip_prefix(p)`
unfoldable pub strip_prefix : String → String → Option String
strip_prefix String.[] s = some s
strip_prefix (String.◌∷◌ c p) String.[] = none
strip_prefix (String.◌∷◌ c p) (String.◌∷◌ d s) =
    if nat_eq (code c) (code d) then strip_prefix p s else none

-- `s.contains(t)`
unfoldable pub contains : String → String → Bool
contains String.[] t = starts_with String.[] t
contains (String.◌∷◌ c s) t = starts_with (String.◌∷◌ c s) t || contains s t

abbrev is_blank : String → Bool
is_blank String.[] = true
is_blank (String.◌∷◌ c s) = nat_eq (code c) 32 && is_blank s

-- What a column VARCHAR(n) keeps of a text: PostgreSQL cuts blanks behind the n-th character. It
-- refuses a text with anything else there, whose statement fails.
abbrev pub varchar : ℕ → String → String
varchar zero s = if is_blank s then String.[] else s
varchar (suc n) String.[] = String.[]
varchar (suc n) (String.◌∷◌ c s) = String.◌∷◌ c (varchar n s)

pub str_eq_iff : (a b : String) → (str_eq a b ≡ true) ↔ (a ≡ b)
str_eq_iff = eq_iff

pub str_eq_refl : (a : String) → str_eq a a ≡ true
str_eq_refl a = (eq_iff a a).1 refl

-- A text behind a prefix is what stripping the prefix leaves.
pub strip_prefix-append : (p s : String) → strip_prefix p (p <> s) ≡ some s
unfolding strip_prefix
strip_prefix-append String.[] s = rw (nil-append s)
strip_prefix-append (String.◌∷◌ c p) s =
    rw (cons-append c p s) (rw (==_refl (code c)) (strip_prefix-append p s))
