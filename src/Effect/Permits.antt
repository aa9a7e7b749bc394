-- ===== src/Effect/Permits.antt =====
-- What the statements of a program may do to rows that stand in a table.
use nyrex.Prelude.{◌≡◌, refl, ap, ◌⊎◌, inl, inr, Bool, true, if◌then◌else◌, Bool-cases}
use nyrex.Core.Models.{DateTime, User, RefreshToken, VaultEntry}
use nyrex.Effect.Table.{Table, users, refresh_tokens, notes, vault_entries, Row, row_id}
use nyrex.Effect.Statement.{Statement, select, select_desc, insert, upsert, update}
use nyrex.Effect.Program.{Program}
use nyrex.Effect.Only.{Only}

-- Users and attachments never change; a token is at most revoked; a note keeps its identifier, its
-- owner and the time of its creation.
abbrev pub Change : (t : Table) → Row t → Row t → Type 0
Change users old new = new ≡ old
Change refresh_tokens old new = (new ≡ old) ⊎ (new ≡ record old { revoked = true })
Change notes old new =
    (new.id ≡ old.id) × (new.user_id ≡ old.user_id) × (new.created_at ≡ old.created_at)
Change vault_entries old new = new ≡ old

pub Change-refl : (t : Table) (r : Row t) → Change t r r
Change-refl users r = refl
Change-refl refresh_tokens r = inl refl
Change-refl notes r = (refl, refl, refl)
Change-refl vault_entries r = refl

pub row_id-Change : (t : Table) (old new : Row t) → Change t old new → row_id t new ≡ row_id t old
row_id-Change users old new e = ap (λ (r : User). r.id) e
row_id-Change refresh_tokens old new (inl e) = ap (λ (r : RefreshToken). r.id) e
row_id-Change refresh_tokens old new (inr e) = ap (λ (r : RefreshToken). r.id) e
row_id-Change notes old new e = e.0
row_id-Change vault_entries old new e = ap (λ (r : VaultEntry). r.id) e

-- A change of the rows that meet a condition is a change of all.
pub either :
    (t : Table) (w : Row t → Bool) (set : Row t → Row t)
    → ((r : Row t) → Change t r (set r))
    → (r : Row t) → Change t r (if w r then set r else r)
either t w set changes r = elim (Bool-cases (w r)) [
  | inl e ↦ rw e (changes r)
  | inr e ↦ rw e (Change-refl t r)
]

-- What a statement may do to a row that stands in the table.
abbrev pub Permitted : (t : Table) → Statement t → Type 0
Permitted t (select w) = Unit
Permitted t (select_desc w key) = Unit
Permitted t (insert row) = Unit
Permitted t (upsert row set) = (now : DateTime) (old new : Row t) → Change t old (set now old new)
Permitted t (update w set) = (now : DateTime) (old : Row t) → Change t old (set now old)

-- All statements of a program are permitted, whatever the replies are.
abbrev pub Permits : {A : Type 0} → Program A → Type 0
Permits m = Only Permitted m
