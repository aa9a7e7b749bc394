-- ===== src/Effect/Schema.antt =====
-- The constraints that crates/store/migrations declare, as a condition on all tables: primary keys,
-- the unique address, and the references.
pub mod Statements
pub mod Lookup
use nyrex.Prelude.{
  ◌≡◌, refl, sym, ap, ◌∙◌, subst, Bool, true, false, List, [], ◌∷◌, map, any, ◌==◌, ◌||◌, In,
  In-map_inv, inl, inr, arith,
}
use nyrex.Prelude.Text.{str_eq}
use nyrex.Core.Models.{Uuid, User, RefreshToken, Note, VaultEntry}
use nyrex.Effect.Table.{
  Table, users, refresh_tokens, notes, vault_entries, Row, row_id, Tables, has_id,
  meets_constraints,
}

-- No two rows have one identifier.
abbrev pub IsKeyed : (t : Table) → List (Row t) → Type 0
IsKeyed t [] = Unit
IsKeyed t (r ∷ rs) = (any (λ x. row_id t x == row_id t r) rs ≡ false) × IsKeyed t rs

-- No two users have one address.
abbrev pub IsDistinct : List User → Type 0
IsDistinct [] = Unit
IsDistinct (u ∷ us) = (any (λ x. str_eq x.email u.email) us ≡ false) × IsDistinct us

pub record IsWellFormed (d : Tables) : Type 0 where
  pub user_ids : IsKeyed users d.users
  pub token_ids : IsKeyed refresh_tokens d.refresh_tokens
  pub note_ids : IsKeyed notes d.notes
  pub entry_ids : IsKeyed vault_entries d.vault_entries
  pub emails : IsDistinct d.users
  pub token_owner : (r : RefreshToken) → In r d.refresh_tokens → has_id users r.user_id d ≡ true
  pub note_owner : (n : Note) → In n d.notes → has_id users n.user_id d ≡ true
  pub entry_owner : (e : VaultEntry) → In e d.vault_entries → has_id users e.user_id d ≡ true
  pub entry_note : (e : VaultEntry) → In e d.vault_entries → has_id notes e.note_id d ≡ true

any-map :
    {A : Type 0} (f : A → Bool) (g : A → A)
    → ((a : A) → f (g a) ≡ f a)
    → (xs : List A) → any f (map g xs) ≡ any f xs
any-map f g same [] = refl
any-map f g same (x ∷ xs) = rw (same x, any-map f g same xs)

module _ (t : Table) (g : Row t → Row t) (ids : (r : Row t) → row_id t (g r) ≡ row_id t r) where
  has_id-map :
      (i : Uuid) (rows : List (Row t))
      → any (λ r. row_id t r == i) (map g rows) ≡ any (λ r. row_id t r == i) rows
  has_id-map i rows = any-map (λ r. row_id t r == i) g (λ r. ap (λ k. k == i) (ids r)) rows

  IsKeyed-map : (rows : List (Row t)) → IsKeyed t rows → IsKeyed t (map g rows)
  IsKeyed-map [] k = tt
  IsKeyed-map (r ∷ rs) k = (
    subst (λ i. any (λ x. row_id t x == i) (map g rs) ≡ false) (sym (ids r))
        (has_id-map (row_id t r) rs ∙ k.0),
    IsKeyed-map rs k.1,
  )

-- What a new row meets keeps all constraints.
module _ (d : Tables) (wf : IsWellFormed d) where
  new_user :
      (u : User)
      → meets_constraints users u d ≡ true
      → IsWellFormed (record d { users = u ∷ d.users })
  new_user u meets = record {
    user_ids = (ground arith, wf.user_ids);
    token_ids = wf.token_ids;
    note_ids = wf.note_ids;
    entry_ids = wf.entry_ids;
    emails = (ground arith, wf.emails);
    token_owner = λ r m. let old = wf.token_owner r m in ground arith;
    note_owner = λ n m. let old = wf.note_owner n m in ground arith;
    entry_owner = λ e m. let old = wf.entry_owner e m in ground arith;
    entry_note = wf.entry_note;
  }

  new_token :
      (r : RefreshToken)
      → meets_constraints refresh_tokens r d ≡ true
      → IsWellFormed (record d { refresh_tokens = r ∷ d.refresh_tokens })
  new_token r meets = record {
    user_ids = wf.user_ids;
    token_ids = (ground arith, wf.token_ids);
    note_ids = wf.note_ids;
    entry_ids = wf.entry_ids;
    emails = wf.emails;
    token_owner = λ x. elim [
      | inl e ↦ subst (λ (y : RefreshToken). has_id users y.user_id d ≡ true) (sym e) (ground arith)
      | inr m ↦ wf.token_owner x m
    ];
    note_owner = wf.note_owner;
    entry_owner = wf.entry_owner;
    entry_note = wf.entry_note;
  }

  new_note :
      (n : Note)
      → meets_constraints notes n d ≡ true
      → IsWellFormed (record d { notes = n ∷ d.notes })
  new_note n meets = record {
    user_ids = wf.user_ids;
    token_ids = wf.token_ids;
    note_ids = (ground arith, wf.note_ids);
    entry_ids = wf.entry_ids;
    emails = wf.emails;
    token_owner = wf.token_owner;
    note_owner = λ x. elim [
      | inl e ↦ subst (λ (y : Note). has_id users y.user_id d ≡ true) (sym e) (ground arith)
      | inr m ↦ wf.note_owner x m
    ];
    entry_owner = wf.entry_owner;
    entry_note = λ e m. let old = wf.entry_note e m in ground arith;
  }

  new_entry :
      (e : VaultEntry)
      → meets_constraints vault_entries e d ≡ true
      → IsWellFormed (record d { vault_entries = e ∷ d.vault_entries })
  new_entry e meets = record {
    user_ids = wf.user_ids;
    token_ids = wf.token_ids;
    note_ids = wf.note_ids;
    entry_ids = (ground arith, wf.entry_ids);
    emails = wf.emails;
    token_owner = wf.token_owner;
    note_owner = wf.note_owner;
    entry_owner = λ x. elim [
      | inl c ↦ subst (λ (y : VaultEntry). has_id users y.user_id d ≡ true) (sym c) (ground arith)
      | inr m ↦ wf.entry_owner x m
    ];
    entry_note = λ x. elim [
      | inl c ↦ subst (λ (y : VaultEntry). has_id notes y.note_id d ≡ true) (sym c) (ground arith)
      | inr m ↦ wf.entry_note x m
    ];
  }
