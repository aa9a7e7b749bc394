-- ===== src/Effect/Evolution.antt =====
-- How the tables may develop: rows stay, change in the way of their table alone, or are new.
pub mod Statements
use nyrex.Prelude.{
  ◌≡◌, refl, sym, ap, ◌∙◌, subst, ◌⊎◌, inl, inr, Bool, true, false, List, [], ◌∷◌, map, any, ◌==◌,
  ==_iff, Bool-cases, if◌then◌else◌, In, In-map, In-map_inv, any-In, ok, err, arith,
}
use nyrex.Core.Models.{DateTime, User, RefreshToken, Note, VaultEntry}
use nyrex.Effect.Table.{
  Table, users, refresh_tokens, notes, vault_entries, Row, row_id, Tables, get_table, put_table,
  has_id, meets_constraints,
}
use nyrex.Effect.Permits.{Change, Change-refl, row_id-Change}
use nyrex.Effect.Statement.{Statement, select, select_desc, insert, upsert, update, Rows}
use nyrex.Effect.Host.{Executed}

Change-trans : (t : Table) (a b c : Row t) → Change t a b → Change t b c → Change t a c
Change-trans users a b c f g = g ∙ f
Change-trans refresh_tokens a b c (inl e) (inl f) = inl (f ∙ e)
Change-trans refresh_tokens a b c (inl e) (inr f) =
    inr (f ∙ ap (λ (r : RefreshToken). record r { revoked = true }) e)
Change-trans refresh_tokens a b c (inr e) (inl f) = inr (f ∙ e)
Change-trans refresh_tokens a b c (inr e) (inr f) =
    inr (f ∙ ap (λ (r : RefreshToken). record r { revoked = true }) e)
Change-trans notes a b c f g = (g.0 ∙ f.0, g.1 ∙ f.1, g.2 ∙ f.2)
Change-trans vault_entries a b c f g = g ∙ f

-- Every earlier row stands as it has changed, and every later row is a changed one or has an
-- identifier that was free.
pub record Develops (t : Table) (rows rows' : List (Row t)) : Type 0 where
  pub kept : (r : Row t) → In r rows → (r' : Row t) × In r' rows' × Change t r r'
  pub traced :
      (r' : Row t)
      → In r' rows'
      → ((r : Row t) × In r rows × Change t r r')
        ⊎ (any (λ r. row_id t r == row_id t r') rows ≡ false)

Develops-refl : (t : Table) (rows : List (Row t)) → Develops t rows rows
Develops-refl t rows = record {
  kept = λ r m. (r, m, Change-refl t r);
  traced = λ r m. inl (r, m, Change-refl t r);
}

module _ (t : Table) (rows : List (Row t)) where
  -- An identifier that is free after a development was free before it.
  free_before :
      {rows' : List (Row t)}
      → Develops t rows rows'
      → (r'' : Row t) → any (λ r. row_id t r == row_id t r'') rows' ≡ false
      → any (λ r. row_id t r == row_id t r'') rows ≡ false
  free_before {rows'} dev r'' free = none_has rows (λ r m. m)
    where
      none_has :
          (xs : List (Row t))
          → ((r : Row t) → In r xs → In r rows)
          → any (λ r. row_id t r == row_id t r'') xs ≡ false
      none_has [] within = refl
      none_has (x ∷ xs) within =
          let tail = none_has xs (λ r m. within r (inr m)) in
          elim (Bool-cases (row_id t x == row_id t r'')) [
            | inr other ↦ rw (other, tail) refl
            | inl same ↦
                let (x', found, changed) = dev.kept x (within x (inl refl)) in
                let same' : row_id t x' ≡ row_id t r'' =
                  row_id-Change t x x' changed ∙ (==_iff _ _).0 same in
                let taken =
                  any-In (λ r. row_id t r == row_id t r'') x' rows' found ((==_iff _ _).1 same') in
                absurd (ground arith)
          ]

  Develops-trans :
      {rows' rows'' : List (Row t)}
      → Develops t rows rows'
      → Develops t rows' rows''
      → Develops t rows rows''
  Develops-trans dev dev' = record {
    kept = λ r m.
        let (r', m', c) = dev.kept r m in
        let (r'', m'', c') = dev'.kept r' m' in (r'', m'', Change-trans t r r' r'' c c');
    traced = λ r'' m''. elim (dev'.traced r'' m'') [
      | inr free ↦ inr (free_before dev r'' free)
      | inl (r', m', c') ↦ elim (dev.traced r' m') [
        | inl (r, m, c) ↦ inl (r, m, Change-trans t r r' r'' c c')
        | inr free ↦ inr (
            subst (λ i. any (λ r. row_id t r == i) rows ≡ false) (sym (row_id-Change t r' r'' c'))
              free)
      ]
    ];
  }

-- All tables develop.
pub record Evolves (d d' : Tables) : Type 0 where
  pub users : Develops users d.users d'.users
  pub refresh_tokens : Develops refresh_tokens d.refresh_tokens d'.refresh_tokens
  pub notes : Develops notes d.notes d'.notes
  pub vault_entries : Develops vault_entries d.vault_entries d'.vault_entries

pub Evolves-refl : (d : Tables) → Evolves d d
Evolves-refl d = record {
  users = Develops-refl users d.users;
  refresh_tokens = Develops-refl refresh_tokens d.refresh_tokens;
  notes = Develops-refl notes d.notes;
  vault_entries = Develops-refl vault_entries d.vault_entries;
}

pub Evolves-trans : (d e f : Tables) → Evolves d e → Evolves e f → Evolves d f
Evolves-trans d e f a b = record {
  users = Develops-trans users d.users a.users b.users;
  refresh_tokens = Develops-trans refresh_tokens d.refresh_tokens a.refresh_tokens b.refresh_tokens;
  notes = Develops-trans notes d.notes a.notes b.notes;
  vault_entries = Develops-trans vault_entries d.vault_entries a.vault_entries b.vault_entries;
}

-- A development of one table is one of all.
put_table-Evolves :
    (t : Table) (rows : List (Row t)) (d : Tables)
    → Develops t (get_table t d) rows
    → Evolves d (put_table t rows d)
put_table-Evolves users rows d dev = record {
  users = dev;
  refresh_tokens = Develops-refl refresh_tokens d.refresh_tokens;
  notes = Develops-refl notes d.notes;
  vault_entries = Develops-refl vault_entries d.vault_entries;
}
put_table-Evolves refresh_tokens rows d dev = record {
  users = Develops-refl users d.users;
  refresh_tokens = dev;
  notes = Develops-refl notes d.notes;
  vault_entries = Develops-refl vault_entries d.vault_entries;
}
put_table-Evolves notes rows d dev = record {
  users = Develops-refl users d.users;
  refresh_tokens = Develops-refl refresh_tokens d.refresh_tokens;
  notes = dev;
  vault_entries = Develops-refl vault_entries d.vault_entries;
}
put_table-Evolves vault_entries rows d dev = record {
  users = Develops-refl users d.users;
  refresh_tokens = Develops-refl refresh_tokens d.refresh_tokens;
  notes = Develops-refl notes d.notes;
  vault_entries = dev;
}
