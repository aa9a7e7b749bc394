-- ===== src/Effect/Schema/Statements.antt =====
-- New rows that meet the constraints and permitted changes of rows keep them.
use nyrex.Prelude.{◌≡◌, refl, sym, ap, ◌∙◌, subst, true, List, [], ◌∷◌, map, inl, inr, In-map_inv}
use nyrex.Core.Models.{RefreshToken, Note}
use nyrex.Effect.Table.{
  Table, users, refresh_tokens, notes, vault_entries, Row, Tables, get_table, put_table, has_id,
  meets_constraints,
}
use nyrex.Effect.Permits.{Change, row_id-Change}
use nyrex.Effect.Schema.{
  IsWellFormed, IsKeyed-map, has_id-map, new_user, new_token, new_note, new_entry,
}

map_same : {A : Type 0} (g : A → A) → ((a : A) → g a ≡ a) → (xs : List A) → map g xs ≡ xs
map_same g same [] = refl
map_same g same (x ∷ xs) = rw (same x, map_same g same xs)

user_id-Change : (a b : RefreshToken) → Change refresh_tokens a b → b.user_id ≡ a.user_id
user_id-Change a b (inl e) = ap (λ (r : RefreshToken). r.user_id) e
user_id-Change a b (inr e) = ap (λ (r : RefreshToken). r.user_id) e

pub put_row :
    (t : Table) (row : Row t) (d : Tables)
    → meets_constraints t row d ≡ true
    → IsWellFormed d
    → IsWellFormed (put_table t (row ∷ get_table t d) d)
put_row users row d meets wf = new_user d wf row meets
put_row refresh_tokens row d meets wf = new_token d wf row meets
put_row notes row d meets wf = new_note d wf row meets
put_row vault_entries row d meets wf = new_entry d wf row meets

pub changed_rows :
    (t : Table) (g : Row t → Row t) (d : Tables)
    → ((r : Row t) → Change t r (g r))
    → IsWellFormed d
    → IsWellFormed (put_table t (map g (get_table t d)) d)
changed_rows users g d c wf =
    subst (λ rows. IsWellFormed (record d { users = rows })) (sym (map_same g c d.users)) wf
changed_rows vault_entries g d c wf =
    subst (λ rows. IsWellFormed (record d { vault_entries = rows }))
      (sym (map_same g c d.vault_entries)) wf
changed_rows refresh_tokens g d c wf = record {
  user_ids = wf.user_ids;
  token_ids =
      IsKeyed-map refresh_tokens g (λ r. row_id-Change refresh_tokens r (g r) (c r))
        d.refresh_tokens wf.token_ids;
  note_ids = wf.note_ids;
  entry_ids = wf.entry_ids;
  emails = wf.emails;
  token_owner = λ r m.
      let (a, found, e) = In-map_inv g r d.refresh_tokens m in
      let same : r.user_id ≡ a.user_id =
        ap (λ (x : RefreshToken). x.user_id) e ∙ user_id-Change a (g a) (c a) in
      subst (λ i. has_id users i d ≡ true) (sym same) (wf.token_owner a found);
  note_owner = wf.note_owner;
  entry_owner = wf.entry_owner;
  entry_note = wf.entry_note;
}
changed_rows notes g d c wf = record {
  user_ids = wf.user_ids;
  token_ids = wf.token_ids;
  note_ids = IsKeyed-map notes g (λ r. (c r).0) d.notes wf.note_ids;
  entry_ids = wf.entry_ids;
  emails = wf.emails;
  token_owner = wf.token_owner;
  note_owner = λ n m.
      let (a, found, e) = In-map_inv g n d.notes m in
      let same : n.user_id ≡ a.user_id = ap (λ (x : Note). x.user_id) e ∙ (c a).1 in
      subst (λ i. has_id users i d ≡ true) (sym same) (wf.note_owner a found);
  entry_owner = wf.entry_owner;
  entry_note = λ e m. has_id-map notes g (λ r. (c r).0) e.note_id d.notes ∙ wf.entry_note e m;
}
