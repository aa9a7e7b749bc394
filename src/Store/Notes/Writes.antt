-- ===== src/Store/Notes/Writes.antt =====
-- Updates of notes.
use nyrex.Prelude.{
  Bool, true, ◌&&◌, Option, none, some, List, [], ◌∷◌, map, ◌≡◌, refl, ap, ◌∙◌, ok, err, Result,
  inl, inr, In, In-perm, In-filter, In-map, In-map_inv, In-filter_inv, In-perm_first, filter, ◌==◌,
  if◌then◌else◌, Bool-cases,
}
use nyrex.Prelude.Text.{varchar}
use nyrex.Core.Error.{CoreError}
use nyrex.Core.Models.{DateTime, Note}
use nyrex.Effect.Table.{Tables}
use nyrex.Effect.Host.{Host, run, IsPostgres}
use nyrex.Effect.Logic.{Ensures, Ensures-run}
use nyrex.Store.Notes.{update_note}

-- What an update makes of the rows with the note's identifier and owner.
abbrev pub updated : Note → DateTime → Note → Note
updated note now n = record n {
  title_cipher = note.title_cipher;
  content_cipher = note.content_cipher;
  nonce = note.nonce;
  version = note.version;
  format = varchar 20 note.format;
  tags = note.tags;
  updated_at = now;
}

abbrev pub is_target : Note → Note → Bool
is_target note n = n.id == note.id && n.user_id == note.user_id

abbrev pub Updated : Note → Tables → Option (Result Note CoreError) → Tables → Type 0
Updated note d none d' = ⊥
Updated note d (some (ok n)) d' =
    (now : DateTime) × ((old : Note) × In old d.notes
      × (is_target note old ≡ true)
      × (n ≡ updated note now old))
    × (d' ≡ record d {
      notes = map (λ r. if is_target note r then updated note now r else r) d.notes;
    })
Updated note d (some (err e)) d' = d' ≡ d

-- Where no row is hit, an update writes the table back.
map-none :
    (p : Note → Bool) (f : Note → Note) (rows : List Note)
    → ((n : Note) → In n rows → p n ≡ true → ⊥)
    → map (λ r. if p r then f r else r) rows ≡ rows
map-none p f [] none_hit = refl
map-none p f (n ∷ ns) none_hit =
    let rest = map-none p f ns (λ m found. none_hit m (inr found)) in
    elim (Bool-cases (p n)) [
      | inl hit ↦ absurd (none_hit n (inl refl) hit)
      | inr miss ↦ rw (miss, rest)
    ]

module _ (note : Note) (d : Tables) where
  In-updated :
      (now : DateTime) (n : Note) (rows : List Note)
      → In n (map (updated note now) (filter (is_target note) rows))
      → (old : Note) × In old rows × (is_target note old ≡ true) × (n ≡ updated note now old)
  In-updated now n rows m =
      let (old, found, e) = In-map_inv (updated note now) n (filter (is_target note) rows) m in
      let (stands, meets) = In-filter_inv (is_target note) old rows found in (old, stands, meets, e)

  pub update_note-Ensures : Ensures (update_note note) (Updated note d) d
  unfolding update_note
  update_note-Ensures = λ now. (elim [
    | err m ↦ λ d' same. same
    | ok [] ↦ λ d' (at, (hit, done)).
        done
        ∙ ap (λ (rows : List Note). record d { notes = rows })
            (map-none (is_target note) (updated note now) d.notes λ n found meets.
              In-perm (updated note now n) hit (
                In-map (updated note now) n (filter (is_target note) d.notes)
                  (In-filter (is_target note) n d.notes found meets)))
    | ok (n ∷ ns) ↦
        λ d' (at, (hit, done)). (now, In-updated now n d.notes (In-perm_first hit), done)
  ])

-- An update rewrites the ciphertexts, the nonce, the version, the format, the tags and the time of
-- change of the rows with the note's identifier and owner, and returns one of them as it is now; an
-- error, also the one for no such row, leaves the database as it was.
update_note-Updated :
    {h : Host} (p : IsPostgres h) (note : Note) (s : h.State)
    → let (result, s') = run h (update_note note) s in
      Updated note (p.tables s) result (p.tables s')
update_note-Updated p note s =
    Ensures-run p (Updated note (p.tables s)) (update_note note) s
      (update_note-Ensures note (p.tables s))
