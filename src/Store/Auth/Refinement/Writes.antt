-- ===== src/Store/Auth/Refinement/Writes.antt =====
-- crates/store/src/pg/auth.rs: the methods that write, against the registry.
use nyrex.Prelude.{
  ◌≡◌, refl, sym, ap, ◌∙◌, subst, String, true, false, ◌==◌, Option, none, some, map as map_list,
  [], ◌∷◌, ok, err, if◌then◌else◌, inl, inr, Bool-cases, cons-injective_left, arith,
}
use mathlib.Core.Option.{map}
use nyrex.Prelude.Text.{str_eq}
use nyrex.Core.Models.{Uuid, User, RefreshToken}
use nyrex.Effect.Table.{Table, Tables}
use nyrex.Effect.Logic.{Ensures}
use nyrex.Effect.Permits.{Change, either, row_id-Change}
use nyrex.Effect.Schema.{IsWellFormed}
use nyrex.Effect.Schema.Statements.{put_row, changed_rows}
use nyrex.Store.Auth.{
  create_user, store_refresh_token, revoke, revoke_refresh_token, revoke_all_user_tokens,
}
use nyrex.Store.Auth.Spec.{
  create, open_session, close, close_all, registered, SameAccounts, new_user, closed_of, created,
  opened, ended, ended_all, perform,
}
use nyrex.Effect.Schema.Lookup.{first-In, first-none, first-map}
use nyrex.Store.Auth.Directory.{registry}
use nyrex.Store.Auth.Refinement.Lookups.{Kept, failed_Kept}

module _ (d : Tables) (wf : IsWellFormed d) where
  pub open_session-Kept :
      (token : RefreshToken)
      → Ensures (perform (open_session token)) (Kept (open_session token) d) d
  unfolding perform store_refresh_token
  open_session-Kept token = elim [
    | err m ↦ λ d' same. failed_Kept same wf
    | ok rows ↦ λ d' (now, (meets, returned, put)).
        let free =
          first-none (λ (r : RefreshToken). r.id == token.id) d.refresh_tokens (ground arith) in
        (
          opened free (λ i. ap (λ (x : Tables). (registry x).session i) put)
              (λ email. ap (λ (x : Tables). (registry x).account email) put),
          subst IsWellFormed (sym put) (put_row Table.refresh_tokens token d meets wf),
        )
  ]

  pub create-Kept :
      (id : Uuid) (email password_hash : String) (display_name : Option String)
      → Ensures
          (perform (create id email password_hash display_name))
          (Kept (create id email password_hash display_name) d)
          d
  unfolding perform create_user
  create-Kept id email password_hash display_name = elim [
    | err m ↦ λ d' same. failed_Kept same wf
    | ok [] ↦ λ d' (now, (meets, returned, put)). absurd (cc (returned))
    | ok (u ∷ us) ↦ λ d' (now, (meets, returned, put)).
        let free = first-none (λ (u : User). str_eq u.email email) d.users (ground arith) in
        subst
          (λ x. Kept (create id email password_hash display_name) d (some (ok (registered x))) d')
          (sym (cons-injective_left returned))
          (
            created now free refl (λ e. ap (λ (x : Tables). (registry x).account e) put)
                (λ i. ap (λ (x : Tables). (registry x).session i) put),
            subst IsWellFormed (sym put)
                (put_row Table.users (new_user id email password_hash display_name now) d meets wf),
          )
  ]

  -- An update of sessions that keeps their identifiers.
  updated_sessions :
      (g : RefreshToken → RefreshToken)
      → ((r : RefreshToken) → Change Table.refresh_tokens r (g r))
      → (d' : Tables) → d' ≡ record d { refresh_tokens = map_list g d.refresh_tokens }
      → ((i : Uuid) → (registry d').session i ≡ map g ((registry d).session i))
        × SameAccounts (registry d) (registry d')
        × IsWellFormed d'
  updated_sessions g changes d' put = (
    λ i.
        ap (λ (x : Tables). (registry x).session i) put
        ∙ first-map (λ (r : RefreshToken). r.id == i) g
            (λ r. ap (λ k. k == i) (row_id-Change Table.refresh_tokens r (g r) (changes r)))
            d.refresh_tokens,
    λ email. ap (λ (x : Tables). (registry x).account email) put,
    subst IsWellFormed (sym put) (changed_rows Table.refresh_tokens g d changes wf),
  )

  close_one :
      (token_id i : Uuid) (o : Option RefreshToken)
      → (registry d).session i ≡ o
      → map (λ r. if r.id == token_id then revoke r else r) o
        ≡ (if token_id == i then map revoke o else o)
  close_one token_id i none e = ground arith
  close_one token_id i (some r) e =
      let (m, here) = first-In (λ (r : RefreshToken). r.id == i) d.refresh_tokens r e in
      elim (Bool-cases (token_id == i)) [
        | inl same ↦ let hit : (r.id == token_id) ≡ true = ground arith in rw (same, hit) refl
        | inr other ↦ let miss : (r.id == token_id) ≡ false = ground arith in rw (other, miss) refl
      ]

  pub close-Kept :
      (token_id : Uuid) → Ensures (perform (close token_id)) (Kept (close token_id) d) d
  unfolding perform revoke_refresh_token
  close-Kept token_id = elim [
    | err m ↦ λ d' same. failed_Kept same wf
    | ok rows ↦ λ d' (now, (hit, put)).
        let changes = either Table.refresh_tokens (λ r. r.id == token_id) revoke (λ r. inr refl) in
        let (sessions, accounts, fine) =
          updated_sessions (λ r. if r.id == token_id then revoke r else r) changes d' put in
        (
          ended (λ i. sessions i ∙ close_one token_id i ((registry d).session i) refl) accounts,
          fine,
        )
  ]

  pub close_all-Kept :
      (user_id : Uuid) → Ensures (perform (close_all user_id)) (Kept (close_all user_id) d) d
  unfolding perform revoke_all_user_tokens
  close_all-Kept user_id = elim [
    | err m ↦ λ d' same. failed_Kept same wf
    | ok rows ↦ λ d' (now, (hit, put)).
        let changes =
          either Table.refresh_tokens (λ r. r.user_id == user_id) revoke (λ r. inr refl) in
        let (sessions, accounts, fine) = updated_sessions (closed_of user_id) changes d' put in
        (ended_all sessions accounts, fine)
  ]
