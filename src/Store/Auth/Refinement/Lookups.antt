-- ===== src/Store/Auth/Refinement/Lookups.antt =====
-- crates/store/src/pg/auth.rs: `get_user_by_email` and `get_valid_refresh_token`, against the registry.
use nyrex.Prelude.{
  ◌≡◌, refl, sym, ap, subst, String, Bool, true, ◌&&◌, not, ltb, ◌==◌, ==_iff, Option, none, some,
  List, Permᴰ, Option-cases, filter, [], ◌∷◌, Result, ok, err, inl, inr, In, In-perm, In-filter,
  found-All, arith,
}
use nyrex.Prelude.Text.{str_eq, str_eq_iff, str_eq_refl}
use nyrex.Core.Error.{CoreError}
use nyrex.Core.Models.{DateTime, User, RefreshToken}
use nyrex.Effect.Table.{Table, Tables}
use nyrex.Effect.Logic.{Ensures}
use nyrex.Effect.Schema.{IsWellFormed}
use nyrex.Effect.Calls
use nyrex.Effect.Calls.{AllKept, perform_all, perform_all-Ensures}
use nyrex.Store.Auth.{get_user_by_email, get_valid_refresh_token}
use nyrex.Store.Auth.Spec.{
  Op, find, find_session, Reply, Same, Finds, Behaves, failed, found, checked, perform,
}
use nyrex.Effect.Schema.Lookup.{first-In, In-first, IsKeyed-unique, IsDistinct-unique}
use nyrex.Store.Auth.Directory.{registry}

abbrev pub Kept : Op → Tables → Option (Result Reply CoreError) → Tables → Type 0
Kept op d r d' = Calls.Kept Behaves registry op d r d'

pub unchanged : {d d' : Tables} → d' ≡ d → Same (registry d) (registry d')
unchanged same = (
  λ email. ap (λ (x : Tables). (registry x).account email) same,
  λ i. ap (λ (x : Tables). (registry x).session i) same,
)

pub still_fine : {d d' : Tables} → d' ≡ d → IsWellFormed d → IsWellFormed d'
still_fine same wf = subst IsWellFormed (sym same) wf

pub failed_Kept :
    {op : Op} {e : CoreError} {d d' : Tables}
    → d' ≡ d
    → IsWellFormed d
    → Kept op d (some (err e)) d'
failed_Kept same wf = (failed (unchanged same), still_fine same wf)

module _ (d : Tables) (wf : IsWellFormed d) where
  account-In : (u : User) → In u d.users → (registry d).account u.email ≡ some u
  account-In u m =
      In-first (λ (x : User). str_eq x.email u.email) d.users u m (str_eq_refl u.email)
        (λ b n e. IsDistinct-unique d.users b u wf.emails n m ((str_eq_iff _ _).0 e))

  session-In : (r : RefreshToken) → In r d.refresh_tokens → (registry d).session r.id ≡ some r
  session-In r m =
      In-first (λ (x : RefreshToken). x.id == r.id) d.refresh_tokens r m ((==_iff _ _).1 refl)
        (λ b n e.
          IsKeyed-unique Table.refresh_tokens d.refresh_tokens b r wf.token_ids n m
            ((==_iff _ _).0 e))

  -- No account was found, or the one that was.
  none_found :
      (email : String)
      → Permᴰ [] (filter (λ u. str_eq u.email email) d.users)
      → none ≡ (registry d).account email
  none_found email hit = elim (Option-cases ((registry d).account email)) [
    | inl e ↦ sym e
    | inr (u, e) ↦
        let p : User → Bool = λ u. str_eq u.email email in
        let (m, good) = first-In p d.users u e in
        absurd (In-perm u hit (In-filter p u d.users m good))
  ]

  one_found :
      (email : String) (u : User) {us : List User}
      → Permᴰ (u ∷ us) (filter (λ u. str_eq u.email email) d.users)
      → some u ≡ (registry d).account email
  one_found email u hit =
      let (m, good) = (found-All (λ (u : User). str_eq u.email email) d.users hit).0 in
      sym (subst (λ e. (registry d).account e ≡ some u) ((str_eq_iff _ _).0 good) (account-In u m))

  pub find-Kept : (email : String) → Ensures (perform (find email)) (Kept (find email) d) d
  unfolding perform get_user_by_email
  find-Kept email = elim [
    | err m ↦ λ d' same. failed_Kept same wf
    | ok [] ↦
        λ d' (now, (hit, same)). (found (none_found email hit) (unchanged same), still_fine same wf)
    | ok (u ∷ us) ↦ λ d' (now, (hit, same)).
        (found (one_found email u hit) (unchanged same), still_fine same wf)
  ]

  abbrev valid : String → DateTime → RefreshToken → Bool
  valid token_hash now r = str_eq r.token_hash token_hash && (not r.revoked && ltb now r.expires_at)

  none_open :
      (token_hash : String) (now : DateTime)
      → Permᴰ [] (filter (valid token_hash now) d.refresh_tokens)
      → Finds (registry d) token_hash now none
  none_open token_hash now hit r (stands, same_hash, alive, later) =
      let (m, same_id) = first-In (λ (x : RefreshToken). x.id == r.id) d.refresh_tokens r stands in
      let good : valid token_hash now r ≡ true =
        rw ((str_eq_iff _ _).1 same_hash) (rw alive (ground arith)) in
      In-perm r hit (In-filter (valid token_hash now) r d.refresh_tokens m good)

  one_open :
      (token_hash : String) (now : DateTime) (r : RefreshToken) {rs : List RefreshToken}
      → Permᴰ (r ∷ rs) (filter (valid token_hash now) d.refresh_tokens)
      → Finds (registry d) token_hash now (some r)
  one_open token_hash now r hit =
      let (m, good) = (found-All (valid token_hash now) d.refresh_tokens hit).0 in
      let same_hash : str_eq r.token_hash token_hash ≡ true = ground arith in
      (session-In r m, (str_eq_iff _ _).0 same_hash, ground arith, ground arith)

  pub find_session-Kept :
      (token_hash : String)
      → Ensures (perform (find_session token_hash)) (Kept (find_session token_hash) d) d
  unfolding perform get_valid_refresh_token
  find_session-Kept token_hash = elim [
    | err m ↦ λ d' same. failed_Kept same wf
    | ok [] ↦ λ d' (now, (hit, same)).
        (checked now (none_open token_hash now hit) (unchanged same), still_fine same wf)
    | ok (r ∷ rs) ↦ λ d' (now, (hit, same)).
        (checked now (one_open token_hash now r hit) (unchanged same), still_fine same wf)
  ]
