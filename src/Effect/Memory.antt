-- ===== src/Effect/Memory.antt =====
-- A database in memory that carries out each statement, unless it is down: a host that meets
-- `IsPostgres`, for runs on concrete data.
use mathlib.Core.List.Permᴰ
use nyrex.Prelude.{
  ℕ, ◌+◌, ◌≤◌, ◌≡◌, refl, String, Bool, true, false, List, [], ◌∷◌, map, Permᴰ, ok, err, filter,
  All, All-perm, replicate, if◌then◌else◌, ltb, ◌==◌, arith, Bool-cases, inl, inr,
}
use nyrex.Core.Models.{DateTime}
use nyrex.Effect.Table.{Table, Row, row_id, Tables, get_table, put_table, has_id, meets_constraints}
use nyrex.Effect.Statement.{Statement, select, select_desc, insert, upsert, update, Rows}
use nyrex.Effect.Program.{Request, sql, utc_now, new_v4, generate_salt, generate_nonce, Reply}
use nyrex.Effect.Host.{Host, Executed, IsPostgres, IsDescending}

-- `fresh` is the next random value.
pub record Memory : Type 0 where
  pub tables : Tables
  pub clock : DateTime
  pub fresh : ℕ
  pub is_down : Bool

module _ {A : Type 0} (key : A → DateTime) where
  place : A → List A → List A
  place r [] = r ∷ []
  place r (x ∷ xs) = if ltb (key r) (key x) then x ∷ place r xs else r ∷ x ∷ xs

  unfoldable pub sort_desc : List A → List A
  unfolding place
  sort_desc [] = []
  sort_desc (r ∷ rs) = place r (sort_desc rs)

  place-perm : (r : A) (xs : List A) → Permᴰ (place r xs) (r ∷ xs)
  unfolding place
  place-perm r [] = Permᴰ.refl (r ∷ [])
  place-perm r (x ∷ xs) = elim (Bool-cases (ltb (key r) (key x))) [
    | inl e ↦ rw e (Permᴰ.trans (Permᴰ.cons refl (place-perm r xs)) (Permᴰ.swap refl refl))
    | inr e ↦ rw e (Permᴰ.refl (r ∷ x ∷ xs))
  ]

  sort_desc-perm : (rs : List A) → Permᴰ (sort_desc rs) rs
  unfolding sort_desc
  sort_desc-perm [] = Permᴰ.refl []
  sort_desc-perm (r ∷ rs) =
      Permᴰ.trans (place-perm r (sort_desc rs)) (Permᴰ.cons refl (sort_desc-perm rs))

  All-le :
      (r x : A) (xs : List A)
      → key x ≤ key r
      → All (λ y. key y ≤ key x) xs
      → All (λ y. key y ≤ key r) xs
  All-le r x [] le h = tt
  All-le r x (y ∷ ys) le h = (omega arith, All-le r x ys le h.1)

  place-IsDescending : (r : A) (xs : List A) → IsDescending key xs → IsDescending key (place r xs)
  unfolding place
  place-IsDescending r [] h = (tt, tt)
  place-IsDescending r (x ∷ xs) h = elim (Bool-cases (ltb (key r) (key x))) [
    | inl e ↦ rw e (
      All-perm (λ y. key y ≤ key x) (place-perm r xs) (ground arith, h.0),
      place-IsDescending r xs h.1,
    )
    | inr e ↦ rw e ((ground arith, All-le r x xs (ground arith) h.0), h)
  ]

  sort_desc-IsDescending : (rs : List A) → IsDescending key (sort_desc rs)
  unfolding sort_desc
  sort_desc-IsDescending [] = tt
  sort_desc-IsDescending (r ∷ rs) = place-IsDescending r (sort_desc rs) (sort_desc-IsDescending rs)

abbrev pub violated : String
violated = "duplicate key value violates unique constraint"

abbrev pub inserted : (t : Table) → Bool → Row t → Tables → Rows t × Tables
inserted t true row d = (ok (row ∷ []), put_table t (row ∷ get_table t d) d)
inserted t false row d = (err violated, d)

abbrev pub upserted :
    (t : Table) → Bool → (Row t → Row t → Row t) → Row t → Tables → Rows t × Tables
upserted t true set row d = (
  ok [],
  put_table t (map (λ r. if row_id t r == row_id t row then set r row else r) (get_table t d)) d,
)
upserted t false set row d = inserted t (meets_constraints t row d) row d

unfoldable pub carry_out : {t : Table} → Statement t → DateTime → Tables → Rows t × Tables
unfolding sort_desc
carry_out {t} (select w) now d = (ok (filter (w now) (get_table t d)), d)
carry_out {t} (select_desc w key) now d = (ok (sort_desc key (filter (w now) (get_table t d))), d)
carry_out {t} (insert row) now d = inserted t (meets_constraints t (row now) d) (row now) d
carry_out {t} (upsert row set) now d =
    upserted t (has_id t (row_id t (row now)) d) (set now) (row now) d
carry_out {t} (update w set) now d = (
  ok (map (set now) (filter w (get_table t d))),
  put_table t (map (λ r. if w r then set now r else r) (get_table t d)) d,
)

insert-Executed :
    (t : Table) (row : DateTime → Row t) (now : DateTime) (d : Tables)
    → let (r, d') = inserted t (meets_constraints t (row now) d) (row now) d in
      Executed (insert row) d r d'
insert-Executed t row now d = elim (Bool-cases (meets_constraints t (row now) d)) [
  | inl e ↦ rw e (now, (e, refl, refl))
  | inr e ↦ rw e refl
]

upsert-Executed :
    (t : Table) (row : DateTime → Row t) (set : DateTime → Row t → Row t → Row t) (now : DateTime)
    (d : Tables)
    → let (r, d') = upserted t (has_id t (row_id t (row now)) d) (set now) (row now) d in
      Executed (upsert row set) d r d'
upsert-Executed t row set now d = elim (Bool-cases (has_id t (row_id t (row now)) d)) [
  | inl e ↦ rw e (now, rw e refl)
  | inr e ↦ rw e (elim (Bool-cases (meets_constraints t (row now) d)) [
    | inl c ↦ rw c (now, rw e (c, refl))
    | inr c ↦ rw c refl
  ])
]

carry_out-Executed :
    {t : Table} (q : Statement t) (now : DateTime) (d : Tables)
    → let (r, d') = carry_out q now d in Executed q d r d'
unfolding carry_out
carry_out-Executed (select w) now d = (now, (Permᴰ.refl _, refl))
carry_out-Executed {t} (select_desc w key) now d =
    let found = filter (w now) (get_table t d) in
    (now, (sort_desc-perm key found, sort_desc-IsDescending key found, refl))
carry_out-Executed {t} (insert row) now d = insert-Executed t row now d
carry_out-Executed {t} (upsert row set) now d = upsert-Executed t row set now d
carry_out-Executed (update w set) now d = (now, (Permᴰ.refl _, refl))

abbrev pub reply_sql : {t : Table} → Statement t → Bool → Memory → Rows t × Memory
reply_sql q true s = (err "connection refused", s)
reply_sql q false s =
    let (r, d) = carry_out q s.clock s.tables in (r, record s { tables = d; clock = s.clock + 1 })

unfoldable pub reply : (q : Request) → Memory → Reply q × Memory
unfolding carry_out
reply (sql q) s = reply_sql q s.is_down s
reply utc_now s = (s.clock, s)
reply new_v4 s = (s.fresh, record s { fresh = s.fresh + 1 })
reply generate_salt s = ("c2FsdA", s)
reply generate_nonce s = (replicate 12 s.fresh, record s { fresh = s.fresh + 1 })

abbrev pub memory : Host
memory = record { State = Memory; answer = reply }

reply_sql-Executed :
    {t : Table} (q : Statement t) (b : Bool) (s : Memory)
    → let (r, s') = reply_sql q b s in Executed q s.tables r s'.tables
reply_sql-Executed q true s = refl
reply_sql-Executed q false s = carry_out-Executed q s.clock s.tables

pub reply-Executed :
    {t : Table} (q : Statement t) (s : Memory)
    → let (r, s') = reply (sql q) s in Executed q s.tables r s'.tables
unfolding reply
reply-Executed q s = reply_sql-Executed q s.is_down s

pub utc_now-keeps : (s : Memory) → (reply utc_now s).1.tables ≡ s.tables
unfolding reply
utc_now-keeps s = refl

pub new_v4-keeps : (s : Memory) → (reply new_v4 s).1.tables ≡ s.tables
unfolding reply
new_v4-keeps s = refl

pub generate_salt-keeps : (s : Memory) → (reply generate_salt s).1.tables ≡ s.tables
unfolding reply
generate_salt-keeps s = refl

pub generate_nonce-keeps : (s : Memory) → (reply generate_nonce s).1.tables ≡ s.tables
unfolding reply
generate_nonce-keeps s = refl

abbrev pub memory-IsPostgres : IsPostgres memory
memory-IsPostgres = record {
  tables = λ s. s.tables;
  executes = reply-Executed;
  utc_now-tables = utc_now-keeps;
  new_v4-tables = new_v4-keeps;
  generate_salt-tables = generate_salt-keeps;
  generate_nonce-tables = generate_nonce-keeps;
}
