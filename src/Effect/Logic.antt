-- ===== src/Effect/Logic.antt =====
-- What a program ensures, whatever PostgreSQL answers within its documentation: one proof covers
-- every host. `Ensures` follows the requests of the program, and keeps only the tables.
use mathlib.Core.Option.{map}
use nyrex.Prelude.{Option, none, some, subst, sym}
use nyrex.Core.Models.{Uuid, DateTime, Bytes}
use nyrex.Prelude.{String, ◌≡◌, refl}
use nyrex.Effect.Handler.{awaiting, lifted}
use nyrex.Effect.Table.{Tables}
use nyrex.Effect.Statement.{Rows}
use nyrex.Effect.Program.{
  sql, utc_now, new_v4, generate_salt, generate_nonce, Program, done, panic, ask, ◌>>=◌,
}
use nyrex.Effect.Host.{Host, run, Executed, IsPostgres}

-- `Q` holds of the result, `none` for a panic, and of the tables at the end.
abbrev pub Ensures : {A : Type 0} → Program A → (Option A → Tables → Type 0) → Tables → Type 0
Ensures (done a) Q d = Q (some a) d
Ensures panic Q d = Q none d
Ensures (ask (sql {t} q) k) Q d =
    (r : Rows t) (d' : Tables) → Executed q d r d' → Ensures (k r) Q d'
Ensures (ask utc_now k) Q d = (now : DateTime) → Ensures (k now) Q d
Ensures (ask new_v4 k) Q d = (id : Uuid) → Ensures (k id) Q d
Ensures (ask generate_salt k) Q d = (salt : String) → Ensures (k salt) Q d
Ensures (ask generate_nonce k) Q d = (nonce : Bytes) → Ensures (k nonce) Q d

module _ {h : Host} (p : IsPostgres h) {A : Type 0} (Q : Option A → Tables → Type 0) where
  -- What a program ensures holds of its run on every host.
  pub Ensures-run :
      (m : Program A) (s : h.State)
      → Ensures m Q (p.tables s)
      → Q (run h m s).0 (p.tables (run h m s).1)
  Ensures-run (done a) s w = w
  Ensures-run panic s w = w
  Ensures-run (ask (sql {t} q) k) s w =
      let (r, s') = h.answer (sql q) s in Ensures-run (k r) s' (w r (p.tables s') (p.executes q s))
  Ensures-run (ask utc_now k) s w =
      let (r, s') = h.answer utc_now s in
      Ensures-run (k r) s' (subst (Ensures (k r) Q) (sym (p.utc_now-tables s)) (w r))
  Ensures-run (ask new_v4 k) s w =
      let (r, s') = h.answer new_v4 s in
      Ensures-run (k r) s' (subst (Ensures (k r) Q) (sym (p.new_v4-tables s)) (w r))
  Ensures-run (ask generate_salt k) s w =
      let (r, s') = h.answer generate_salt s in
      Ensures-run (k r) s' (subst (Ensures (k r) Q) (sym (p.generate_salt-tables s)) (w r))
  Ensures-run (ask generate_nonce k) s w =
      let (r, s') = h.answer generate_nonce s in
      Ensures-run (k r) s' (subst (Ensures (k r) Q) (sym (p.generate_nonce-tables s)) (w r))

-- The result of a part decides how the whole goes on.
abbrev pub Next :
    {A B : Type 0} → (A → Program B) → (Option B → Tables → Type 0) → Option A → Tables → Type 0
Next f Q none d = Q none d
Next f Q (some a) d = Ensures (f a) Q d

module _ {A B : Type 0} (f : A → Program B) (Q : Option B → Tables → Type 0) where
  -- A sequence ensures what its first part ensures of the second.
  pub Ensures-bind : (m : Program A) (d : Tables) → Ensures m (Next f Q) d → Ensures (m >>= f) Q d
  Ensures-bind (done a) d w = w
  Ensures-bind panic d w = w
  Ensures-bind (ask (sql {t} q) k) d w = λ r d' e. Ensures-bind (k r) d' (w r d' e)
  Ensures-bind (ask utc_now k) d w = λ r. Ensures-bind (k r) d (w r)
  Ensures-bind (ask new_v4 k) d w = λ r. Ensures-bind (k r) d (w r)
  Ensures-bind (ask generate_salt k) d w = λ r. Ensures-bind (k r) d (w r)
  Ensures-bind (ask generate_nonce k) d w = λ r. Ensures-bind (k r) d (w r)

module _ {A : Type 0} {P Q : Option A → Tables → Type 0} where
  -- A program ensures what follows from what it ensures.
  pub Ensures-mono :
      ((a : Option A) (d : Tables) → P a d → Q a d)
      → (m : Program A) (d : Tables) → Ensures m P d
      → Ensures m Q d
  Ensures-mono weaker (done a) d w = weaker (some a) d w
  Ensures-mono weaker panic d w = weaker none d w
  Ensures-mono weaker (ask (sql {t} q) k) d w = λ r d' e. Ensures-mono weaker (k r) d' (w r d' e)
  Ensures-mono weaker (ask utc_now k) d w = λ r. Ensures-mono weaker (k r) d (w r)
  Ensures-mono weaker (ask new_v4 k) d w = λ r. Ensures-mono weaker (k r) d (w r)
  Ensures-mono weaker (ask generate_salt k) d w = λ r. Ensures-mono weaker (k r) d (w r)
  Ensures-mono weaker (ask generate_nonce k) d w = λ r. Ensures-mono weaker (k r) d (w r)

-- Awaiting a program runs it, and its value is a success.
pub run-awaiting :
    (h : Host) {A E : Type 0} (m : Program A) (s : h.State)
    → run h (awaiting {E = E} m) s ≡ lifted (run h m s)
run-awaiting h (done a) s = refl
run-awaiting h panic s = refl
run-awaiting h (ask q k) s = let (r, s') = h.answer q s in run-awaiting h (k r) s'

-- A program whose result is mapped.
pub run-mapped :
    (h : Host) {A B : Type 0} (f : A → B) (m : Program A) (s : h.State)
    → run h (m >>= λ a. done (f a)) s ≡ (map f (run h m s).0, (run h m s).1)
run-mapped h f (done a) s = refl
run-mapped h f panic s = refl
run-mapped h f (ask q k) s = let (r, s') = h.answer q s in run-mapped h f (k r) s'
