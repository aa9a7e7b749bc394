-- ===== src/Effect/Clock.antt =====
-- What a program ensures when the times it meets are of certain kinds: those that it reads from the
-- clock, and those at which the database carries out its statements. The rest is as in `Effect.Logic`.
use nyrex.Prelude.{Option, none, some, subst, sym, ◌≡◌, String, ok, err}
use nyrex.Core.Models.{Uuid, DateTime, Bytes}
use nyrex.Effect.Table.{Table, Tables}
use nyrex.Effect.Statement.{Statement, Rows}
use nyrex.Effect.Program.{
  sql, utc_now, new_v4, generate_salt, generate_nonce, Program, done, panic, ask,
}
use nyrex.Effect.Host.{Host, run, CarriedOut, Executed, IsPostgres}
use nyrex.Effect.Logic.{Ensures}

abbrev pub Anytime : DateTime → Type 0
Anytime now = Unit {0}

-- A statement's reply and the contents after it are those of a time of the kind, or it failed.
abbrev pub ExecutedAt :
    (S : DateTime → Type 0) {t : Table} → Statement t → Tables → Rows t → Tables → Type 0
ExecutedAt S q d (ok rows) d' = (now : DateTime) × S now × CarriedOut q now d rows d'
ExecutedAt S q d (err e) d' = d' ≡ d

ExecutedAt-Executed :
    (S : DateTime → Type 0) {t : Table} (q : Statement t) (d : Tables) (r : Rows t) (d' : Tables)
    → ExecutedAt S q d r d'
    → Executed q d r d'
ExecutedAt-Executed S q d (ok rows) d' (now, at, carried) = (now, carried)
ExecutedAt-Executed S q d (err e) d' same = same

Executed-Anytime :
    {t : Table} (q : Statement t) (d : Tables) (r : Rows t) (d' : Tables)
    → Executed q d r d'
    → ExecutedAt Anytime q d r d'
Executed-Anytime q d (ok rows) d' (now, carried) = (now, tt, carried)
Executed-Anytime q d (err e) d' same = same

-- `T` holds of the times that the program reads from the clock as it runs, and `S` of those of its
-- statements.
abbrev pub Meets :
    {h : Host} (p : IsPostgres h) (T S : DateTime → Type 0)
    → {A : Type 0} → Program A
    → h.State
    → Type 0
Meets p T S (done a) s = Unit {0}
Meets p T S panic s = Unit {0}
Meets {h} p T S (ask (sql q) k) s =
    let (r, s') = h.answer (sql q) s in
    ExecutedAt S q (p.tables s) r (p.tables s') × Meets p T S (k r) s'
Meets {h} p T S (ask utc_now k) s =
    let (now, s') = h.answer utc_now s in T now × Meets p T S (k now) s'
Meets {h} p T S (ask new_v4 k) s = let (r, s') = h.answer new_v4 s in Meets p T S (k r) s'
Meets {h} p T S (ask generate_salt k) s =
    let (r, s') = h.answer generate_salt s in Meets p T S (k r) s'
Meets {h} p T S (ask generate_nonce k) s =
    let (r, s') = h.answer generate_nonce s in Meets p T S (k r) s'

module _ (T S : DateTime → Type 0) where
  abbrev pub EnsuresAt : {A : Type 0} → Program A → (Option A → Tables → Type 0) → Tables → Type 0
  EnsuresAt (done a) Q d = Q (some a) d
  EnsuresAt panic Q d = Q none d
  EnsuresAt (ask (sql {t} q) k) Q d =
      (r : Rows t) (d' : Tables) → ExecutedAt S q d r d' → EnsuresAt (k r) Q d'
  EnsuresAt (ask utc_now k) Q d = (now : DateTime) → T now → EnsuresAt (k now) Q d
  EnsuresAt (ask new_v4 k) Q d = (id : Uuid) → EnsuresAt (k id) Q d
  EnsuresAt (ask generate_salt k) Q d = (salt : String) → EnsuresAt (k salt) Q d
  EnsuresAt (ask generate_nonce k) Q d = (nonce : Bytes) → EnsuresAt (k nonce) Q d

  module _ {A : Type 0} (Q : Option A → Tables → Type 0) where
    -- What a program ensures at all times it ensures at these.
    pub Ensures-EnsuresAt : (m : Program A) (d : Tables) → Ensures m Q d → EnsuresAt m Q d
    Ensures-EnsuresAt (done a) d w = w
    Ensures-EnsuresAt panic d w = w
    Ensures-EnsuresAt (ask (sql {t} q) k) d w =
        λ r d' e. Ensures-EnsuresAt (k r) d' (w r d' (ExecutedAt-Executed S q d r d' e))
    Ensures-EnsuresAt (ask utc_now k) d w = λ r at. Ensures-EnsuresAt (k r) d (w r)
    Ensures-EnsuresAt (ask new_v4 k) d w = λ r. Ensures-EnsuresAt (k r) d (w r)
    Ensures-EnsuresAt (ask generate_salt k) d w = λ r. Ensures-EnsuresAt (k r) d (w r)
    Ensures-EnsuresAt (ask generate_nonce k) d w = λ r. Ensures-EnsuresAt (k r) d (w r)

  module _ {h : Host} (p : IsPostgres h) {A : Type 0} (Q : Option A → Tables → Type 0) where
    -- What a program ensures at such times holds of its runs at them, on every host.
    pub EnsuresAt-run :
        (m : Program A) (s : h.State)
        → Meets p T S m s
        → EnsuresAt m Q (p.tables s)
        → Q (run h m s).0 (p.tables (run h m s).1)
    EnsuresAt-run (done a) s c w = w
    EnsuresAt-run panic s c w = w
    EnsuresAt-run (ask (sql {t} q) k) s c w =
        let (r, s') = h.answer (sql q) s in EnsuresAt-run (k r) s' c.1 (w r (p.tables s') c.0)
    EnsuresAt-run (ask utc_now k) s c w =
        let (r, s') = h.answer utc_now s in
        EnsuresAt-run (k r) s' c.1 (subst (EnsuresAt (k r) Q) (sym (p.utc_now-tables s)) (w r c.0))
    EnsuresAt-run (ask new_v4 k) s c w =
        let (r, s') = h.answer new_v4 s in
        EnsuresAt-run (k r) s' c (subst (EnsuresAt (k r) Q) (sym (p.new_v4-tables s)) (w r))
    EnsuresAt-run (ask generate_salt k) s c w =
        let (r, s') = h.answer generate_salt s in
        EnsuresAt-run (k r) s' c (subst (EnsuresAt (k r) Q) (sym (p.generate_salt-tables s)) (w r))
    EnsuresAt-run (ask generate_nonce k) s c w =
        let (r, s') = h.answer generate_nonce s in
        EnsuresAt-run (k r) s' c (subst (EnsuresAt (k r) Q) (sym (p.generate_nonce-tables s)) (w r))

module _ {A : Type 0} (Q : Option A → Tables → Type 0) where
  -- What a program ensures at any time it ensures.
  pub EnsuresAt-Ensures :
      (m : Program A) (d : Tables) → EnsuresAt Anytime Anytime m Q d → Ensures m Q d
  EnsuresAt-Ensures (done a) d w = w
  EnsuresAt-Ensures panic d w = w
  EnsuresAt-Ensures (ask (sql {t} q) k) d w =
      λ r d' e. EnsuresAt-Ensures (k r) d' (w r d' (Executed-Anytime q d r d' e))
  EnsuresAt-Ensures (ask utc_now k) d w = λ r. EnsuresAt-Ensures (k r) d (w r tt)
  EnsuresAt-Ensures (ask new_v4 k) d w = λ r. EnsuresAt-Ensures (k r) d (w r)
  EnsuresAt-Ensures (ask generate_salt k) d w = λ r. EnsuresAt-Ensures (k r) d (w r)
  EnsuresAt-Ensures (ask generate_nonce k) d w = λ r. EnsuresAt-Ensures (k r) d (w r)
