-- ===== src/Effect/Schema/Lookup.antt =====
-- Lookups in lists of rows, by keys that the constraints make unique.
use nyrex.Prelude.{
  ◌⊎◌, ◌≡◌, refl, sym, ap, ◌∙◌, subst, Bool, true, false, Option, none, some, List, [], ◌∷◌,
  map as map_list, any, ◌==◌, ==_iff, Bool-cases, if◌then◌else◌, In, any-In, inl, inr, arith,
}
use mathlib.Core.Option.{map}
use nyrex.Prelude.Text.{str_eq, str_eq_iff}
use nyrex.Core.Models.{User}
use nyrex.Effect.Table.{Table, Row, row_id}
use nyrex.Effect.Schema.{IsKeyed, IsDistinct}

module _ {A : Type 0} where
  abbrev pub first : (A → Bool) → List A → Option A
  first p [] = none
  first p (x ∷ xs) = if p x then some x else first p xs

  pub first-In :
      (p : A → Bool) (rows : List A) (a : A) → first p rows ≡ some a → In a rows × (p a ≡ true)
  first-In p [] a e = cc
  first-In p (x ∷ xs) a e = elim (Bool-cases (p x)) [
    | inl here ↦
        let same : some x ≡ some a = rw here at e in
        let x_a : x ≡ a = cc in (inl (sym x_a), subst (λ y. p y ≡ true) x_a here)
    | inr there ↦ let (m, good) = first-In p xs a (rw there at e) in (inr m, good)
  ]

  pub first-none : (p : A → Bool) (rows : List A) → any p rows ≡ false → first p rows ≡ none
  first-none p [] e = refl
  first-none p (x ∷ xs) e = elim (Bool-cases (p x)) [
    | inl here ↦ absurd (ground arith)
    | inr there ↦ rw there (first-none p xs (rw there at e))
  ]

  -- The only row with the key is found.
  pub In-first :
      (p : A → Bool) (rows : List A) (a : A)
      → In a rows
      → p a ≡ true
      → ((b : A) → In b rows → p b ≡ true → b ≡ a)
      → first p rows ≡ some a
  In-first p [] a m e only = absurd m
  In-first p (x ∷ xs) a m e only = elim (Bool-cases (p x)) [
    | inl here ↦ rw here (ap some (only x (inl refl) here))
    | inr there ↦ rw there (In-first p xs a (further m there) e (λ b n. only b (inr n)))
  ]
    where
      further : (a ≡ x) ⊎ In a xs → p x ≡ false → In a xs
      further (inl same) miss = absurd (cc (ap p same, e, miss))
      further (inr m') miss = m'

  -- A change of the rows that keeps their keys.
  pub first-map :
      (p : A → Bool) (g : A → A)
      → ((a : A) → p (g a) ≡ p a)
      → (rows : List A) → first p (map_list g rows) ≡ map g (first p rows)
  first-map p g same [] = refl
  first-map p g same (x ∷ xs) = elim (Bool-cases (p x)) [
    | inl here ↦ let here' = same x ∙ here in rw (here', here) refl
    | inr there ↦ let there' = same x ∙ there in rw (there', there) (first-map p g same xs)
  ]

pub IsKeyed-unique :
    (t : Table) (rows : List (Row t)) (a b : Row t)
    → IsKeyed t rows
    → In a rows
    → In b rows
    → row_id t a ≡ row_id t b
    → a ≡ b
IsKeyed-unique t [] a b k m n e = absurd m
IsKeyed-unique t (x ∷ xs) a b k (inl ea) (inl eb) e = ea ∙ sym eb
IsKeyed-unique t (x ∷ xs) a b k (inr ma) (inr mb) e = IsKeyed-unique t xs a b k.1 ma mb e
IsKeyed-unique t (x ∷ xs) a b k (inl ea) (inr mb) e =
    let taken =
      any-In (λ r. row_id t r == row_id t x) b xs mb ((==_iff _ _).1 (sym e ∙ ap (row_id t) ea)) in
    absurd (cc (k.0, taken))
IsKeyed-unique t (x ∷ xs) a b k (inr ma) (inl eb) e =
    let taken =
      any-In (λ r. row_id t r == row_id t x) a xs ma ((==_iff _ _).1 (e ∙ ap (row_id t) eb)) in
    absurd (cc (k.0, taken))

pub IsDistinct-unique :
    (rows : List User) (a b : User)
    → IsDistinct rows
    → In a rows
    → In b rows
    → a.email ≡ b.email
    → a ≡ b
IsDistinct-unique [] a b k m n e = absurd m
IsDistinct-unique (x ∷ xs) a b k (inl ea) (inl eb) e = ea ∙ sym eb
IsDistinct-unique (x ∷ xs) a b k (inr ma) (inr mb) e = IsDistinct-unique xs a b k.1 ma mb e
IsDistinct-unique (x ∷ xs) a b k (inl ea) (inr mb) e =
    let taken =
      any-In (λ (u : User). str_eq u.email x.email) b xs mb
        ((str_eq_iff _ _).1 (sym e ∙ ap (λ (u : User). u.email) ea)) in
    absurd (cc (k.0, taken))
IsDistinct-unique (x ∷ xs) a b k (inr ma) (inl eb) e =
    let taken =
      any-In (λ (u : User). str_eq u.email x.email) a xs ma
        ((str_eq_iff _ _).1 (e ∙ ap (λ (u : User). u.email) eb)) in
    absurd (cc (k.0, taken))
