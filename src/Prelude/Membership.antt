-- ===== src/Prelude/Membership.antt =====
-- Membership in lists, through queries, updates and permutations.
use mathlib.Core.Path.{◌≡◌, refl, sym, ap, ◌∙◌}
use mathlib.Core.Logic.{inl, inr}
use mathlib.Core.Bool.{Bool, true}
use mathlib.Core.List.{List, [], ◌∷◌, map, Permᴰ}
use native.Mathlib.Omega.{arith}
use nyrex.Prelude.Tests.{Bool-cases}
use nyrex.Prelude.Lists.{filter, any, In, All, All-perm}

module _ {A : Type 0} (p : A → Bool) where
  filter-In_of :
      (ys xs : List A)
      → ((x : A) → In x xs → In x ys)
      → All (λ x. In x ys × (p x ≡ true)) (filter p xs)
  filter-In_of ys [] within = tt
  filter-In_of ys (x ∷ xs) within = elim (Bool-cases (p x)) [
    | inl e ↦ rw e ((within x (inl refl), e), filter-In_of ys xs (λ y m. within y (inr m)))
    | inr e ↦ rw e (filter-In_of ys xs (λ y m. within y (inr m)))
  ]

  -- What a query returns stands in the table and meets the query's condition.
  pub found-All :
      {rows : List A} (xs : List A)
      → Permᴰ rows (filter p xs)
      → All (λ x. In x xs × (p x ≡ true)) rows
  found-All xs found = All-perm (λ x. In x xs × (p x ≡ true)) found (filter-In_of xs xs (λ x m. m))

pub In-map : {A B : Type 0} (f : A → B) (a : A) (xs : List A) → In a xs → In (f a) (map f xs)
In-map f a [] m = m
In-map f a (x ∷ xs) (inl e) = inl (ap f e)
In-map f a (x ∷ xs) (inr m) = inr (In-map f a xs m)

pub any-In :
    {A : Type 0} (t : A → Bool) (a : A) (xs : List A) → In a xs → t a ≡ true → any t xs ≡ true
any-In t a [] m e = absurd m
any-In t a (x ∷ xs) (inl same) e = let here : t x ≡ true = ap t (sym same) ∙ e in rw here
any-In t a (x ∷ xs) (inr m) e = let there = any-In t a xs m e in ground arith

pub In-perm : {A : Type 0} (a : A) {xs ys : List A} → Permᴰ xs ys → In a ys → In a xs
In-perm a Permᴰ.nil m = m
In-perm a (Permᴰ.cons e p) (inl same) = inl (same ∙ sym e)
In-perm a (Permᴰ.cons e p) (inr m) = inr (In-perm a p m)
In-perm a (Permᴰ.swap e f) (inl same) = inr (inl (same ∙ sym f))
In-perm a (Permᴰ.swap e f) (inr (inl same)) = inl (same ∙ sym e)
In-perm a (Permᴰ.swap e f) (inr (inr m)) = inr (inr m)
In-perm a (Permᴰ.trans p q) m = In-perm a p (In-perm a q m)

-- A row that meets the condition of a query is among those that the query finds.
pub In-filter :
    {A : Type 0} (p : A → Bool) (a : A) (xs : List A) → In a xs → p a ≡ true → In a (filter p xs)
In-filter p a [] m e = m
In-filter p a (x ∷ xs) (inl same) e =
    let here : p x ≡ true = ap p (sym same) ∙ e in rw here (inl same)
In-filter p a (x ∷ xs) (inr m) e = elim (Bool-cases (p x)) [
  | inl t ↦ rw t (inr (In-filter p a xs m e))
  | inr f ↦ rw f (In-filter p a xs m e)
]

pub cons-injective_left : {A : Type 0} {x y : A} {xs ys : List A} → x ∷ xs ≡ y ∷ ys → x ≡ y
cons-injective_left e = cc

pub In-map_inv :
    {A B : Type 0} (f : A → B) (b : B) (xs : List A)
    → In b (map f xs)
    → (a : A) × In a xs × (b ≡ f a)
In-map_inv f b [] m = absurd m
In-map_inv f b (x ∷ xs) (inl e) = (x, inl refl, e)
In-map_inv f b (x ∷ xs) (inr m) = let (a, found, e) = In-map_inv f b xs m in (a, inr found, e)

pub In-filter_inv :
    {A : Type 0} (p : A → Bool) (a : A) (xs : List A) → In a (filter p xs) → In a xs × (p a ≡ true)
In-filter_inv p a [] m = absurd m
In-filter_inv p a (x ∷ xs) m = elim (Bool-cases (p x)) [
  | inr e ↦ let rest = In-filter_inv p a xs (rw e at m) in (inr rest.0, rest.1)
  | inl e ↦ first_or_rest (rw e at m) e (In-filter_inv p a xs)
]
  where
    first_or_rest :
        In a (x ∷ filter p xs)
        → p x ≡ true
        → (In a (filter p xs) → In a xs × (p a ≡ true))
        → In a (x ∷ xs) × (p a ≡ true)
    first_or_rest (inl same) e rest = (inl same, ap p same ∙ e)
    first_or_rest (inr m') e rest = let (found, meets) = rest m' in (inr found, meets)

within-All :
    {A : Type 0} (zs rows : List A) → ((y : A) → In y rows → In y zs) → All (λ y. In y zs) rows
within-All zs [] within = tt
within-All zs (y ∷ rows) within =
    (within y (inl refl), within-All zs rows (λ z m. within z (inr m)))

-- The first row of an answer is a row of the table that it permutes.
pub In-perm_first : {A : Type 0} {x : A} {xs ys : List A} → Permᴰ (x ∷ xs) ys → In x ys
In-perm_first {ys = ys} p = (All-perm (λ y. In y ys) p (within-All ys ys (λ y m. m))).0
