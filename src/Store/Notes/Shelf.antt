-- ===== src/Store/Notes/Shelf.antt =====
-- The shelf that the rows of `notes` stand for, with unique identifiers.
use nyrex.Prelude.{◌≡◌, refl, ap, false, none, some, List, map as map_list, any, ◌==◌, ==_iff, In}
use mathlib.Core.Option.{map}
use nyrex.Core.Models.{Uuid, Note}
use nyrex.Effect.Table.{notes}
use nyrex.Effect.Schema.{IsKeyed}
use nyrex.Effect.Schema.Lookup.{first, first-In, first-none, In-first, first-map, IsKeyed-unique}
use nyrex.Store.Notes.Spec.{Shelf}

abbrev pub shelf : List Note → Shelf
shelf rows i = first (λ n. n.id == i) rows

pub shelf-In :
    (rows : List Note) (i : Uuid) (n : Note) → shelf rows i ≡ some n → In n rows × (n.id ≡ i)
shelf-In rows i n e = let (m, same) = first-In (λ n. n.id == i) rows n e in (m, (==_iff _ _).0 same)

pub In-shelf :
    (rows : List Note) (n : Note) → IsKeyed notes rows → In n rows → shelf rows n.id ≡ some n
In-shelf rows n k m =
    In-first (λ x. x.id == n.id) rows n m ((==_iff n.id n.id).1 refl)
      (λ b there e. IsKeyed-unique notes rows b n k there m ((==_iff _ _).0 e))

-- No row has the identifier.
pub shelf-free :
    (rows : List Note) (i : Uuid) → any (λ r. r.id == i) rows ≡ false → shelf rows i ≡ none
shelf-free rows i e = first-none (λ r. r.id == i) rows e

-- A change of the rows that keeps their identifiers is a change on the shelf.
pub shelf-map :
    (g : Note → Note)
    → ((n : Note) → (g n).id ≡ n.id)
    → (rows : List Note) (i : Uuid) → shelf (map_list g rows) i ≡ map g (shelf rows i)
shelf-map g ids rows i = first-map (λ n. n.id == i) g (λ n. ap (λ k. k == i) (ids n)) rows
