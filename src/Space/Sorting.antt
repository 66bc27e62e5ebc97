-- ===== src/Space/Sorting.antt =====
-- The order of the ranges after std::sort.
use vmill.Prelude.{ℕ, ◌≤◌, inl, inr, List, [], ◌∷◌, arith, All, All-map, leb, Bool-cases}
use mathlib.Core.List.{Perm}
use mathlib.Core.List.Perm
use vmill.Range.{MappedRange}
use vmill.Space.{insert_by_base, sort_by_base}

-- Sorting keeps the ranges, and puts them in order of their base addresses.
insert_by_base-Perm :
    (e : ℕ × MappedRange) (es : List (ℕ × MappedRange)) → Perm (insert_by_base e es) (e ∷ es)
unfolding insert_by_base
insert_by_base-Perm e [] = Perm.refl (e ∷ [])
insert_by_base-Perm e (f ∷ fs) = elim (Bool-cases (leb (e.1).base_address (f.1).base_address)) [
  | inl h ↦ rw h (Perm.refl (e ∷ f ∷ fs))
  | inr h ↦ rw h (Perm.trans (Perm.cons f (insert_by_base-Perm e fs)) (Perm.swap e f fs))
]

pub sort_by_base-Perm : (es : List (ℕ × MappedRange)) → Perm (sort_by_base es) es
unfolding sort_by_base
sort_by_base-Perm [] = Perm.refl []
sort_by_base-Perm (e ∷ es) =
    Perm.trans (insert_by_base-Perm e (sort_by_base es)) (Perm.cons e (sort_by_base-Perm es))

abbrev pub IsSorted : List (ℕ × MappedRange) → Type 0
IsSorted [] = Unit {0}
IsSorted (e ∷ es) =
    All (λ (f : ℕ × MappedRange). (e.1).base_address ≤ (f.1).base_address) es × IsSorted es

abbrev IsBelow : ℕ → ℕ × MappedRange → Type 0
IsBelow b f = b ≤ (f.1).base_address

insert_by_base-All :
    (b : ℕ) (e : ℕ × MappedRange) (es : List (ℕ × MappedRange))
    → IsBelow b e
    → All (IsBelow b) es
    → All (IsBelow b) (insert_by_base e es)
unfolding insert_by_base
insert_by_base-All b e [] h k = (h, tt)
insert_by_base-All b e (f ∷ fs) h k =
    let rest = insert_by_base-All b e fs h k.1 in ground (arith, rest)

insert_by_base-IsSorted :
    (e : ℕ × MappedRange) (es : List (ℕ × MappedRange))
    → IsSorted es
    → IsSorted (insert_by_base e es)
unfolding insert_by_base
insert_by_base-IsSorted e [] h = (tt, tt)
insert_by_base-IsSorted e (f ∷ fs) h =
    elim (Bool-cases (leb (e.1).base_address (f.1).base_address)) [
      | inl le ↦ rw le (
        (
          ground arith,
          All-map (IsBelow (f.1).base_address) (IsBelow (e.1).base_address) fs (λ g k. ground arith)
              h.0,
        ),
        h,
      )
      | inr gt ↦ rw gt (
        insert_by_base-All (f.1).base_address e fs (ground arith) h.0,
        insert_by_base-IsSorted e fs h.1,
      )
    ]

pub sort_by_base-IsSorted : (es : List (ℕ × MappedRange)) → IsSorted (sort_by_base es)
unfolding sort_by_base
sort_by_base-IsSorted [] = tt
sort_by_base-IsSorted (e ∷ es) =
    insert_by_base-IsSorted e (sort_by_base es) (sort_by_base-IsSorted es)
