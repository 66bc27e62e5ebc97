-- ===== src/Removal.antt =====
-- RemoveRange of vmill/Program/AddressSpace.cpp: the list of ranges with [base, limit) cut out.
pub mod Disjoint
pub mod Coverage
mod Tests
use vmill.Prelude.{
  ℕ, ◌≡◌, ◌⊎◌, inl, inr, refl, ◌&&◌, ◌||◌, List, [], ◌∷◌, ◌++◌, ltb, leb, ◌==◌, if◌then◌else◌,
  Outcome, done, ◌>>=◌,
}
use vmill.Range.{Store, fetch}
use vmill.Range.Duplicates.{copy}

-- Which of the five branches of RemoveRange a range takes.
pub data Overlap : Type 0 where
  apart inside around prefix suffix : Overlap

unfoldable pub overlap : ℕ → ℕ → ℕ → ℕ → Overlap
overlap map_base map_limit base limit =
    if leb map_limit base || leb limit map_base
    then apart
    else if leb base map_base && leb map_limit limit
    then inside
    else if ltb map_base base && ltb limit map_limit
    then around
    else if map_base == base
    then prefix
    else suffix

pub Overlap-cases :
    (o : Overlap) → (o ≡ apart) ⊎ (o ≡ inside) ⊎ (o ≡ around) ⊎ (o ≡ prefix) ⊎ (o ≡ suffix)
Overlap-cases apart = inl refl
Overlap-cases inside = inr (inl refl)
Overlap-cases around = inr (inr (inl refl))
Overlap-cases prefix = inr (inr (inr (inl refl)))
Overlap-cases suffix = inr (inr (inr (inr refl)))

-- What is put into `new_ranges` for the range `p`.
unfoldable pub carve : Store → ℕ → ℕ → ℕ → Outcome (List ℕ × Store)
carve s p base limit = do
  r ← fetch s p
  elim (overlap r.base_address r.limit_address base limit) [
    | apart ↦ done (p ∷ [], s)
    | inside ↦ done ([], s)
    | around ↦ do
      low ← copy s p r.base_address base
      high ← copy low.1 p limit r.limit_address
      done (low.0 ∷ high.0 ∷ [], high.1)
    | prefix ↦ do high ← copy s p limit r.limit_address; done (high.0 ∷ [], high.1)
    | suffix ↦ do low ← copy s p r.base_address base; done (low.0 ∷ [], low.1)
  ]

unfoldable pub remove_range : Store → List ℕ → ℕ → ℕ → Outcome (List ℕ × Store)
remove_range s [] base limit = done ([], s)
remove_range s (p ∷ ps) base limit = do
  kept ← carve s p base limit
  rest ← remove_range kept.1 ps base limit
  done (kept.0 ++ rest.0, rest.1)
