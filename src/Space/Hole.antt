-- ===== src/Space/Hole.antt =====
-- AddressSpace::FindHole, over the bounds and the validity of the ranges, highest first.
pub mod Search
pub mod Result
use vmill.Prelude.{
  ℕ, ◌-◌, Bool, true, false, ◌||◌, Option, none, some, List, [], ◌∷◌, reverse, ltb, leb, ◌==◌,
  if◌then◌else◌, align_down_to_page, round_up_to_page, Outcome, done, ◌>>=◌, ◌>>◌, check,
}
use vmill.Range.{Store, fetch, is_valid}
use vmill.Space.{AddressSpace, min}

-- What the loop reads of a range.
pub record Extent : Type 0 where
  pub base : ℕ
  pub limit : ℕ
  pub valid : Bool

abbrev pub max : ℕ → ℕ → ℕ
max a b = if ltb a b then b else a

unfoldable pub extents : Store → List ℕ → Outcome (List Extent)
extents s [] = done []
extents s (p ∷ ps) = do
  r ← fetch s p
  valid ← is_valid s p
  rest ← extents s ps
  done (record { base = r.base_address; limit = r.limit_address; valid = valid } ∷ rest)

-- What one round looks at: an invalid range, or the gap between a valid range and the next lower
-- one; `none` where the loop breaks off.
unfoldable pub gap : Extent → List Extent → Option (ℕ × ℕ)
gap high [] = if high.valid then none else some (high.limit, high.base)
gap high (low ∷ rest) =
    if high.valid then some (high.base, low.limit) else some (high.limit, high.base)

-- The loop from the highest range down: `none` for no hole.
unfoldable pub search_hole : List Extent → ℕ → ℕ → ℕ → Outcome (Option ℕ)
search_hole [] lo hi size = done none
search_hole (high ∷ lower) lo hi size =
    let rest = search_hole lower lo hi size in
    elim (gap high lower) [
      | none ↦ done none
      | some (high_base, low_limit) ↦ elim (ltb high_base lo) [
        | true ↦ done none
        | false ↦ do
          check (leb low_limit high_base)
          elim (leb hi low_limit || ltb (min hi high_base - max lo low_limit) size) [
            | true ↦ rest
            | false ↦ do
              check (leb (max lo low_limit) (min hi high_base - size))
              done (some (min hi high_base - size))
          ]
      ]
    ]

unfoldable pub find_hole : Store → AddressSpace → ℕ → ℕ → ℕ → Outcome (Option ℕ)
find_hole s sp lo_ hi_ size_ =
    let lo = align_down_to_page lo_ in
    let hi = align_down_to_page hi_ in
    let size = round_up_to_page size_ in
    if size_ == 0 || (leb hi lo || ltb (hi - lo) size)
    then done none
    else do ranges ← extents s sp.maps; search_hole (reverse ranges) lo hi size
