-- ===== src/Space/Hole/Result.antt =====
-- FindHole on an address space whose ranges lie in order.
use vmill.Prelude.{
  ℕ, ◌+◌, ◌-◌, ◌<◌, ◌≡◌, Option, none, List, reverse, All, arith, done, word_mod,
  align_down_to_page, round_up_to_page, [], ◌∷◌, ltb, leb, ◌||◌, ◌==◌, Bool-cases, inl, inr,
}
use vmill.Range.{Store}
use vmill.Space.{AddressSpace}
use vmill.Space.Hole.{Extent, extents, find_hole}
use vmill.Space.Hole.Search.{IsDescending, HasNoRoom, Found, search_hole_lem}

narrow_no_room :
    (lo hi size : ℕ) (es : List Extent) → 0 < size → hi < lo + size → All (HasNoRoom lo hi size) es
narrow_no_room lo hi size [] pos h = tt
narrow_no_room lo hi size (e ∷ es) pos h = ((λ v. ground arith), narrow_no_room lo hi size es pos h)

-- FindHole of a positive size that does not overflow when it is rounded up, over ranges that lie in
-- order and do not overlap, returns. A hole that it finds lies within the page-aligned bounds, has
-- room for the rounded size, and has no byte of a valid range; if it finds none, no invalid range
-- has room for the rounded size within the page-aligned bounds.
pub find_hole-Found :
    (s : Store) (sp : AddressSpace) (lo hi size : ℕ) (es : List Extent)
    → 0 < size
    → size + 4095 < word_mod
    → extents s sp.maps ≡ done es
    → IsDescending (reverse es)
    → (o : Option ℕ) × (find_hole s sp lo hi size ≡ done o)
      × Found (reverse es) (align_down_to_page lo) (align_down_to_page hi) (round_up_to_page size) o
unfolding find_hole
find_hole-Found s sp lo hi size es pos small e d =
    let lo' = align_down_to_page lo in
    let hi' = align_down_to_page hi in
    let size' = round_up_to_page size in
    elim (Bool-cases (size == 0 || (leb hi' lo' || ltb (hi' - lo') size'))) [
      | inl narrow ↦ (
        none,
        ground arith,
        narrow_no_room lo' hi' size' (reverse es) (omega arith) (ground arith),
      )
      | inr wide ↦
          let (o, found, spec, below) =
            search_hole_lem lo' hi' size' (ground arith) (omega arith) (reverse es) d in
          (o, rw (wide, e) found, spec)
    ]
