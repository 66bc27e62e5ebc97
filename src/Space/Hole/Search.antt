-- ===== src/Space/Hole/Search.antt =====
-- FindHole finds a hole that is free, and finds one when an invalid range has room.
use vmill.Prelude.{
  ℕ, ◌+◌, ◌-◌, ◌≤◌, ◌<◌, ◌≡◌, ◌⊎◌, inl, inr, refl, ◌∙◌, Bool, true, false, Bool-cases, Option, none,
  some, List, [], ◌∷◌, All, All-map, arith, done, ltb, leb, ◌||◌, dec_lt,
}
use vmill.Space.{min}
use vmill.Space.Hole.{Extent, max, gap, search_hole}

-- Highest range first, each below the ones before it.
abbrev pub IsDescending : List Extent → Type 0
IsDescending [] = Unit {0}
IsDescending (e ∷ es) =
    (e.base ≤ e.limit) × All (λ (f : Extent). f.limit ≤ e.base) es × IsDescending es

-- A valid range has no byte of [hole, hole + size).
abbrev pub IsFree : ℕ → ℕ → Extent → Type 0
IsFree hole size e = e.valid ≡ true → (e.limit ≤ hole) ⊎ (hole + size ≤ e.base)

-- An invalid range has no room for `size` bytes within [lo, hi).
abbrev pub HasNoRoom : ℕ → ℕ → ℕ → Extent → Type 0
HasNoRoom lo hi size e = e.valid ≡ false → min hi e.limit < max lo e.base + size

abbrev pub Found : List Extent → ℕ → ℕ → ℕ → Option ℕ → Type 0
Found es lo hi size none = All (HasNoRoom lo hi size) es
Found es lo hi size (some hole) = (lo ≤ hole) × (hole + size ≤ hi) × All (IsFree hole size) es

-- What is found in a list lies below the end of its first range.
abbrev IsBelowHead : List Extent → ℕ → Option ℕ → Type 0
IsBelowHead es size none = Unit {0}
IsBelowHead [] size (some hole) = ⊥
IsBelowHead (e ∷ es) size (some hole) = hole + size ≤ e.limit

gap_invalid : (e : Extent) (es : List Extent) → e.valid ≡ false → gap e es ≡ some (e.limit, e.base)
unfolding gap
gap_invalid e [] v = ground arith
gap_invalid e (f ∷ fs) v = ground arith

gap_valid :
    (e f : Extent) (fs : List Extent) → e.valid ≡ true → gap e (f ∷ fs) ≡ some (e.base, f.limit)
unfolding gap
gap_valid e f fs v = ground arith

gap_last : (e : Extent) → e.valid ≡ true → gap e [] ≡ none
unfolding gap
gap_last e v = ground arith

module _ (lo hi size : ℕ) (lt : lo < hi) (pos : 0 < size) where
  abbrev Searched : List Extent → Type 0
  Searched es =
      (o : Option ℕ) × (search_hole es lo hi size ≡ done o)
      × Found es lo hi size o
      × IsBelowHead es size o

  lower_no_room :
      (b : ℕ) (es : List Extent)
      → b < lo
      → All (λ (f : Extent). f.limit ≤ b) es
      → All (HasNoRoom lo hi size) es
  lower_no_room b es h all = All-map _ (HasNoRoom lo hi size) es (λ f k v. ground arith) all

  lower-IsFree :
      (hole b : ℕ) (es : List Extent)
      → b ≤ hole
      → All (λ (f : Extent). f.limit ≤ b) es
      → All (IsFree hole size) es
  lower-IsFree hole b es h all = All-map _ (IsFree hole size) es (λ f k v. inl (omega arith)) all

  -- A hole below the end of a lower range is free of the ranges above that one.
  above_free :
      (e : Extent) (es : List Extent) (hole : ℕ)
      → IsDescending (e ∷ es)
      → IsBelowHead es size (some hole)
      → hole + size ≤ e.base
  above_free e [] hole d below = absurd below
  above_free e (f ∷ fs) hole d below = omega (arith, (d.1).0)

  -- The first range, and the gap [low_limit, high_base) that goes with it.
  module _ (e : Extent) (es : List Extent) (high_base low_limit : ℕ)
      (g : gap e es ≡ some (high_base, low_limit)) (ordered : low_limit ≤ high_base)
      (under : high_base ≤ e.limit) (low : All (λ (f : Extent). f.limit ≤ low_limit) es)
      (valid : e.valid ≡ true → high_base ≤ e.base)
      (invalid : e.valid ≡ false → (high_base ≡ e.limit) × (low_limit ≡ e.base))
      (desc : IsDescending (e ∷ es)) where
    abbrev no_fit : Bool
    no_fit = leb hi low_limit || ltb (min hi high_base - max lo low_limit) size

    abbrev top : ℕ
    top = min hi high_base - size

    stops : high_base < lo → search_hole (e ∷ es) lo hi size ≡ done none
    unfolding search_hole
    stops h = ground arith

    skips :
        lo ≤ high_base → no_fit ≡ true → search_hole (e ∷ es) lo hi size ≡ search_hole es lo hi size
    unfolding search_hole
    skips h n = ground arith

    hits : lo ≤ high_base → no_fit ≡ false → search_hole (e ∷ es) lo hi size ≡ done (some top)
    unfolding search_hole
    hits h n = ground arith

    stop : high_base < lo → Searched (e ∷ es)
    stop h = (
      none,
      stops h,
      (λ v. ground (arith, invalid v), lower_no_room low_limit es (omega arith) low),
      tt,
    )

    skip : lo ≤ high_base → no_fit ≡ true → Searched es → Searched (e ∷ es)
    skip h n (none, found, spec, below) =
        (none, skips h n ∙ found, (λ v. ground (arith, invalid v), spec), tt)
    skip h n (some hole, found, spec, below) =
        let above = above_free e es hole desc below in
        (
          some hole,
          skips h n ∙ found,
          (spec.0, spec.1, (λ v. inr above, spec.2)),
          omega (arith, desc.0, above),
        )

    hit : lo ≤ high_base → no_fit ≡ false → Searched (e ∷ es)
    hit h n = (
      some top,
      hits h n,
      (
        ground arith,
        ground arith,
        (λ v. inr (ground (arith, valid v)), lower-IsFree top low_limit es (ground arith) low),
      ),
      ground arith,
    )

    round : Searched es → Searched (e ∷ es)
    round rest = elim (dec_lt high_base lo) [
      | yes h ↦ stop h
      | no h ↦ elim (Bool-cases no_fit) [
        | inl n ↦ skip (omega arith) n rest
        | inr n ↦ hit (omega arith) n
      ]
    ]

  step_valid :
      (e : Extent) (es : List Extent)
      → e.valid ≡ true
      → IsDescending (e ∷ es)
      → Searched es
      → Searched (e ∷ es)
  unfolding search_hole
  step_valid e [] v d rest = (none, ground (arith, gap_last e v), ((λ w. cc), tt), tt)
  step_valid e (f ∷ fs) v d rest =
      round e (f ∷ fs) e.base f.limit (gap_valid e f fs v) (d.1).0 d.0
        (omega arith, All-map _ (λ x. x.limit ≤ f.limit) fs (λ x k. omega (arith, (d.2).0)) (d.2).1)
        (λ w. omega arith) (λ w. cc) d rest

  -- One range: by its validity, and by whether it is the lowest.
  step : (e : Extent) (es : List Extent) → IsDescending (e ∷ es) → Searched es → Searched (e ∷ es)
  step e es d rest = elim (Bool-cases e.valid) [
    | inr bad ↦
        round e es e.limit e.base (gap_invalid e es bad) d.0 (omega arith) d.1 (λ v. cc)
          (λ v. (refl, refl)) d rest
    | inl good ↦ step_valid e es good d rest
  ]

  pub search_hole_lem : (es : List Extent) → IsDescending es → Searched es
  unfolding search_hole
  search_hole_lem [] d = (none, refl, tt, tt)
  search_hole_lem (e ∷ es) d = step e es d (search_hole_lem es d.2)
