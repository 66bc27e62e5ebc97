-- ===== src/Removal/Disjoint.antt =====
-- RemoveRange leaves no range that overlaps the one it removes.
use vmill.Prelude.{
  ℕ, ◌-◌, Option, ◌≤◌, ◌≡◌, ◌⊎◌, inl, inr, refl, subst, sym, some, none, List, [], ◌∷◌, ◌++◌, All,
  All-append, All-map, arith, done, >>=-eq-done, done-injective,
}
use vmill.Range.{array, MappedRange, Store, fetch, make_shared, new_array}
use vmill.Range.Duplicates.{copy, copy_contained}
use vmill.Range.Frame.{Body-cases, object_of_fetch}
use vmill.Range.Changes.{added}
use vmill.Removal.{apart, overlap, Overlap-cases, carve, remove_range}

abbrev pub IsFresh : Store → Type 0
IsFresh s = (p : ℕ) → s.next ≤ p → s.object p ≡ none

abbrev pub Extends : Store → Store → Type 0
Extends s s' = (k : ℕ) (r : MappedRange) → s.object k ≡ some r → s'.object k ≡ some r

-- The range `k` lies below `base` or from `limit` on.
pub record IsClear (s : Store) (base limit k : ℕ) : Type 0 where
  pub range : MappedRange
  pub present : s.object k ≡ some range
  pub clear : (range.limit_address ≤ base) ⊎ (limit ≤ range.base_address)

IsClear-Extends : (s s' : Store) (b l k : ℕ) → Extends s s' → IsClear s b l k → IsClear s' b l k
IsClear-Extends s s' b l k ext c = record {
  range = c.range;
  present = ext k c.range c.present;
  clear = c.clear;
}

-- What Copy leaves when it succeeds: one new range over [b, l) in the store.
abbrev pub IsAdded : Store → ℕ → ℕ → ℕ → Store → Type 0
IsAdded s b l q s' =
    (t : MappedRange) × (q ≡ s.next)
    × (s' ≡ added s t)
    × (t.base_address ≡ b)
    × (t.limit_address ≡ l)

IsAdded-of :
    (s : Store) (b l q : ℕ) (s' : Store) (t : MappedRange)
    → t.base_address ≡ b
    → t.limit_address ≡ l
    → done (make_shared s t) ≡ done (q, s')
    → IsAdded s b l q s'
IsAdded-of s b l q s' t x y h = (t, ground arith, ground arith, x, y)

new_array_extent :
    (b l : ℕ) (name : Option (List ℕ)) (offset : ℕ) (t : MappedRange)
    → new_array b l name offset ≡ done t
    → (t.base_address ≡ b) × (t.limit_address ≡ l)
new_array_extent b l name offset t h = (ground arith, ground arith)

pub copy-IsAdded :
    (s : Store) (p b l q : ℕ) (s' : Store) → copy s p b l ≡ done (q, s') → IsAdded s b l q s'
unfolding copy
copy-IsAdded s p b l q s' h =
    let (r, e, h') = >>=-eq-done (fetch s p) _ h in
    elim (Body-cases r.body) [
      | inl body ↦ IsAdded-of s b l q s' _ refl refl (rw body at h')
      | inr (inl body) ↦ IsAdded-of s b l q s' _ refl refl (rw body at h')
      | inr (inr (inl (bytes, body))) ↦
          let (self, f, h2) = >>=-eq-done (new_array b l (some r.name) _) _ (rw body at h') in
          let (out, g, h3) = >>=-eq-done (copy_contained r bytes (l - b) b 0 (λ _. 0)) _ h2 in
          let extent = new_array_extent b l (some r.name) _ self f in
          IsAdded-of s b l q s' (record self { body = array out }) extent.0 extent.1 h3
      | inr (inr (inr (k, body))) ↦ cc (rw body at h')
    ]

added-Extends : (s : Store) (t : MappedRange) → IsFresh s → Extends s (added s t)
added-Extends s t fresh k r e = ground (arith, fresh k)

added-IsFresh : (s : Store) (t : MappedRange) → IsFresh s → IsFresh (added s t)
added-IsFresh s t fresh k le = ground (arith, fresh k)

-- The new range of a copy is clear if its bounds are; the store only grows.
copy-IsClear :
    (s : Store) (p b l base limit q : ℕ) (s' : Store)
    → IsFresh s
    → (l ≤ base) ⊎ (limit ≤ b)
    → copy s p b l ≡ done (q, s')
    → IsClear s' base limit q × Extends s s' × IsFresh s'
copy-IsClear s p b l base limit q s' fresh side h =
    let (t, eq, es, eb, el) = copy-IsAdded s p b l q s' h in
    (
      rw (eq, es) (record { range = t; present = ground arith; clear = rw (eb, el) side }),
      subst (Extends s) (sym es) (added-Extends s t fresh),
      subst IsFresh (sym es) (added-IsFresh s t fresh),
    )

-- The same of what RemoveRange puts into its result.
abbrev pub Clears : Store → ℕ → ℕ → List ℕ → Store → Type 0
Clears s base limit kept s' = All (IsClear s' base limit) kept × Extends s s' × IsFresh s'

Clears-done :
    (s : Store) (base limit : ℕ) (x : List ℕ × Store) (kept : List ℕ) (s' : Store)
    → Clears s base limit x.0 x.1
    → done x ≡ done (kept, s')
    → Clears s base limit kept s'
Clears-done s base limit x kept s' c h =
    subst (λ (y : List ℕ × Store). Clears s base limit y.0 y.1) (done-injective x (kept, s') h) c

-- One result after another.
Clears-append :
    (s s0 s1 : Store) (base limit : ℕ) (kept0 kept1 : List ℕ)
    → Clears s base limit kept0 s0
    → Clears s0 base limit kept1 s1
    → Clears s base limit (kept0 ++ kept1) s1
Clears-append s s0 s1 base limit kept0 kept1 c d = (
  All-append (IsClear s1 base limit) kept0 kept1
      (All-map (IsClear s0 base limit) (IsClear s1 base limit) kept0
        (λ k. IsClear-Extends s0 s1 base limit k d.1) c.0)
      d.0,
  λ k r e. d.1 k r (c.1 k r e),
  d.2,
)

-- A copy as the one range of a result.
copy-Clears :
    (s : Store) (p b l base limit : ℕ) (x : ℕ × Store)
    → IsFresh s
    → (l ≤ base) ⊎ (limit ≤ b)
    → copy s p b l ≡ done x
    → Clears s base limit (x.0 ∷ []) x.1
copy-Clears s p b l base limit x fresh side h =
    let (clear, ext, fresh') = copy-IsClear s p b l base limit x.0 x.1 fresh side h in
    ((clear, tt), ext, fresh')

apart_clear : (b l base limit : ℕ) → overlap b l base limit ≡ apart → (l ≤ base) ⊎ (limit ≤ b)
unfolding overlap
apart_clear b l base limit h = ground arith

carve-Clears :
    (s : Store) (p base limit : ℕ) (kept : List ℕ) (s' : Store)
    → IsFresh s
    → carve s p base limit ≡ done (kept, s')
    → Clears s base limit kept s'
unfolding carve
carve-Clears s p base limit kept s' fresh h =
    let (r, e, h') = >>=-eq-done (fetch s p) _ h in
    let b = r.base_address in
    let l = r.limit_address in
    elim (Overlap-cases (overlap b l base limit)) [
      | inl o ↦
          Clears-done s base limit (p ∷ [], s) kept s'
            (
              (
                record {
                  range = r;
                  present = object_of_fetch s p r e;
                  clear = apart_clear b l base limit o;
                },
                tt,
              ),
              λ k t f. f,
              fresh,
            )
            (rw o at h')
      | inr (inl o) ↦ Clears-done s base limit ([], s) kept s' (tt, λ k t f. f, fresh) (rw o at h')
      | inr (inr (inl o)) ↦
          let (low, f, h2) = >>=-eq-done (copy s p b base) _ (rw o at h') in
          let (high, g, h3) = >>=-eq-done (copy low.1 p limit l) _ h2 in
          let first = copy-Clears s p b base base limit low fresh (inl (omega arith)) f in
          Clears-done s base limit (low.0 ∷ high.0 ∷ [], high.1) kept s'
            (Clears-append s low.1 high.1 base limit (low.0 ∷ []) (high.0 ∷ []) first
              (copy-Clears low.1 p limit l base limit high first.2 (inr (omega arith)) g))
            h3
      | inr (inr (inr (inl o))) ↦
          let (high, g, h2) = >>=-eq-done (copy s p limit l) _ (rw o at h') in
          Clears-done s base limit (high.0 ∷ [], high.1) kept s'
            (copy-Clears s p limit l base limit high fresh (inr (omega arith)) g) h2
      | inr (inr (inr (inr o))) ↦
          let (low, g, h2) = >>=-eq-done (copy s p b base) _ (rw o at h') in
          Clears-done s base limit (low.0 ∷ [], low.1) kept s'
            (copy-Clears s p b base base limit low fresh (inl (omega arith)) g) h2
    ]

-- Whatever the ranges are, when RemoveRange of [base, limit) succeeds in a store whose next key is
-- free, each range of its result lies below `base` or from `limit` on, and the ranges that the
-- store had are still in it as they were.
pub remove_range-Clears :
    (s : Store) (ps : List ℕ) (base limit : ℕ) (kept : List ℕ) (s' : Store)
    → IsFresh s
    → remove_range s ps base limit ≡ done (kept, s')
    → Clears s base limit kept s'
unfolding remove_range
remove_range-Clears s [] base limit kept s' fresh h =
    Clears-done s base limit ([], s) kept s' (tt, λ k t f. f, fresh) h
remove_range-Clears s (p ∷ ps) base limit kept s' fresh h =
    let (first, f, h2) = >>=-eq-done (carve s p base limit) _ h in
    let (rest, g, h3) = >>=-eq-done (remove_range first.1 ps base limit) _ h2 in
    let head = carve-Clears s p base limit first.0 first.1 fresh f in
    let tail = remove_range-Clears first.1 ps base limit rest.0 rest.1 head.2 g in
    Clears-done s base limit (first.0 ++ rest.0, rest.1) kept s'
      (Clears-append s first.1 rest.1 base limit first.0 rest.0 head tail) h3
