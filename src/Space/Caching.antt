-- ===== src/Space/Caching.antt =====
-- When the cached lookup of a range agrees with the page tables, and when it does not.
use vmill.Prelude.{
  ℕ, ◌≡◌, ◌∙◌, refl, inl, inr, true, Option, none, some, ◌%◌, update, arith, page_size, done,
  Option-cases, Bool-cases, subst, ℕ_discrete,
}
use vmill.Range.{MappedRange, Store, contains}
use vmill.Space.{AddressSpace}
use vmill.Space.Lookup.{cached, find_cached, find_wnx_range_aligned, range_cache_size, cache_index}

-- Every page of the range `p` has `p` in the table.
pub record IsFull (s : Store) (table : ℕ → Option ℕ) (p : ℕ) : Type 0 where
  pub range : MappedRange
  pub present : s.object p ≡ some range
  pub pages : (page : ℕ) → page % page_size ≡ 0 → contains range page ≡ true → table page ≡ some p

abbrev pub IsCoherent : Store → (ℕ → Option ℕ) → (ℕ → Option ℕ) → Type 0
IsCoherent s table cache = (i p : ℕ) → cache i ≡ some p → IsFull s table p

-- What the table says, without a cache.
abbrev pub answer : (ℕ → Option ℕ) → ℕ → ℕ → ℕ
answer table invalid page = elim (table page) [ none ↦ invalid | some p ↦ p ]

module _ (s : Store) (table cache : ℕ → Option ℕ) (page invalid : ℕ)
    (aligned : page % page_size ≡ 0) (coherent : IsCoherent s table cache) where
  abbrev CachedSays : Option ℕ → Option ℕ → Type 0
  CachedSays slot out =
      (cached s slot page ≡ done out)
      × ((p : ℕ) → out ≡ some p → (slot ≡ some p) × (table page ≡ some p))

  cached_lem :
      (slot : Option ℕ)
      → ((p : ℕ) → slot ≡ some p → IsFull s table p)
      → (out : Option ℕ) × CachedSays slot out
  unfolding cached
  cached_lem none full = (none, (refl, λ p e. cc))
  cached_lem (some p) full =
      let f = full p refl in
      elim (Bool-cases (contains f.range page)) [
        | inl has ↦ (some p, (ground (arith, f.present), λ q e. (e, f.pages page aligned has ∙ e)))
        | inr lacks ↦ (none, (ground (arith, f.present), λ q e. cc))
      ]

  IsCoherent-update :
      (i p : ℕ) (c : ℕ → Option ℕ)
      → IsCoherent s table c
      → IsFull s table p
      → IsCoherent s table (update c i (some p))
  IsCoherent-update i p c h full j q e = elim (ℕ_discrete j i) [
    | yes same ↦ subst (IsFull s table) (ground arith) full
    | no other ↦ h j q (ground arith)
  ]

  -- If each range of the table has all its pages there, and the cache is coherent with the table,
  -- the cached lookup of a page gives what the table says, or the invalid range if that says
  -- nothing, and leaves a coherent cache.
  pub find_cached_lem :
      ((a p : ℕ) → table a ≡ some p → IsFull s table p)
      → (cache' : ℕ → Option ℕ) × (find_cached s table invalid cache page
          ≡ done (answer table invalid page, cache'))
        × IsCoherent s table cache'
  unfolding find_cached
  find_cached_lem full =
      let (last, first) = cached_lem (cache range_cache_size) (coherent range_cache_size) in
      let (e1, says1) = first in
      let (slot, second) = cached_lem (cache (cache_index page)) (coherent (cache_index page)) in
      let (e2, says2) = second in
      elim (Option-cases last) [
        | inr (p, l) ↦ (cache, ground (arith, says1 p), coherent)
        | inl l ↦ elim (Option-cases slot) [
          | inr (p, m) ↦ (
            update cache range_cache_size (some p),
            ground (arith, says2 p),
            IsCoherent-update range_cache_size p cache coherent
                (coherent (cache_index page) p (says2 p m).0),
          )
          | inl m ↦ elim (Option-cases (table page)) [
            | inl n ↦ (cache, ground arith, coherent)
            | inr (p, n) ↦ (
              update (update cache range_cache_size (some p)) (cache_index page) (some p),
              ground arith,
              IsCoherent-update (cache_index page) p _
                  (IsCoherent-update range_cache_size p cache coherent (full page p n))
                  (full page p n),
            )
          ]
        ]
      ]

-- With empty caches, take a range with one page that wnx_page_to_map has and another that it has
-- not, say since that page is read-only. The lookup of the other page for a write gives the invalid
-- range at first, and the range itself once the first page has been looked up.
pub find_wnx_range_stale :
    (s : Store) (sp : AddressSpace) (p page other : ℕ) (r : MappedRange)
    → ((i : ℕ) → sp.wnx_last_map_cache i ≡ none)
    → s.object p ≡ some r
    → contains r page ≡ true
    → contains r other ≡ true
    → sp.wnx_page_to_map page ≡ some p
    → sp.wnx_page_to_map other ≡ none
    → (find_wnx_range_aligned s sp other ≡ done (sp.invalid_map, sp))
      × ((sp' : AddressSpace) × (find_wnx_range_aligned s sp page ≡ done (p, sp'))
          × (find_wnx_range_aligned s sp' other ≡ done (p, sp')))
unfolding find_wnx_range_aligned find_cached cached
find_wnx_range_stale s sp p page other r cold e has has' first second = (
  ground (arith, cold range_cache_size, cold (cache_index other)),
  (
    record sp {
      wnx_last_map_cache =
          update (update sp.wnx_last_map_cache range_cache_size (some p)) (cache_index page)
            (some p);
    },
    ground (arith, cold range_cache_size, cold (cache_index page)),
    ground arith,
  ),
)
