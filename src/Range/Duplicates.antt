-- ===== src/Range/Duplicates.antt =====
-- MappedRange.cpp: Clone and Copy of each class of range, and the code versions.
use vmill.Prelude.{
  ℕ, zero, suc, ◌+◌, ◌-◌, true, false, some, List, [], ◌∷◌, if◌then◌else◌, update, add64, sub64,
  Outcome, done, undefined, ◌>>=◌,
}
use vmill.Range.{
  invalid, empty, array, copy_on_write, MappedRange, Store, fetch, put, make_shared, size, contains,
  new_range, new_array, new_copy_on_write, in_array,
}

-- An array hands its bytes to a new array, turns itself into a copy-on-write range over that one,
-- and clones itself as such.
unfoldable pub clone : Store → ℕ → Outcome (ℕ × Store)
clone s p = do
  r ← fetch s p
  let same = new_range r.base_address r.limit_address (some r.name) r.offset
  elim r.body [
    | invalid ↦ done (make_shared s (same invalid))
    | empty ↦ done (make_shared s (same empty))
    | array bytes ↦ do
      let stolen = make_shared s (same (array bytes))
      self ← new_copy_on_write stolen.1 stolen.0
      let s' = put stolen.1 p self
      twin ← new_copy_on_write s' stolen.0
      done (make_shared s' twin)
    | copy_on_write q ↦ do twin ← new_copy_on_write s q; done (make_shared s twin)
  ]

-- The loop of ArrayMemoryMap::Copy: `n` addresses from `a` on, the i-th byte of the new array each.
unfoldable pub copy_contained : MappedRange → (ℕ → ℕ) → ℕ → ℕ → ℕ → (ℕ → ℕ) → Outcome (ℕ → ℕ)
copy_contained r bytes zero a i out = done out
copy_contained r bytes (suc n) a i out = do
  let j = sub64 a r.base_address
  out' ← if contains r a then in_array r j (update out i (bytes j)) else done out
  copy_contained r bytes n (a + 1) (i + 1) out'

-- CopyOnWriteMemoryMap(parent_, base, limit) reads the member `parent` before it is constructed.
unfoldable pub copy : Store → ℕ → ℕ → ℕ → Outcome (ℕ × Store)
copy s p base limit = do
  r ← fetch s p
  let offset = add64 r.offset (sub64 base r.base_address)
  elim r.body [
    | invalid ↦ done (make_shared s (new_range base limit (some r.name) offset invalid))
    | empty ↦ done (make_shared s (new_range base limit (some r.name) offset empty))
    | array bytes ↦ do
      self ← new_array base limit (some r.name) offset
      out ← copy_contained r bytes (limit - base) base 0 (λ _. 0)
      done (make_shared s (record self { body = array out }))
    | copy_on_write q ↦ undefined
  ]

unfoldable pub invalidate_code_version : Store → ℕ → Outcome Store
invalidate_code_version s p = do
  r ← fetch s p
  done (put s p (record r { code_version_is_valid = false }))

bytes_from : (ℕ → ℕ) → ℕ → ℕ → List ℕ
bytes_from bytes zero i = []
bytes_from bytes (suc n) i = bytes i ∷ bytes_from bytes n (i + 1)

-- `hash` is the XXH64 digest of the bytes. A copy-on-write range asks its parent.
module _ (hash : List ℕ → ℕ) where
  version_within : ℕ → Store → ℕ → Outcome (ℕ × Store)
  unfolding bytes_from
  version_within zero s p = undefined
  version_within (suc d) s p = do
    r ← fetch s p
    elim r.body [
      | invalid ↦ done (0, s)
      | empty ↦ done (0, s)
      | array bytes ↦
          let version = hash (bytes_from bytes (size r) 0) in
          if r.code_version_is_valid
          then done (r.code_version, s)
          else done
              (version, put s p (record r { code_version = version; code_version_is_valid = true }))
      | copy_on_write q ↦ version_within d s q
    ]

  unfoldable pub compute_code_version : Store → ℕ → Outcome (ℕ × Store)
  unfolding version_within
  compute_code_version = version_within 2
