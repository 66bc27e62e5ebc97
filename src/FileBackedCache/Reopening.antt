-- ===== src/FileBackedCache/Reopening.antt =====
-- What Open finds in a file that the destructor left (vmill/Util/FileBackedCache.h).
use native.Mathlib.Nat
use vmill.Prelude.{
  All, ◌++◌, ◌>>=◌, ℕ, ◌+◌, ◌*◌, ◌/◌, ◌≤◌, ◌<◌, ◌≡◌, refl, ap, ◌∙◌, length, take, List, [], ◌∷◌,
  arith, Bool, true, false, done, ltb, ◌==◌, Bool-cases, inl, inr, if◌then◌else◌,
}
use vmill.FileBackedCache.{
  joined, extend, FileBackedCache, resized, whole_pages, max_cache_file_size, open_cache,
  close_cache, contents, limited,
}
use vmill.FileBackedCache.Bytes.{length-resized, take-resized}
use vmill.FileBackedCache.Extending.{
  extend-Extends, IsMapped, Succeeds, whole_pages_bounds, le-div, mul-le,
}

either_true : (b v : Bool) → v ≡ true → (if b then v else true) ≡ true
either_true true v h = h
either_true false v h = refl

module _ (size : ℕ) (some_size : 0 < size) (truncates maps : ℕ → Bool) (ts : Succeeds truncates)
    (ms : Succeeds maps) where
  abbrev opened : List ℕ → FileBackedCache
  opened bytes =
      let mapped_size = whole_pages (length bytes) in
      limited size (resized mapped_size bytes) (length bytes) mapped_size

  opened-IsMapped :
      (bytes : List ℕ)
      → whole_pages (length bytes) ≤ max_cache_file_size
      → IsMapped size (opened bytes)
  opened-IsMapped bytes fit =
      let (low, high, pages) = whole_pages_bounds (length bytes) in
      let whole = mul-le (length bytes / size) (length bytes) size (omega arith) in
      let part : length bytes < length bytes / size * size + size = grind arith in
      record {
        mapped = length-resized (whole_pages (length bytes)) bytes;
        pages = pages;
        capacity = refl;
        entries_there = omega (arith, low, whole);
        in_limit = fit;
        no_more = omega (arith, high, part);
      }

  open_cache_lem :
      (bytes : List ℕ)
      → whole_pages (length bytes) ≤ max_cache_file_size
      → open_cache size truncates maps bytes ≡ done (opened bytes)
  unfolding open_cache resized
  open_cache_lem [] fit = refl
  open_cache_lem (b ∷ bytes) fit =
      let mapped_size = whole_pages (length (b ∷ bytes)) in
      let grows =
        either_true (ltb (length (b ∷ bytes)) mapped_size) (truncates mapped_size)
          (ts mapped_size fit) in
      let some_pages : (mapped_size == 0) ≡ false = ground arith in
      rw (grows, some_pages, ms mapped_size fit) refl

  contents-opened :
      (bytes : List ℕ) → contents size (opened bytes) ≡ take (length bytes / size * size) bytes
  contents-opened bytes =
      let whole = mul-le (length bytes / size) (length bytes) size (omega arith) in
      take-resized (length bytes / size * size) (whole_pages (length bytes)) bytes
        (omega (arith, whole, (whole_pages_bounds (length bytes)).0)) whole

  -- A file with the entries of a cache, in which Open finds as many.
  abbrev Leaves : FileBackedCache → List ℕ → Type 0
  Leaves c bytes =
      (length bytes / size ≡ c.num_entries)
      × (take (c.num_entries * size) bytes ≡ contents size c)
      × (whole_pages (length bytes) ≤ max_cache_file_size)

  shrunk-Leaves :
      (c : FileBackedCache) → IsMapped size c → Leaves c (resized (size * c.num_entries) c.file)
  shrunk-Leaves c is =
      let n = size * c.num_entries in
      let len = length-resized n c.file in
      let same_size : c.num_entries * size ≡ n = grind arith in
      (
        ap (λ k. k / size) len ∙ Nat.mul-div_cancel_left c.num_entries some_size,
        take-resized (c.num_entries * size) n c.file (omega (arith, same_size))
            (omega (arith, is.mapped, is.entries_there)),
        omega (arith, len, same_size, is.entries_there, is.pages, is.in_limit),
      )

  whole-Leaves :
      (c : FileBackedCache) → IsMapped size c → c.available ≤ c.num_entries → Leaves c c.file
  whole-Leaves c is full =
      let most = le-div c.num_entries c.mapped_size size some_size is.entries_there in
      let number : c.mapped_size / size ≡ c.num_entries = omega (arith, most, full, is.capacity) in
      (ap (λ k. k / size) is.mapped ∙ number, refl, omega (arith, is.mapped, is.pages, is.in_limit))

  closed : (c : FileBackedCache) → IsMapped size c → Leaves c (close_cache size truncates maps c)
  unfolding close_cache
  closed c is = elim (Bool-cases (ltb c.num_entries c.available)) [
    | inl more ↦
        let small : size * c.num_entries ≤ max_cache_file_size =
          grind (arith, is.entries_there, is.in_limit) in
        rw (more, ts (size * c.num_entries) small) (shrunk-Leaves c is)
    | inr full ↦ rw full (whole-Leaves c is (ground (arith, full)))
  ]

  -- Opening the file that the destructor of such a cache leaves gives a cache with the same entries, on a
  -- host whose ftruncate and mmap succeed.
  pub open_cache-close_cache :
      (c : FileBackedCache)
      → IsMapped size c
      → (c' : FileBackedCache) × (open_cache size truncates maps (close_cache size truncates maps c)
          ≡ done c')
        × IsMapped size c'
        × (c'.num_entries ≡ c.num_entries)
        × (contents size c' ≡ contents size c)
  open_cache-close_cache c is =
      let left = close_cache size truncates maps c in
      let (number, same, small) = closed c is in
      (
        opened left,
        open_cache_lem left small,
        opened-IsMapped left small,
        number,
        contents-opened left ∙ ap (λ n. take (n * size) left) number ∙ same,
      )

  -- Entries of the size of T that are appended to a file, and that the largest file has room for, are
  -- there after the whole entries of the file when it is closed and opened again, on a host whose
  -- ftruncate and mmap succeed.
  pub extend-open_cache :
      (bytes : List ℕ) (es : List (List ℕ))
      → All (λ e. length e ≡ size) es
      → whole_pages (length bytes) ≤ max_cache_file_size
      → whole_pages ((length es + length bytes / size) * size) ≤ max_cache_file_size
      → (c : FileBackedCache) × (c' : FileBackedCache) × ((open_cache size truncates maps bytes
            >>= λ o. extend size truncates maps o es)
          ≡ done c)
        × (open_cache size truncates maps (close_cache size truncates maps c) ≡ done c')
        × (contents size c' ≡ take (length bytes / size * size) bytes ++ joined es)
  extend-open_cache bytes es sizes small fit =
      let is = opened-IsMapped bytes small in
      let (c, made, ok, has) =
        extend-Extends size some_size truncates maps ts ms (opened bytes) es is sizes fit in
      let (c', again, _, _, same) = open_cache-close_cache c ok in
      (
        c,
        c',
        rw (open_cache_lem bytes small) made,
        again,
        same ∙ has ∙ ap (λ xs. xs ++ joined es) (contents-opened bytes),
      )
