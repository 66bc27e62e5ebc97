-- ===== src/FileBackedCache/Extending.antt =====
-- What Extend keeps and adds (vmill/Util/FileBackedCache.h).
use mathlib.Core.List.{append-nil}
use vmill.Prelude.{
  ℕ, ◌+◌, ◌*◌, ◌/◌, ◌%◌, ◌≤◌, ◌<◌, ◌≡◌, refl, ap, sym, ◌∙◌, subst, length, List, [], ◌∷◌, ◌++◌, All,
  arith, Bool, true, Outcome, done, ltb, leb, Bool-cases, inl, inr,
}
use vmill.FileBackedCache.{
  FileBackedCache, resized, stored_at, joined, whole_pages, max_cache_file_size, grown, copied_in,
  extend, contents,
}
use vmill.FileBackedCache.Bytes.{
  length-resized, take-resized, length-stored_at, take-stored_at, length-joined,
}

-- The file is mapped in whole pages, at most as many as the entries and a part of one need.
pub record IsMapped (size : ℕ) (c : FileBackedCache) : Type 0 where
  pub mapped : length c.file ≡ c.mapped_size
  pub pages : c.mapped_size % 4096 ≡ 0
  pub capacity : c.available ≡ c.mapped_size / size
  pub entries_there : c.num_entries * size ≤ c.mapped_size
  pub in_limit : c.mapped_size ≤ max_cache_file_size
  pub no_more : c.mapped_size < c.num_entries * size + size + 4095

-- The result of adding entries at the end.
abbrev pub Extends : ℕ → FileBackedCache → List (List ℕ) → Outcome FileBackedCache → Type 0
Extends size c es m =
    (c' : FileBackedCache) × (m ≡ done c')
    × IsMapped size c'
    × (contents size c' ≡ contents size c ++ joined es)

-- The host's ftruncate and mmap succeed up to the maximal size.
abbrev pub Succeeds : (ℕ → Bool) → Type 0
Succeeds f = (n : ℕ) → n ≤ max_cache_file_size → f n ≡ true

pub whole_pages_bounds :
    (n : ℕ) → (n ≤ whole_pages n) × (whole_pages n < n + 4096) × (whole_pages n % 4096 ≡ 0)
whole_pages_bounds n = (omega arith, omega arith, omega arith)

pub le-div : (a b size : ℕ) → 0 < size → a * size ≤ b → a ≤ b / size
le-div a b size some_size h = grind arith

pub mul-le : (a b size : ℕ) → a ≤ b / size → a * size ≤ b
mul-le a b size h = grind arith

module _ (size : ℕ) (some_size : 0 < size) where
  -- The record that copied_in gives.
  abbrev with_entries : FileBackedCache → List (List ℕ) → FileBackedCache
  with_entries c es = record {
    file = stored_at (c.num_entries * size) (joined es) c.file;
    num_entries = length es + c.num_entries;
    available = whole_pages ((length es + c.num_entries) * size) / size;
    mapped_size = c.mapped_size;
  }

  module _ (c : FileBackedCache) (es : List (List ℕ)) (mapped : length c.file ≡ c.mapped_size)
      (whole : c.mapped_size ≡ whole_pages ((length es + c.num_entries) * size))
      (sizes : All (λ e. length e ≡ size) es)
      (fit : whole_pages ((length es + c.num_entries) * size) ≤ max_cache_file_size) where
    abbrev total : ℕ
    total = (length es + c.num_entries) * size

    split : total ≡ c.num_entries * size + length (joined es)
    split = let len = length-joined size es sizes in grind arith

    fits : total ≤ c.mapped_size
    fits = omega (arith, whole, (whole_pages_bounds total).0)

    copied_in_done : copied_in size es c ≡ done (with_entries c es)
    unfolding copied_in
    copied_in_done =
        let enough =
          le-div (length es + c.num_entries) (whole_pages total) size some_size
            (whole_pages_bounds total).0 in
        let in_limit : leb (length es + c.num_entries) (whole_pages total / size) ≡ true =
          ground (arith, enough) in
        let in_mapping : leb (c.num_entries * size + length (joined es)) c.mapped_size ≡ true =
          ground (arith, fits, split) in
        rw (in_limit, in_mapping) refl

    with_entries-IsMapped : IsMapped size (with_entries c es)
    with_entries-IsMapped =
        let (low, high, pages) = whole_pages_bounds total in
        record {
          mapped = length-stored_at (c.num_entries * size) (joined es) c.file ∙ mapped;
          pages = ap (λ n. n % 4096) whole ∙ pages;
          capacity = ap (λ n. n / size) (sym whole);
          entries_there = fits;
          in_limit = omega (arith, whole, fit);
          no_more = omega (arith, whole, high, some_size);
        }

    contents-with_entries : contents size (with_entries c es) ≡ contents size c ++ joined es
    contents-with_entries =
        take-stored_at total (c.num_entries * size) (joined es) c.file split
          (omega (arith, fits, mapped))

  module _ (truncates maps : ℕ → Bool) (ts : Succeeds truncates) (ms : Succeeds maps) where
    -- The file and its mapping after they have grown to `n` bytes.
    abbrev larger : ℕ → FileBackedCache → FileBackedCache
    larger n c = record c { file = resized n c.file; mapped_size = n }

    grown_lem :
        (n : ℕ) (c : FileBackedCache)
        → n ≤ max_cache_file_size
        → grown truncates maps n c ≡ done (larger n c)
    unfolding grown
    grown_lem n c h =
        let in_limit : leb n max_cache_file_size ≡ true = ground (arith, h) in
        rw (in_limit, ts n h, ms n h) refl

    contents-larger :
        (n : ℕ) (c : FileBackedCache)
        → IsMapped size c
        → c.num_entries * size ≤ n
        → contents size (larger n c) ≡ contents size c
    contents-larger n c is h =
        take-resized (c.num_entries * size) n c.file h (omega (arith, is.mapped, is.entries_there))

    -- A mapping that has room for one more entry at least is as large as all entries need.
    room :
        (c : FileBackedCache) (n : ℕ)
        → IsMapped size c
        → c.num_entries < n
        → n ≤ c.available
        → c.mapped_size ≡ whole_pages (n * size)
    room c n is more h =
        let above : c.num_entries * size + size ≤ n * size = grind arith in
        let below : n * size ≤ c.mapped_size =
          mul-le n c.mapped_size size (subst (λ k. n ≤ k) is.capacity h) in
        omega (arith, above, below, is.pages, is.no_more)

    -- On a cache whose file is mapped as Open and Extend map it, Extend by entries of the size of T that
    -- the largest file has room for ends, on a host whose ftruncate and mmap succeed, in such a cache,
    -- with the new entries after the old ones.
    pub extend-Extends :
        (c : FileBackedCache) (es : List (List ℕ))
        → IsMapped size c
        → All (λ e. length e ≡ size) es
        → whole_pages ((length es + c.num_entries) * size) ≤ max_cache_file_size
        → Extends size c es (extend size truncates maps c es)
    unfolding extend
    extend-Extends c [] is sizes fit = (c, refl, is, sym (append-nil (contents size c)))
    extend-Extends c (e ∷ es) is sizes fit =
        let n = length (e ∷ es) + c.num_entries in
        elim (Bool-cases (ltb c.available n)) [
          | inl full ↦
              let hard = whole_pages (n * size) in
              let c' = larger hard c in
              let kept : c.num_entries * size ≤ hard = grind arith in
              let there = length-resized hard c.file in
              (
                with_entries c' (e ∷ es),
                rw (full, grown_lem hard c fit) (copied_in_done c' (e ∷ es) there refl sizes fit),
                with_entries-IsMapped c' (e ∷ es) there refl sizes fit,
                contents-with_entries c' (e ∷ es) there refl sizes fit
                    ∙ ap (λ xs. xs ++ joined (e ∷ es)) (contents-larger hard c is kept),
              )
          | inr rest ↦
              let whole = room c n is (omega arith) (ground (arith, rest)) in
              (
                with_entries c (e ∷ es),
                rw rest (copied_in_done c (e ∷ es) is.mapped whole sizes fit),
                with_entries-IsMapped c (e ∷ es) is.mapped whole sizes fit,
                contents-with_entries c (e ∷ es) is.mapped whole sizes fit,
              )
        ]
