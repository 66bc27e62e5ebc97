-- ===== src/Range/Tests.antt =====
-- The theorems about ranges at concrete stores, and runs of the operations.
use vmill.Prelude.{ℕ, ◌≡◌, refl, true, some, none, [], update, arith, done, undefined}
use vmill.Range.{empty, array, MappedRange, Store, new_range, read, write}
use vmill.Range.Duplicates.{clone, copy}
use vmill.Range.Frame.{IsValid, IsNoParent}
use vmill.Range.Clone.{IsClone}
use vmill.Range.Clone.Isolation.{clone-IsClone}
use vmill.Range.Bytes.{IsPaged}
use vmill.Range.Bytes.Writing.{IsWrite, write-IsWrite}
use vmill.Range.Copies.{IsCopy, copy-IsCopy}

-- Range 0 is an array over one page at 4096 whose byte at index i is i; range 1 is empty.
abbrev pages : MappedRange
pages = new_range 4096 8192 (some []) 0 (array (λ i. i))

abbrev zero_pages : MappedRange
zero_pages = new_range 8192 16384 (some []) 0 empty

abbrev two_ranges : Store
two_ranges = record {
  object = update (update (λ _. none) 0 (some pages)) 1 (some zero_pages);
  next = 2;
}

two_ranges-IsValid : IsValid two_ranges
two_ranges-IsValid = record {
  fresh = λ p le. ground arith;
  parents = λ p r q e b. absurd (ground arith);
}

two_ranges-IsNoParent : (p : ℕ) → IsNoParent two_ranges p
two_ranges-IsNoParent p k r e b = ground arith

clone-IsClone_example :
    (q : ℕ) × (s' : Store) × (clone two_ranges 0 ≡ done (q, s')) × IsClone two_ranges 0 q s'
clone-IsClone_example =
    clone-IsClone two_ranges 0 pages two_ranges-IsValid (two_ranges-IsNoParent 0) refl

pages-IsPaged : IsPaged zero_pages
pages-IsPaged = omega arith

write-IsWrite_example :
    (s' : Store) × (write two_ranges 1 9000 7 ≡ done (true, s'))
    × IsWrite two_ranges 1 zero_pages 9000 7 s'
write-IsWrite_example =
    write-IsWrite two_ranges 1 zero_pages two_ranges-IsValid (two_ranges-IsNoParent 1) refl
      pages-IsPaged 9000 7 (omega arith) (omega arith) (λ h. cc)

copy-IsCopy_example :
    (q : ℕ) × (s' : Store) × (copy two_ranges 1 8192 12288 ≡ done (q, s'))
    × IsCopy two_ranges 1 8192 12288 q s'
copy-IsCopy_example =
    copy-IsCopy two_ranges 1 zero_pages two_ranges-IsValid refl pages-IsPaged 8192 12288
      (omega arith) (omega arith) (omega arith) (omega arith) (λ q h. cc)

read_pages : read two_ranges 0 4100 ≡ done (true, 4)
unfolding read
read_pages = refl

read_past_end : read two_ranges 0 8192 ≡ undefined
unfolding read
read_past_end = refl
