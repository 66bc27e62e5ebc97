-- ===== src/FileBackedCache.antt =====
-- vmill/Util/FileBackedCache.h: a sequence of entries in a file that is mapped into memory. The mapping
-- is shared, so that the bytes at `base` are those of the file.
pub mod Bytes
pub mod Extending
pub mod Reopening
mod Tests
use vmill.Prelude.{
  ℕ, zero, suc, ◌+◌, ◌*◌, ◌/◌, Bool, true, false, length, List, [], ◌∷◌, ◌++◌, ltb, leb, ◌==◌,
  if◌then◌else◌, take, Outcome, done, check_failed, undefined, ◌>>=◌, ◌>>◌, check,
}

-- `num_entries` and `available` are soft_limit and hard_limit, counted from base; `mapped_size` is how
-- many bytes from base on are mapped to the file.
pub record FileBackedCache : Type 0 where
  pub file : List ℕ
  pub num_entries : ℕ
  pub available : ℕ
  pub mapped_size : ℕ

abbrev pub max_cache_file_size : ℕ
max_cache_file_size = 64 * 1048576

-- (size + 4095ULL) & ~4095ULL.
abbrev pub whole_pages : ℕ → ℕ
whole_pages size = (size + 4095) / 4096 * 4096

-- ftruncate of a file of these bytes.
unfoldable pub resized : ℕ → List ℕ → List ℕ
resized zero xs = []
resized (suc n) [] = 0 ∷ resized n []
resized (suc n) (x ∷ xs) = x ∷ resized n xs

-- Bytes stored into the mapping from an offset on.
unfoldable pub stored_at : ℕ → List ℕ → List ℕ → List ℕ
stored_at zero [] xs = xs
stored_at zero (b ∷ bs) [] = []
stored_at zero (b ∷ bs) (x ∷ xs) = b ∷ stored_at zero bs xs
stored_at (suc n) bs [] = []
stored_at (suc n) bs (x ∷ xs) = x ∷ stored_at n bs xs

-- The bytes of entries one after the other.
abbrev pub joined : List (List ℕ) → List ℕ
joined [] = []
joined (e ∷ es) = e ++ joined es

-- `size` is sizeof(T).
module _ (size : ℕ) where
  -- Open, from the test of the mapping on.
  abbrev limited : List ℕ → ℕ → ℕ → FileBackedCache
  limited file file_size mapped_size = record {
    file = file;
    num_entries = file_size / size;
    available = mapped_size / size;
    mapped_size = mapped_size;
  }

  -- The end of Extend: the limits, and the copy of the entries, which faults outside of the mapping.
  unfoldable pub copied_in : List (List ℕ) → FileBackedCache → Outcome FileBackedCache
  copied_in entries c =
      let new_num_entries = length entries + c.num_entries in
      let hard = whole_pages (new_num_entries * size) / size in
      let start = c.num_entries * size in
      check (leb new_num_entries hard)
      >> (if leb (start + length (joined entries)) c.mapped_size
          then done (record {
            file = stored_at start (joined entries) c.file;
            num_entries = new_num_entries;
            available = hard;
            mapped_size = c.mapped_size;
          })
          else undefined)

  -- What begin and end delimit.
  abbrev pub contents : FileBackedCache → List ℕ
  contents c = take (c.num_entries * size) c.file

-- `truncates` and `maps` are whether ftruncate to a size and mmap of a size succeed.
module _ (truncates maps : ℕ → Bool) where
  -- The growth of the file and of the mapping.
  unfoldable pub grown : ℕ → FileBackedCache → Outcome FileBackedCache
  grown new_hard_size c =
      check (leb new_hard_size max_cache_file_size)
      >> check (truncates new_hard_size)
      >> check (maps new_hard_size)
      >> done (record c { file = resized new_hard_size c.file; mapped_size = new_hard_size })

module _ (size : ℕ) (truncates maps : ℕ → Bool) where
  unfoldable pub open_cache : List ℕ → Outcome FileBackedCache
  open_cache bytes =
      let file_size = length bytes in
      let mapped_size = whole_pages file_size in
      check (if ltb file_size mapped_size then truncates mapped_size else true)
      >> (if mapped_size == 0
          then done (limited size [] 0 0)
          else if maps mapped_size
          then done (limited size (resized mapped_size bytes) file_size mapped_size)
          else check (truncates 0) >> done (limited size [] 0 0))

  unfoldable pub extend : FileBackedCache → List (List ℕ) → Outcome FileBackedCache
  extend c [] = done c
  extend c (e ∷ es) =
      let new_num_entries = length (e ∷ es) + c.num_entries in
      if ltb c.available new_num_entries
      then grown truncates maps (whole_pages (new_num_entries * size)) c >>= copied_in size (e ∷ es)
      else copied_in size (e ∷ es) c

  abbrev pub append : FileBackedCache → List ℕ → Outcome FileBackedCache
  append c entry = extend c (entry ∷ [])

  -- The destructor, which does not look at the result of ftruncate: what is left in the file.
  unfoldable pub close_cache : FileBackedCache → List ℕ
  close_cache c =
      let shrunk = size * c.num_entries in
      if ltb c.num_entries c.available
      then if truncates shrunk then resized shrunk c.file else c.file
      else c.file
