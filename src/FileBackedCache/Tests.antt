-- ===== src/FileBackedCache/Tests.antt =====
-- Entries of four bytes on a host where every call succeeds.
use vmill.Prelude.{ℕ, ◌≡◌, refl, Bool, true, [], ◌∷◌, done, arith, ◌>>=◌}
use vmill.FileBackedCache.{FileBackedCache, open_cache, close_cache, extend, contents, resized}
use vmill.FileBackedCache.Extending.{IsMapped, Extends, extend-Extends}
use vmill.FileBackedCache.Reopening.{extend-open_cache}

abbrev always : ℕ → Bool
always n = true

-- A page with one entry.
abbrev one_entry : FileBackedCache
one_entry = record {
  file = resized 4096 (1 ∷ 2 ∷ 3 ∷ 4 ∷ []);
  num_entries = 1;
  available = 1024;
  mapped_size = 4096;
}

one_entry-IsMapped : IsMapped 4 one_entry
unfolding resized
one_entry-IsMapped = record {
  mapped = refl;
  pages = refl;
  capacity = refl;
  entries_there = omega arith;
  in_limit = omega arith;
  no_more = omega arith;
}

extend-Extends_example :
    Extends 4 one_entry
      ((5 ∷ 6 ∷ 7 ∷ 8 ∷ []) ∷ [])
      (extend 4 always always one_entry ((5 ∷ 6 ∷ 7 ∷ 8 ∷ []) ∷ []))
extend-Extends_example =
    extend-Extends 4 (omega arith) always always (λ n h. refl) (λ n h. refl) one_entry
      ((5 ∷ 6 ∷ 7 ∷ 8 ∷ []) ∷ []) one_entry-IsMapped (refl, tt) (omega arith)

-- The rest of an entry at the end of the file is overwritten.
extend-open_cache_example :
    (c : FileBackedCache) × (c' : FileBackedCache) × ((open_cache 4 always always
          (1 ∷ 2 ∷ 3 ∷ 4 ∷ 9 ∷ [])
        >>= λ o. extend 4 always always o ((5 ∷ 6 ∷ 7 ∷ 8 ∷ []) ∷ []))
      ≡ done c)
    × (open_cache 4 always always (close_cache 4 always always c) ≡ done c')
    × (contents 4 c' ≡ 1 ∷ 2 ∷ 3 ∷ 4 ∷ 5 ∷ 6 ∷ 7 ∷ 8 ∷ [])
extend-open_cache_example =
    extend-open_cache 4 (omega arith) always always (λ n h. refl) (λ n h. refl)
      (1 ∷ 2 ∷ 3 ∷ 4 ∷ 9 ∷ []) ((5 ∷ 6 ∷ 7 ∷ 8 ∷ []) ∷ []) (refl, tt) (omega arith) (omega arith)
