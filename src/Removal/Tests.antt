-- ===== src/Removal/Tests.antt =====
-- The theorems about RemoveRange at concrete ranges.
use vmill.Prelude.{◌≡◌, refl, true, inl, inr, some, none, [], ◌∷◌, update, arith, done}
use vmill.Range.{empty, array, copy_on_write, MappedRange, Store, new_range}
use vmill.Range.Duplicates.{copy}
use vmill.Range.Frame.{IsValid}
use vmill.Range.Changes.{added}
use vmill.Removal.{overlap, carve, remove_range}
use vmill.Removal.Disjoint.{Clears, remove_range-Clears}
use vmill.Removal.Coverage.{Covers, IsCuttable, Cuts}
use vmill.Removal.Coverage.Cutting.{remove_range-Cuts}
use vmill.Removal.Coverage.Loss.{carve_top_lost}

-- Three pages of zeroes, and three pages of bytes behind a copy-on-write range.
abbrev zero_range : MappedRange
zero_range = new_range 8192 20480 (some []) 0 empty

abbrev byte_range : MappedRange
byte_range = new_range 8192 20480 (some []) 0 (array (λ i. i))

abbrev shared_range : MappedRange
shared_range = new_range 8192 20480 (some []) 0 (copy_on_write 1)

abbrev three_ranges : Store
three_ranges = record {
  object =
      update (update (update (λ _. none) 0 (some zero_range)) 1 (some byte_range)) 2
        (some shared_range);
  next = 3;
}

three_ranges-IsValid : IsValid three_ranges
three_ranges-IsValid = record {
  fresh = λ p le. ground arith;
  parents = λ p r q e b. record {
    root = byte_range;
    bytes = λ i. i;
    present = ground arith;
    is_array = refl;
    same_base = ground arith;
    same_limit = ground arith;
  };
}

zero_range-IsCuttable : IsCuttable three_ranges 12288 16384 0
zero_range-IsCuttable = record {
  range = zero_range;
  present = refl;
  paged = omega arith;
  aligned = refl;
  not_top = inr (inl (omega arith));
  plain = λ q h. cc;
}

byte_range-IsCuttable : IsCuttable three_ranges 12288 16384 1
byte_range-IsCuttable = record {
  range = byte_range;
  present = refl;
  paged = omega arith;
  aligned = refl;
  not_top = inr (inl (omega arith));
  plain = λ q h. cc;
}

remove_range-Cuts_example :
    Cuts three_ranges (0 ∷ 1 ∷ []) 12288 16384 (remove_range three_ranges (0 ∷ 1 ∷ []) 12288 16384)
remove_range-Cuts_example =
    remove_range-Cuts 12288 16384 refl refl (omega arith) three_ranges (0 ∷ 1 ∷ [])
      three_ranges-IsValid (zero_range-IsCuttable, (byte_range-IsCuttable, tt))

abbrev both_sides : Store
both_sides =
    added (added three_ranges (new_range 8192 12288 (some []) 0 empty))
      (new_range 16384 20480 (some []) 8192 empty)

both_sides_left : remove_range three_ranges (0 ∷ []) 12288 16384 ≡ done (3 ∷ 4 ∷ [], both_sides)
unfolding remove_range carve overlap copy
both_sides_left = refl

remove_range-Clears_example : Clears three_ranges 12288 16384 (3 ∷ 4 ∷ []) both_sides
remove_range-Clears_example =
    remove_range-Clears three_ranges (0 ∷ []) 12288 16384 (3 ∷ 4 ∷ []) both_sides
      (three_ranges-IsValid).fresh both_sides_left

abbrev inverted : Store
inverted = added three_ranges (new_range 8192 4096 (some []) 0 empty)

top_carved : carve three_ranges 0 4096 12288 ≡ done (3 ∷ [], inverted)
unfolding carve overlap copy
top_carved = refl

carve_top_lost_example : ¬ Covers inverted (3 ∷ []) 16384 (done (true, 0))
carve_top_lost_example =
    carve_top_lost three_ranges 0 4096 12288 zero_range (3 ∷ []) inverted refl (omega arith)
      (omega arith) (omega arith) top_carved 16384 (done (true, 0))
