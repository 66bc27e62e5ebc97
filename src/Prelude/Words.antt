-- ===== src/Prelude/Words.antt =====
-- uint64_t arithmetic and page arithmetic (the anonymous enums at the top of AddressSpace.cpp and
-- MappedRange.cpp, AlignDownToPage and RoundUpToPage).
use Prim.Native.Nat.{ℕ, ◌+◌, ◌-◌, ◌*◌, ◌/◌, ◌%◌, ◌^◌, ◌≤◌, ◌<◌}
use mathlib.Core.Path.{◌≡◌}
use native.Mathlib.Omega.{arith}

abbrev pub page_size : ℕ
page_size = 4096

abbrev pub word_mod : ℕ
word_mod = 2 ^ 64

abbrev pub add64 : ℕ → ℕ → ℕ
add64 a b = (a + b) % word_mod

abbrev pub sub64 : ℕ → ℕ → ℕ
sub64 a b = (a + word_mod - b) % word_mod

-- addr & kPageMask, where kPageMask clears the low 12 bits.
abbrev pub align_down_to_page : ℕ → ℕ
align_down_to_page a = a / 4096 * 4096

abbrev pub round_up_to_page : ℕ → ℕ
round_up_to_page size = align_down_to_page (add64 size 4095)

-- The page of an address is the one aligned page that holds it.
pub align_down_to_page_unique :
    (a p : ℕ) → p % page_size ≡ 0 → p ≤ a → a < p + page_size → align_down_to_page a ≡ p
align_down_to_page_unique a p h lo hi = omega arith

-- A size that does not overflow is rounded to the next multiple of the page size.
pub round_up_to_page_bounds :
    (size : ℕ)
    → size + 4095 < word_mod
    → (size ≤ round_up_to_page size)
      × (round_up_to_page size < size + page_size)
      × (round_up_to_page size % page_size ≡ 0)
round_up_to_page_bounds size h = (omega arith, omega arith, omega arith)
