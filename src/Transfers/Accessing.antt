-- ===== src/Transfers/Accessing.antt =====
-- Which addresses NumReadableBytes and NumWritableBytes of vmill/Runtime/Generic/Memory.cpp test.
use vmill.Prelude.{
  ℕ, ◌+◌, ◌/◌, ◌%◌, ◌<◌, ◌≤◌, ◌==◌, ltb, ◌≡◌, refl, ap, ◌∙◌, Bool, true, false, if◌then◌else◌,
  arith,
}
use vmill.Transfers.{num_accessible_bytes, accessible_bytes_from, can_access_memory}

one_round :
    (can : ℕ → Bool) (width addr size : ℕ)
    → 0 < size
    → size ≤ 4096
    → accessible_bytes_from can width addr size 1 0 ≡ (if can (addr % width) then size else 0)
unfolding accessible_bytes_from
one_round can width addr size some_bytes small =
    let same : addr + 0 ≡ addr = omega arith in
    let whole : (if ltb size 4096 then size else 4096) ≡ size = ground arith in
    rw (same, whole) refl

-- The test of at least one and at most 4096 bytes is that of the first byte: it holds where the
-- bytes go over into a page that cannot be accessed.
pub can_access_memory_first :
    (can : ℕ → Bool) (width addr size : ℕ)
    → 0 < size
    → size ≤ 4096
    → can_access_memory can width addr size ≡ can (addr % width)
can_access_memory_first can width addr size some_bytes small =
    let rounds : (size + 4095) / 4096 ≡ 1 = omega arith in
    let count : num_accessible_bytes can width addr size
        ≡ (if can (addr % width) then size else 0) =
      ap (λ n. accessible_bytes_from can width addr size n 0) rounds
      ∙ one_round can width addr size some_bytes small in
    ap (λ n. size == n) count ∙ test (can (addr % width))
  where
    test : (b : Bool) → (size == (if b then size else 0)) ≡ b
    test true = ground arith
    test false = ground arith
