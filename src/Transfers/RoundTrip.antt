-- ===== src/Transfers/RoundTrip.antt =====
-- What is copied to guest memory is read back from it.
use native.Mathlib.Nat.{mod_self, mod-eq_of_lt, mod-add-mod}
use vmill.Prelude.{
  ℕ, zero, suc, ◌+◌, ◌-◌, ◌*◌, ◌/◌, ◌%◌, ◌≡◌, ◌≢◌, ◌≤◌, ◌<◌, refl, ap, subst, ◌∙◌, Bool, true, some,
  length, List, [], ◌∷◌, leb, All, ◌==◌, if◌then◌else◌, arith, ℕ_discrete,
}
use vmill.Transfers.{
  copy_to_memory, copy_from_memory, try_read_memory, try_write_memory, can_access_memory,
  accessible_bytes_from,
}

next_lem :
    (width addr : ℕ)
    → addr < width
    → (addr + 1) % width ≡ (if addr + 1 == width then 0 else addr + 1)
next_lem width addr h = elim (ℕ_discrete (addr + 1) width) [
  | yes last ↦ rw last (mod_self width ∙ ground arith)
  | no before ↦ mod-eq_of_lt (omega arith) ∙ ground arith
]

-- The number of steps forward from `a` to `b`.
abbrev pub steps : ℕ → ℕ → ℕ → ℕ
steps width a b = if leb a b then b - a else b + width - a

-- When all bytes of a value can be accessed, the test of CanReadMemory and CanWriteMemory, which looks
-- at some of them, passes.
accessible_bytes_from_all :
    (can : ℕ → Bool) (width addr size n i : ℕ)
    → ((k : ℕ) → k < size → can ((addr + k) % width) ≡ true)
    → i + n * 4096 < size + 4096
    → size ≤ i + n * 4096
    → accessible_bytes_from can width addr size n i ≡ size
unfolding accessible_bytes_from
accessible_bytes_from_all can width addr size zero i all below enough =
    ground (arith, below, enough)
accessible_bytes_from_all can width addr size (suc n) i all below enough =
    rw (all i (omega (arith, below))) (
      accessible_bytes_from_all can width addr size n (i + 4096) all (omega (arith, below))
        (omega (arith, enough)))

can_access_memory_all :
    (can : ℕ → Bool) (width addr size : ℕ)
    → ((k : ℕ) → k < size → can ((addr + k) % width) ≡ true)
    → can_access_memory can width addr size ≡ true
can_access_memory_all can width addr size all =
    let count =
      accessible_bytes_from_all can width addr size ((size + 4095) / 4096) 0 all (omega arith)
        (omega arith) in
    rw count (ground arith)

-- The bytes of a value from an address on, in memory of `width` addresses.
abbrev pub Accessible : (ℕ → Bool) → ℕ → ℕ → ℕ → Type 0
Accessible can width addr size = (k : ℕ) → k < size → can ((addr + k) % width) ≡ true

Accessible-next :
    (can : ℕ → Bool) (width addr size : ℕ)
    → addr < width
    → Accessible can width addr (suc size)
    → Accessible can width ((addr + 1) % width) size
Accessible-next can width addr size h all k below =
    let next = next_lem width addr h in
    let same : ((addr + 1) % width + k) % width ≡ (addr + suc k) % width =
      mod-add-mod (addr + 1) width k ∙ ap (λ n. n % width) (omega arith) in
    rw same (all (suc k) (omega (arith, below)))

Accessible-here :
    (can : ℕ → Bool) (width addr size : ℕ)
    → addr < width
    → Accessible can width addr (suc size)
    → can addr ≡ true
Accessible-here can width addr size h all =
    let same : (addr + 0) % width ≡ addr = ap (λ n. n % width) (omega arith) ∙ mod-eq_of_lt h in
    subst (λ n. can n ≡ true) same (all 0 (omega arith))

-- `can` tells which bytes can be read and written. There, a byte that is written is read back, and
-- the other bytes of the memory stay; of other addresses nothing is said.
module _ {M : Type 0} (read : M → ℕ → ℕ) (write : M → ℕ → ℕ → M) (width : ℕ) (can : ℕ → Bool)
    (same : (m : M) (a v : ℕ) → can a ≡ true → v < 256 → read (write m a v) a ≡ v)
    (other : (m : M) (a v b : ℕ)
      → can a ≡ true
      → can b ≡ true
      → b ≢ a
      → read (write m a v) b ≡ read m b) where
  copy_to_memory_frame :
      (m : M) (addr b : ℕ) (vs : List ℕ)
      → addr < width
      → b < width
      → Accessible can width addr (length vs)
      → can b ≡ true
      → length vs ≤ steps width addr b
      → read (copy_to_memory read write width m addr vs) b ≡ read m b
  unfolding copy_to_memory
  copy_to_memory_frame m addr b [] h k all there le = refl
  copy_to_memory_frame m addr b (v ∷ vs) h k all there le =
      let next = next_lem width addr h in
      let here : b ≢ addr = λ e. ground arith in
      copy_to_memory_frame (write m addr v) ((addr + 1) % width) b vs (ground (arith, next)) k
        (Accessible-next can width addr (length vs) h all) there (ground (arith, next))
      ∙ other m addr v b (Accessible-here can width addr (length vs) h all) there here

  copy_round_trip :
      (m : M) (addr : ℕ) (vs : List ℕ)
      → addr < width
      → length vs ≤ width
      → All (λ v. v < 256) vs
      → Accessible can width addr (length vs)
      → copy_from_memory read write width
          (copy_to_memory read write width m addr vs)
          addr
          (length vs)
        ≡ vs
  unfolding copy_to_memory copy_from_memory
  copy_round_trip m addr [] h fits bytes all = refl
  copy_round_trip m addr (v ∷ vs) h fits (byte, bytes) all =
      let next = next_lem width addr h in
      let m' = write m addr v in
      let addr' = (addr + 1) % width in
      let rest = Accessible-next can width addr (length vs) h all in
      let here = Accessible-here can width addr (length vs) h all in
      let first : read (copy_to_memory read write width m' addr' vs) addr ≡ v =
        copy_to_memory_frame m' addr' addr vs (ground (arith, next)) h rest here
          (ground (arith, next))
        ∙ same m addr v here byte in
      rw (first, copy_round_trip m' addr' vs (ground (arith, next)) (omega arith) bytes rest) refl

  -- Take memory of which some bytes can be read and written: a byte that is written there is read
  -- back, and the other ones of them stay. If all bytes of a value are among them, at an address of the memory and for
  -- a value that is no larger than the memory, then TryWriteMemory and TryReadMemory pass their
  -- tests and give the value back, and those of them that do not belong to it, going forward
  -- from the address with its wrap-around, are as they were.
  pub try_write_memory-try_read_memory :
      (can_read can_write : ℕ → Bool)
      → ((a : ℕ) → can a ≡ true → can_read a ≡ true)
      → ((a : ℕ) → can a ≡ true → can_write a ≡ true)
      → (m : M) (addr : ℕ) (vs : List ℕ) → addr < width
      → length vs ≤ width
      → All (λ v. v < 256) vs
      → Accessible can width addr (length vs)
      → let r = try_write_memory read write width can_write m addr vs in
        (r.0 ≡ true)
        × (try_read_memory read write width can_read r.1 addr (length vs) ≡ some vs)
        × ((b : ℕ)
            → b < width
            → can b ≡ true
            → length vs ≤ steps width addr b
            → read r.1 b ≡ read m b)
  try_write_memory-try_read_memory can_read can_write reads writes m addr vs h fits bytes all =
      let reads_all =
        can_access_memory_all can_read width addr (length vs)
          (λ k below. reads ((addr + k) % width) (all k below)) in
      let writes_all =
        can_access_memory_all can_write width addr (length vs)
          (λ k below. writes ((addr + k) % width) (all k below)) in
      (
        rw writes_all refl,
        rw (writes_all, reads_all) (ap some (copy_round_trip m addr vs h fits bytes all)),
        λ b k there far. rw writes_all (copy_to_memory_frame m addr b vs h k all there far),
      )
