-- ===== src/Area/Allocating.antt =====
-- AreaAllocator::Allocate: where an allocation lies, what it leaves alone, and that it succeeds.
use vmill.Prelude.{
  ℕ, ◌+◌, ◌-◌, ◌*◌, ◌/◌, ◌%◌, ◌≤◌, ◌<◌, ◌≡◌, ◌≢◌, inl, inr, ◌∙◌, refl, sym, ap, subst, Bool, true,
  Bool-cases, Option, Option-cases, List, ltb, leb, ◌==◌, if◌then◌else◌, arith, Outcome, done,
  >>=-eq-done, done-injective,
}
use native.Mathlib.Omega.{div_any}
use native.Mathlib.Nat.{mod-lt, mul-mod_right}
use vmill.Area.{
  AreaAllocator, HostMemory, filled, fresh, initial, grow, aligned_bump, allocate, round_up, growth,
}
use vmill.Area.Filling.{fill_rounds_below}

pub round_up_bound : (m n : ℕ) → 0 < m → n ≤ round_up m n
round_up_bound m n pos =
    let whole = div_any (n + (m - 1)) m in let rest = mod-lt (n + (m - 1)) pos in omega arith

aligned_bump_above : (bump align : ℕ) → bump ≤ aligned_bump bump align
aligned_bump_above bump align = ground arith

next_multiple : (q align : ℕ) → (align * q + align) % align ≡ 0
next_multiple q align = ap (λ n. n % align) (ground arith) ∙ mul-mod_right align (q + 1)

aligned_bump_whole : (bump align : ℕ) → 0 < align → aligned_bump bump align % align ≡ 0
aligned_bump_whole bump align pos =
    let whole = div_any bump align in
    let rest = mod-lt bump pos in
    elim (Bool-cases (bump % align == 0)) [
      | inl even ↦ ground arith
      | inr odd ↦ ap (λ n. n % align) (ground arith) ∙ next_multiple (bump / align) align
    ]

module _ (mmap : ℕ → ℕ → Bool → Option ℕ) (code : List ℕ) where
  -- New memory leaves what lies below it alone.
  fresh_below :
      (a : AreaAllocator) (lo hi x : ℕ) (mem : HostMemory)
      → x < lo
      → fresh mmap code a lo hi mem x ≡ mem x
  fresh_below a lo hi x mem lt =
      let filled' = fill_rounds_below code (hi - lo) lo hi x (filled lo hi 0 mem) lt in ground arith

  abbrev pub IsInOrder : AreaAllocator → Type 0
  IsInOrder a = (a.base ≤ a.bump) × (a.bump ≤ a.limit)

  -- What Allocate does from a started area `a`.
  pub record IsAllocated (a : AreaAllocator) (size align : ℕ) (mem : HostMemory) (ret : ℕ)
      (a' : AreaAllocator) (mem' : HostMemory) : Type 0 where
    pub same_base : a'.base ≡ a.base
    pub above : a.bump ≤ ret
    pub after : a'.bump ≡ ret + size
    pub within : a'.bump ≤ a'.limit
    pub only_grows : a.limit ≤ a'.limit
    pub aligned : 0 < align → ret % align ≡ 0
    pub below : (x : ℕ) → x < a.limit → mem' x ≡ mem x

  grown_of :
      (a b a' : AreaAllocator) (size : ℕ) (mem new mem' : HostMemory)
      → b.base ≡ a.base
      → b.bump ≡ a.bump
      → a.bump + size ≤ b.limit
      → a.limit ≤ b.limit
      → ((x : ℕ) → x < a.limit → new x ≡ mem x)
      → ◌≡◌ {A = Outcome (AreaAllocator × HostMemory)} (done (b, new)) (done (a', mem'))
      → (a'.base ≡ a.base)
        × (a'.bump ≡ a.bump)
        × (a.bump + size ≤ a'.limit)
        × (a.limit ≤ a'.limit)
        × ((x : ℕ) → x < a.limit → mem' x ≡ mem x)
  grown_of a b a' size mem new mem' h1 h2 h3 h4 h5 h =
      let same : ◌≡◌ {A = AreaAllocator × HostMemory} (b, new) (a', mem') = done-injective _ _ h in
      let area : b ≡ a' = ap (λ y. y.0) same in
      let memory : new ≡ mem' = ap (λ y. y.1) same in
      (
        ap (λ y. y.base) (sym area) ∙ h1,
        ap (λ y. y.bump) (sym area) ∙ h2,
        omega (arith, ap (λ y. y.limit) area, h3),
        omega (arith, ap (λ y. y.limit) area, h4),
        λ x lt. ap (λ y. y x) (sym memory) ∙ h5 x lt,
      )

  growth_enough :
      (a : AreaAllocator) (size : ℕ) → 0 < a.page_bytes → a.bump + size ≤ a.limit + growth a size
  growth_enough a size pos =
      let bound = round_up_bound a.page_bytes (a.bump + size - a.limit) pos in ground arith

  pub grow_lem :
      (a a' : AreaAllocator) (size : ℕ) (mem mem' : HostMemory)
      → 0 < a.page_bytes
      → grow mmap code a size mem ≡ done (a', mem')
      → (a'.base ≡ a.base)
        × (a'.bump ≡ a.bump)
        × (a.bump + size ≤ a'.limit)
        × (a.limit ≤ a'.limit)
        × ((x : ℕ) → x < a.limit → mem' x ≡ mem x)
  unfolding grow
  grow_lem a a' size mem mem' pos h =
      let enough = growth_enough a size pos in
      elim (Bool-cases (leb a.limit (a.bump + size))) [
        | inr fits ↦
            grown_of a a a' size mem mem mem' refl refl (ground arith) (omega arith) (λ x lt. refl)
              (ground arith)
        | inl reaches ↦ elim (Option-cases (mmap a.limit (growth a size) true)) [
          | inl fails ↦ ground arith
          | inr (ret, there) ↦ elim (Bool-cases (ret == a.limit)) [
            | inr elsewhere ↦ ground arith
            | inl here ↦
                grown_of a (record a { limit = a.limit + growth a size }) a' size mem
                  (fresh mmap code a ret (ret + growth a size) mem) mem' refl refl enough
                  (omega arith)
                  (λ x lt. fresh_below a ret (ret + growth a size) x mem (ground arith))
                  (ground arith)
          ]
        ]
      ]

  initial_lem :
      (a a' : AreaAllocator) (size : ℕ) (mem mem' : HostMemory)
      → IsInOrder a
      → initial mmap code a size mem ≡ done (a', mem')
      → IsInOrder a' × (a'.page_bytes ≡ a.page_bytes) × (a.base ≢ 0 → (a' ≡ a) × (mem' ≡ mem))
  unfolding initial
  initial_lem a a' size mem mem' order h =
      let alloc_size = if ltb a.page_bytes size then round_up a.page_bytes size else a.page_bytes in
      elim (Bool-cases (a.base == 0)) [
        | inr started ↦
            let same : ◌≡◌ {A = AreaAllocator × HostMemory} (a, mem) (a', mem') = ground arith in
            let area : a ≡ a' = ap (λ y. y.0) same in
            (
              subst IsInOrder area order,
              ap (λ y. y.page_bytes) (sym area),
              λ ne. (sym area, ap (λ y. y.1) (sym same)),
            )
        | inl not_yet ↦
            elim (Option-cases (mmap a.preferred_base alloc_size (ltb 0 a.preferred_base))) [
              | inl fails ↦ ground arith
              | inr (ret, there) ↦
                  let b = record a { base = ret; bump = ret; limit = ret + alloc_size } in
                  let area : b ≡ a' = ground arith in
                  (
                    subst IsInOrder area (omega arith, omega arith),
                    ap (λ y. y.page_bytes) (sym area),
                    λ ne. absurd (ne (ground arith)),
                  )
            ]
      ]

  -- Whatever the host does, when Allocate of an area in order with a positive page size succeeds: it
  -- has started the area, unless it was, in which case area and memory are as they were; from there,
  -- the allocation lies between the old and the new bump pointer and within the limit, is aligned if
  -- an alignment is given, and the memory below the old limit is as it was.
  pub allocate-IsAllocated :
      (a : AreaAllocator) (size align : ℕ) (mem : HostMemory) (ret : ℕ) (a' : AreaAllocator)
      (mem' : HostMemory)
      → 0 < a.page_bytes
      → IsInOrder a
      → allocate mmap code a size align mem ≡ done (ret, a', mem')
      → (started : AreaAllocator) × (mem0 : HostMemory) × (initial mmap code a size mem
          ≡ done (started, mem0))
        × IsInOrder started
        × (a.base ≢ 0 → (started ≡ a) × (mem0 ≡ mem))
        × IsAllocated started size align mem0 ret a' mem'
  unfolding allocate
  allocate-IsAllocated a size align mem ret a' mem' pos order h =
      let (first, f, h2) = >>=-eq-done (initial mmap code a size mem) _ h in
      let (in_order, same_page, kept) = initial_lem a first.0 size mem first.1 order f in
      let at = record (first.0) { bump = aligned_bump (first.0).bump align } in
      let (grown, g, h3) = >>=-eq-done (grow mmap code at size first.1) _ h2 in
      let (b, m, fit, more, below) = grow_lem at grown.0 size first.1 grown.1 (omega arith) g in
      let b' = record (grown.0) { bump = (grown.0).bump + size } in
      let out : ◌≡◌ {A = ℕ × AreaAllocator × HostMemory} ((grown.0).bump, b', grown.1)
          (ret, a', mem') =
        done-injective _ _ h3 in
      let at_ret : (grown.0).bump ≡ ret = ap (λ y. y.0) out in
      let area : b' ≡ a' = ap (λ y. y.1) out in
      let memory : grown.1 ≡ mem' = ap (λ y. y.2) out in
      let low = aligned_bump_above (first.0).bump align in
      (
        first.0,
        first.1,
        f,
        in_order,
        kept,
        record {
          same_base = ap (λ y. y.base) (sym area) ∙ b;
          above = omega arith;
          after = omega (arith, ap (λ y. y.bump) area);
          within = omega (arith, ap (λ y. y.bump) area, ap (λ y. y.limit) area);
          only_grows = omega (arith, ap (λ y. y.limit) area);
          aligned = λ some_align.
              ap (λ n. n % align) (sym at_ret ∙ m)
              ∙ aligned_bump_whole (first.0).bump align some_align;
          below = λ x lt. ap (λ y. y x) (sym memory) ∙ below x lt;
        },
      )
