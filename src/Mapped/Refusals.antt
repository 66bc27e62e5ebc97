-- ===== src/Mapped/Refusals.antt =====
-- What the memory system calls leave behind when they refuse a call, and a fixed address that they
-- do not refuse.
use vmill.Prelude.{
  ℕ, ◌≡◌, ◌≢◌, ◌⊎◌, refl, ◌+◌, ◌*◌, ◌%◌, ◌^◌, ◌≤◌, ◌<◌, Bool, true, false, Bool-cases, inl, inr,
  Option, none, some, ◌==◌, arith, align_down_to_page, Outcome, done, check_failed, undefined,
  ◌>>=◌, >>=-eq-done, word_mod, page_size,
}
use vmill.Replies.{Errno, Reply, fails, of_host}
use vmill.Mapped.{
  Mapper, HostFiles, MmapArgs, align_to_next_page, is_negative_int, fixed_address, check_file,
  check_flags, no_fd,
}
use vmill.Mapped.Mmap.{
  MemoryCall, brk, mmap, munmap, mprotect, run_memory_call, sys_mmap, sys_munmap, sys_mprotect,
  map_chosen, place, map_anonymously, map_file, choose_address,
}

abbrev pub is_of_host : Errno → Bool
is_of_host (of_host n) = true
is_of_host _ = false

module _ {M H : Type 0} (g : Mapper M) (f : HostFiles H) (wide : Bool) where
  map_anonymously_fails :
      (m : M) (h : H) (a : MmapArgs) (size addr : ℕ) (e : Errno) (m' : M) (h' : H)
      → map_anonymously g f wide m h a size addr ≢ done (fails e, m', h')
  unfolding map_anonymously
  map_anonymously_fails m h a size addr e m' h' made = ground arith

  map_file_fails :
      (m : M) (h : H) (a : MmapArgs) (size addr : ℕ) (e : Errno) (m' : M) (h' : H)
      → map_file g f wide m h a size addr ≡ done (fails e, m', h')
      → is_of_host e ≡ true
  unfolding map_file
  map_file_fails m h a size addr e m' h' made = ground arith

  map_chosen_fails :
      (m : M) (h : H) (a : MmapArgs) (size : ℕ) (chosen : Errno ⊎ ℕ) (e : Errno) (m' : M) (h' : H)
      → is_of_host e ≡ false
      → map_chosen g f wide m h a size chosen ≡ done (fails e, m', h')
      → (m' ≡ m) × (h' ≡ h)
  unfolding map_chosen
  map_chosen_fails m h a size (inl d) e m' h' own k = (ground arith, ground arith)
  map_chosen_fails m h a size (inr addr) e m' h' own k = elim (Bool-cases (is_negative_int a.fd)) [
    | inl anonymous ↦ absurd (map_anonymously_fails m h a size addr e m' h' (rw anonymous at k))
    | inr file ↦
        let host = map_file_fails m h a size addr e m' h' (rw file at k) in absurd (ground arith)
  ]

  sys_mmap_fails :
      (scale : ℕ) (m : M) (h : H) (args : Option MmapArgs) (e : Errno) (m' : M) (h' : H)
      → is_of_host e ≡ false
      → sys_mmap g f wide scale m h args ≡ done (fails e, m', h')
      → (m' ≡ m) × (h' ≡ h)
  unfolding sys_mmap
  sys_mmap_fails scale m h none e m' h' own k = (ground arith, ground arith)
  sys_mmap_fails scale m h (some given) e m' h' own k =
      let size = align_to_next_page wide given.size in
      let a = record given { offset = given.offset * scale % 2 ^ 64 } in
      let (chosen, _, made) = >>=-eq-done (place g f wide m a size) _ k in
      map_chosen_fails m h a size chosen e m' h' own made

  sys_munmap_fails :
      (m : M) (args : Option (ℕ × ℕ)) (e : Errno) (m' : M)
      → sys_munmap g f wide m args ≡ done (fails e, m')
      → m' ≡ m
  unfolding sys_munmap
  sys_munmap_fails m none e m' k = ground arith
  sys_munmap_fails m (some (addr, size)) e m' k = ground arith

  sys_mprotect_fails :
      (m : M) (args : Option (ℕ × ℕ × ℕ)) (e : Errno) (m' : M)
      → sys_mprotect g f wide m args ≡ done (fails e, m')
      → m' ≡ m
  unfolding sys_mprotect
  sys_mprotect_fails m none e m' k = ground arith
  sys_mprotect_fails m (some (addr, size, prot)) e m' k = ground arith

  unchanged :
      (o : Outcome (Reply × M)) (h : H) (e : Errno) (m' : M) (h' : H)
      → ◌≡◌ {A = Outcome (Reply × M × H)}
          (o >>= λ (x : Reply × M). done (x.0, x.1, h))
          (done (fails e, m', h'))
      → (o ≡ done (fails e, m')) × (h' ≡ h)
  unchanged (done (r, n)) h e m' h' k = (ground arith, ground arith)
  unchanged check_failed h e m' h' k = absurd (ground arith)
  unchanged undefined h e m' h' k = absurd (ground arith)

  -- A call of brk, mmap, munmap or mprotect that fails with a number that does not come from the host
  -- leaves guest memory and the host's files as they were.
  pub run_memory_call_fails :
      (c : MemoryCall) (m : M) (h : H) (e : Errno) (m' : M) (h' : H)
      → is_of_host e ≡ false
      → run_memory_call g f wide c m h ≡ done (fails e, m', h')
      → (m' ≡ m) × (h' ≡ h)
  unfolding run_memory_call
  run_memory_call_fails (brk none) m h e m' h' own k = (ground arith, ground arith)
  run_memory_call_fails (brk (some addr)) m h e m' h' own k = (ground arith, ground arith)
  run_memory_call_fails (mmap scale args) m h e m' h' own k =
      sys_mmap_fails scale m h args e m' h' own k
  run_memory_call_fails (munmap args) m h e m' h' own k =
      let (made, same) = unchanged (sys_munmap g f wide m args) h e m' h' k in
      (sys_munmap_fails m args e m' made, same)
  run_memory_call_fails (mprotect args) m h e m' h' own k =
      let (made, same) = unchanged (sys_mprotect g f wide m args) h e m' h' k in
      (sys_mprotect_fails m args e m' made, same)

-- MAP_PRIVATE, MAP_FIXED and MAP_ANONYMOUS.
abbrev pub fixed_flags : ℕ
fixed_flags = 50

abbrev pub fixed_anonymous : ℕ → ℕ → ℕ → MmapArgs
fixed_anonymous addr size prot = record {
  addr = addr;
  size = size;
  prot = prot;
  flags = fixed_flags;
  fd = no_fd;
  offset = 0;
}

-- A private anonymous mapping of 64-bit addresses at a fixed page from 65536 on is not refused when
-- its end wraps around to at most 2 ^ 47: the call goes on to allocate it there.
pub sys_mmap_wraps :
    {M H : Type 0} (g : Mapper M) (f : HostFiles H) (m : M) (h : H) (scale page size prot : ℕ)
    → page % page_size ≡ 0
    → size % page_size ≡ 0
    → page < word_mod
    → size < word_mod
    → 65536 ≤ page
    → word_mod ≤ page + size
    → page + size ≤ word_mod + 2 ^ 47
    → sys_mmap g f true scale m h (some (fixed_anonymous page size prot))
      ≡ map_anonymously g f true m h (fixed_anonymous page size prot) size page
unfolding sys_mmap place choose_address fixed_address check_file check_flags map_chosen
sys_mmap_wraps g f m h scale page size prot aligned whole below small high wraps low =
    let same_page : align_down_to_page page ≡ page = omega arith in
    let same_size : align_to_next_page true size ≡ size = omega arith in
    let placed : fixed_address true fixed_flags page size ≡ inr page = ground arith in
    let positive : (size == 0) ≡ false = ground arith in
    let no_offset : 0 * scale % 2 ^ 64 ≡ 0 = omega arith in
    rw (same_size, placed, positive, no_offset) refl
